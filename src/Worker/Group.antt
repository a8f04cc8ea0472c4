-- ===== src/Worker/Group.antt =====
-- The parts of Python that the grouping of utterances and of questions uses: a dictionary of lists
-- filled by `setdefault(key, []).append(value)`, `sorted`, and a comprehension whose items may raise.
pub mod Partition
use kkori_ai.Prelude.{ℕ, Bool, List, [], ◌∷◌, ◌++◌, ◌==◌, if◌then◌else◌, Outcome, ok, err, ◌>>=◌}

module _ {ℓ} {A : Type ℓ} where
  -- The as are in the order in which their keys came first.
  abbrev pub append_to : ℕ → A → List (ℕ × List A) → List (ℕ × List A)
  append_to k a [] = (k, a ∷ []) ∷ []
  append_to k a ((l, xs) ∷ rest) =
      let more = append_to k a rest in if k == l then (l, xs ++ a ∷ []) ∷ rest else (l, xs) ∷ more

  abbrev pub fill : (A → ℕ) → List (ℕ × List A) → List A → List (ℕ × List A)
  fill key d [] = d
  fill key d (a ∷ items) = fill key (append_to (key a) a d) items

  unfoldable pub grouped : (A → ℕ) → List A → List (ℕ × List A)
  grouped key items = fill key [] items

  -- A stable sort: an item goes in front of the first one that is not before it.
  abbrev pub insert_by : (A → A → Bool) → A → List A → List A
  insert_by before a [] = a ∷ []
  insert_by before a (b ∷ bs) =
      let rest = insert_by before a bs in if before a b then a ∷ b ∷ bs else b ∷ rest

  abbrev pub sort_by : (A → A → Bool) → List A → List A
  sort_by before [] = []
  sort_by before (a ∷ items) = insert_by before a (sort_by before items)

module _ {A B E : Type 0} where
  abbrev pub traverse : (A → Outcome E B) → List A → Outcome E (List B)
  traverse f [] = ok []
  traverse f (a ∷ items) = f a >>= λ b. traverse f items >>= λ bs. ok (b ∷ bs)
