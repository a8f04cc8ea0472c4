-- ===== src/Worker/Group/Partition.antt =====
-- What grouping by a key and sorting by the keys gives.
use kkori_ai.Prelude.{
  ℕ, ◌<◌, ◌≡◌, refl, sym, ◌∙◌, ap, Bool, true, false, ◌||◌, List, [], ◌∷◌, ◌++◌, ◌==◌, leb, any,
  select, All, All-map, arith, append_assoc, append-nil, if◌then◌else◌,
}
use kkori_ai.Worker.Group.{append_to, fill, grouped, insert_by, sort_by}

sym_neq : (l j : ℕ) → (j == l) ≡ false → (l == j) ≡ false
sym_neq l j h = ground arith

module _ {A : Type 0} where
  -- The group of a key, empty where there is none.
  abbrev pub lookup : ℕ → List (ℕ × List A) → List A
  lookup k [] = []
  lookup k ((l, xs) ∷ rest) = let found = lookup k rest in if l == k then xs else found

  abbrev pub has_key : ℕ → List (ℕ × List A) → Bool
  has_key k d = any (λ (p : ℕ × List A). p.0 == k) d

  abbrev pub with_key : (A → ℕ) → ℕ → List A → List A
  with_key key k items = select (λ a. key a == k) items

  lookup-append_to :
      (k j : ℕ) (a : A) (d : List (ℕ × List A))
      → lookup k (append_to j a d) ≡ (if j == k then lookup k d ++ a ∷ [] else lookup k d)
  lookup-append_to k j a [] = ground arith
  lookup-append_to k j a ((l, xs) ∷ d) = ground (arith, lookup-append_to k j a d)

  shift_if :
      (b : Bool) (a : A) (xs ys : List A)
      → (if b then xs ++ a ∷ [] else xs) ++ ys ≡ xs ++ (if b then a ∷ ys else ys)
  shift_if true a xs ys = append_assoc xs (a ∷ []) ys
  shift_if false a xs ys = refl

  lookup-fill :
      (key : A → ℕ) (k : ℕ) (d : List (ℕ × List A)) (items : List A)
      → lookup k (fill key d items) ≡ lookup k d ++ with_key key k items
  lookup-fill key k d [] = sym (append-nil (lookup k d))
  lookup-fill key k d (a ∷ items) =
      lookup-fill key k (append_to (key a) a d) items
      ∙ ap (λ xs. xs ++ with_key key k items) (lookup-append_to k (key a) a d)
      ∙ shift_if (key a == k) a (lookup k d) (with_key key k items)

  has_key-append_to :
      (k j : ℕ) (a : A) (d : List (ℕ × List A))
      → has_key k (append_to j a d) ≡ ((j == k) || has_key k d)
  has_key-append_to k j a [] = ground arith
  has_key-append_to k j a ((l, xs) ∷ d) = ground (arith, has_key-append_to k j a d)

  has_key-fill :
      (key : A → ℕ) (k : ℕ) (d : List (ℕ × List A)) (items : List A)
      → has_key k (fill key d items) ≡ (has_key k d || any (λ a. key a == k) items)
  has_key-fill key k d [] = ground arith
  has_key-fill key k d (a ∷ items) =
      ground
        (arith, has_key-append_to k (key a) a d, has_key-fill key k (append_to (key a) a d) items)

  -- No key twice.
  pub Distinct : List (ℕ × List A) → Type 0
  Distinct [] = Unit
  Distinct (p ∷ d) = All (λ (q : ℕ × List A). (p.0 == q.0) ≡ false) d × Distinct d

  other-append_to :
      (l j : ℕ) (a : A) (d : List (ℕ × List A))
      → (l == j) ≡ false
      → All (λ (q : ℕ × List A). (l == q.0) ≡ false) d
      → All (λ (q : ℕ × List A). (l == q.0) ≡ false) (append_to j a d)
  other-append_to l j a [] n h = (n, tt)
  other-append_to l j a ((m, xs) ∷ d) n h = ground (arith, other-append_to l j a d n h.1)

  append_to-Distinct :
      (j : ℕ) (a : A) (d : List (ℕ × List A)) → Distinct d → Distinct (append_to j a d)
  unfolding Distinct
  append_to-Distinct j a [] h = (tt, tt)
  append_to-Distinct j a ((l, xs) ∷ d) h =
      found (j == l) (sym_neq l j) (append_to-Distinct j a d h.1)
    where
      found :
          (b : Bool)
          → (b ≡ false → (l == j) ≡ false)
          → Distinct (append_to j a d)
          → Distinct (if b then (l, xs ++ a ∷ []) ∷ d else (l, xs) ∷ append_to j a d)
      found true n ih = h
      found false n ih = (other-append_to l j a d (n refl) h.0, ih)

  fill-Distinct :
      (key : A → ℕ) (d : List (ℕ × List A)) (items : List A)
      → Distinct d
      → Distinct (fill key d items)
  fill-Distinct key d [] h = h
  fill-Distinct key d (a ∷ items) h =
      fill-Distinct key (append_to (key a) a d) items (append_to-Distinct (key a) a d h)

  -- With distinct keys a group is the one that its key finds.
  groups-lookup :
      (d : List (ℕ × List A)) → Distinct d → All (λ (p : ℕ × List A). p.1 ≡ lookup p.0 d) d
  unfolding Distinct
  groups-lookup [] h = tt
  groups-lookup ((l, xs) ∷ d) h = (ground arith, behind d (groups-lookup d h.1) h.0)
    where
      behind :
          (e : List (ℕ × List A))
          → All (λ (p : ℕ × List A). p.1 ≡ lookup p.0 d) e
          → All (λ (q : ℕ × List A). (l == q.0) ≡ false) e
          → All (λ (p : ℕ × List A). p.1 ≡ lookup p.0 ((l, xs) ∷ d)) e
      behind [] g n = tt
      behind (p ∷ e) g n = (ground arith, behind e g.1 n.1)

  abbrev pub by_key : ℕ × List A → ℕ × List A → Bool
  by_key p q = leb p.0 q.0

  -- Each key is below all later ones.
  unfoldable pub Ascending : List (ℕ × List A) → Type 0
  Ascending [] = Unit
  Ascending (p ∷ d) = All (λ (q : ℕ × List A). p.0 < q.0) d × Ascending d

  All-insert_by {κ} :
      (P : ℕ × List A → Type κ) (p : ℕ × List A) (d : List (ℕ × List A))
      → P p
      → All P d
      → All P (insert_by by_key p d)
  All-insert_by P p [] h k = (h, tt)
  All-insert_by P p (q ∷ d) h k = ground (arith, All-insert_by P p d h k.1)

  pub All-sort_by {κ} :
      (P : ℕ × List A → Type κ) (d : List (ℕ × List A)) → All P d → All P (sort_by by_key d)
  All-sort_by P [] h = tt
  All-sort_by P (p ∷ d) h = All-insert_by P p (sort_by by_key d) h.0 (All-sort_by P d h.1)

  below_rest :
      (p q : ℕ × List A) (d : List (ℕ × List A))
      → p.0 < q.0
      → All (λ (r : ℕ × List A). q.0 < r.0) d
      → All (λ (r : ℕ × List A). p.0 < r.0) d
  below_rest p q [] l h = tt
  below_rest p q (r ∷ d) l h = ground (arith, below_rest p q d l h.1)

  insert_by-Ascending :
      (p : ℕ × List A) (d : List (ℕ × List A))
      → All (λ (q : ℕ × List A). (p.0 == q.0) ≡ false) d
      → Ascending d
      → Ascending (insert_by by_key p d)
  unfolding Ascending
  insert_by-Ascending p [] n h = (tt, tt)
  insert_by-Ascending p (q ∷ d) n h =
      placed (by_key p q) (λ e. ground arith) (λ e. ground arith) (insert_by-Ascending p d n.1 h.1)
    where
      placed :
          (b : Bool)
          → (b ≡ true → p.0 < q.0)
          → (b ≡ false → q.0 < p.0)
          → Ascending (insert_by by_key p d)
          → Ascending (if b then p ∷ q ∷ d else q ∷ insert_by by_key p d)
      placed true l g ih = ((l refl, below_rest p q d (l refl) h.0), h)
      placed false l g ih = (All-insert_by _ p d (g refl) h.0, ih)

  sort_by-Ascending : (d : List (ℕ × List A)) → Distinct d → Ascending (sort_by by_key d)
  unfolding Ascending Distinct
  sort_by-Ascending [] h = tt
  sort_by-Ascending (p ∷ d) h =
      insert_by-Ascending p (sort_by by_key d) (All-sort_by _ d h.0) (sort_by-Ascending d h.1)

  has_key-insert_by :
      (k : ℕ) (p : ℕ × List A) (d : List (ℕ × List A))
      → has_key k (insert_by by_key p d) ≡ has_key k (p ∷ d)
  has_key-insert_by k p [] = refl
  has_key-insert_by k p (q ∷ d) = ground (arith, has_key-insert_by k p d)

  has_key-sort_by : (k : ℕ) (d : List (ℕ × List A)) → has_key k (sort_by by_key d) ≡ has_key k d
  has_key-sort_by k [] = refl
  has_key-sort_by k (p ∷ d) =
      ground (arith, has_key-insert_by k p (sort_by by_key d), has_key-sort_by k d)

  -- The keys ascend, each is the key of an item, each key of an item is there, and each group is
  -- all items of its key in their order.
  pub record IsPartition (key : A → ℕ) (items : List A) (d : List (ℕ × List A)) : Type 0 where
    pub ascending : Ascending d
    pub complete_groups : All (λ (p : ℕ × List A). p.1 ≡ with_key key p.0 items) d
    pub same_keys : (k : ℕ) → has_key k d ≡ any (λ a. key a == k) items

  pub grouped-IsPartition :
      (key : A → ℕ) (items : List A) → IsPartition key items (sort_by by_key (grouped key items))
  unfolding grouped Distinct
  grouped-IsPartition key items = record {
    ascending = sort_by-Ascending (fill key [] items) (fill-Distinct key [] items tt);
    complete_groups = All-sort_by _ (fill key [] items) (
        All-map (λ p. p.1 ≡ lookup p.0 (fill key [] items)) _
          (λ p h. h ∙ lookup-fill key p.0 [] items) (fill key [] items)
          (groups-lookup (fill key [] items) (fill-Distinct key [] items tt)));
    same_keys = λ k. has_key-sort_by k (fill key [] items) ∙ has_key-fill key k [] items;
  }
