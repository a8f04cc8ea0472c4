-- ===== src/Worker/Chunking/Pack.antt =====
-- No sentence is lost or moved by the cutting of a long text.
use kkori_ai.Prelude.{
  ℕ, zero, suc, ◌+◌, ◌≤◌, ◌≡◌, refl, ◌∙◌, ap, Bool, true, false, not, ◌&&◌, List, [], ◌∷◌, ◌++◌,
  Text, leb, ◌-◌, sym, subst, append-nil, ltb, length, length-append, is_empty, append_assoc, arith,
  if◌then◌else◌,
}
use kkori_ai.Worker.Chunking.{approx_tokens, size, drop, last_items, pack}

drop-append : (n : ℕ) (xs ys : List Text) → n ≤ length xs → drop n (xs ++ ys) ≡ drop n xs ++ ys
drop-append zero xs ys h = refl
drop-append (suc n) [] ys h = absurd (omega arith)
drop-append (suc n) (x ∷ xs) ys h = drop-append n xs ys (omega arith)

drop-length : (xs ys : List Text) → drop (length xs) (xs ++ ys) ≡ ys
drop-length [] ys = refl
drop-length (x ∷ xs) ys = drop-length xs ys

unpack_items : ℕ → ℕ → List (List Text) → List Text
unpack_items overlap skip [] = []
unpack_items overlap skip (p ∷ ps) =
    drop skip p ++ unpack_items overlap (length (last_items overlap p)) ps

unpack_items-pack :
    (budget overlap skip : ℕ) (ss current : List Text)
    → skip ≤ length current
    → unpack_items overlap skip (pack budget overlap current ss) ≡ drop skip current ++ ss
unfolding pack unpack_items
unpack_items-pack budget overlap zero [] [] h = refl
unpack_items-pack budget overlap (suc n) [] [] h = refl
unpack_items-pack budget overlap skip [] (c ∷ current) h = refl
unpack_items-pack budget overlap skip (s ∷ ss) current h =
    by_test (not (is_empty current) && ltb budget (size current + approx_tokens s))
      (unpack_items-pack budget overlap (length (last_items overlap current)) ss
        (last_items overlap current ++ s ∷ [])
        (ground (arith, length-append (last_items overlap current) (s ∷ []))))
      (unpack_items-pack budget overlap skip ss (current ++ s ∷ [])
        (ground (arith, length-append current (s ∷ []))))
  where
    cut_here : List (List Text)
    cut_here = pack budget overlap (last_items overlap current ++ s ∷ []) ss

    go_on : List (List Text)
    go_on = pack budget overlap (current ++ s ∷ []) ss

    by_test :
        (b : Bool)
        → unpack_items overlap (length (last_items overlap current)) cut_here
          ≡ drop (length (last_items overlap current)) (last_items overlap current ++ s ∷ []) ++ ss
        → unpack_items overlap skip go_on ≡ drop skip (current ++ s ∷ []) ++ ss
        → unpack_items overlap skip (if b then current ∷ cut_here else go_on)
          ≡ drop skip current ++ s ∷ ss
    by_test true ih k =
        unfold unpack_items in
        (ap (λ xs. drop skip current ++ xs)
          (ih ∙ ap (λ xs. xs ++ ss) (drop-length (last_items overlap current) (s ∷ []))))
    by_test false k ih =
        ih
        ∙ ap (λ xs. xs ++ ss) (drop-append skip current (s ∷ []) h)
        ∙ append_assoc (drop skip current) (s ∷ []) ss

-- How many sentences a piece repeats of the one before it.
abbrev pub overlap_of : ℕ → List Text → ℕ
overlap_of n before = if leb n (length before) then n else length before

-- The pieces without what each repeats of the one before it; `skip` is how much the first repeats.
pub unpack : ℕ → ℕ → List (List Text) → List Text
unpack n skip [] = []
unpack n skip (p ∷ ps) = drop skip p ++ unpack n (overlap_of n p) ps

-- The piece begins with that many sentences, which end the piece before it.
pub record IsRepeat (n : ℕ) (before p : List Text) : Type 0 where
  pub kept : List Text
  pub repeated : List Text
  pub rest : List Text
  pub ending : before ≡ kept ++ repeated
  pub beginning : p ≡ repeated ++ rest
  pub count : length repeated ≡ overlap_of n before

abbrev pub Follows : ℕ → List Text → List (List Text) → Type 0
Follows n before [] = Unit
Follows n before (p ∷ ps) = IsRepeat n before p × Follows n p ps

-- Each piece but the first repeats the end of the one before it.
abbrev pub Repeats : ℕ → List (List Text) → Type 0
Repeats n [] = Unit
Repeats n (p ∷ ps) = Follows n p ps

length-drop : (n : ℕ) (xs : List Text) → length (drop n xs) ≡ length xs - n
length-drop zero xs = omega arith
length-drop (suc n) [] = omega arith
length-drop (suc n) (x ∷ xs) = omega (arith, length-drop n xs)

take_items : ℕ → List Text → List Text
take_items zero xs = []
take_items (suc n) [] = []
take_items (suc n) (x ∷ xs) = x ∷ take_items n xs

take_drop : (n : ℕ) (xs : List Text) → xs ≡ take_items n xs ++ drop n xs
unfolding take_items
take_drop zero xs = refl
take_drop (suc n) [] = refl
take_drop (suc n) (x ∷ xs) = ap (λ ys. x ∷ ys) (take_drop n xs)

length-last_items : (n : ℕ) (xs : List Text) → length (last_items n xs) ≡ overlap_of n xs
length-last_items n xs = ground (arith, length-drop (length xs - n) xs)

front_by :
    (b : Bool) (k : ℕ) (xs : List Text)
    → (kept : List Text) × (xs ≡ kept ++ (if b then [] else drop k xs))
front_by true k xs = (xs, sym (append-nil xs))
front_by false k xs = (take_items k xs, take_drop k xs)

front_items : (n : ℕ) (xs : List Text) → (kept : List Text) × (xs ≡ kept ++ last_items n xs)
front_items n xs = front_by (leb n 0) (length xs - n) xs

last_items-IsRepeat :
    (n : ℕ) (before rest : List Text) → IsRepeat n before (last_items n before ++ rest)
last_items-IsRepeat n before rest =
    let (kept, e) = front_items n before in
    record {
      kept = kept;
      repeated = last_items n before;
      rest = rest;
      ending = e;
      beginning = refl;
      count = length-last_items n before;
    }

module _ (budget overlap : ℕ) where
  pack-Follows :
      (before rest ss current : List Text)
      → current ≡ last_items overlap before ++ rest
      → Follows overlap before (pack budget overlap current ss)
  unfolding pack
  pack-Follows before rest [] [] e = tt
  pack-Follows before rest [] (c ∷ current) e =
      (subst (IsRepeat overlap before) (sym e) (last_items-IsRepeat overlap before rest), tt)
  pack-Follows before rest (s ∷ ss) current e =
      by_test (not (is_empty current) && ltb budget (size current + approx_tokens s))
        (pack-Follows current (s ∷ []) ss (last_items overlap current ++ s ∷ []) refl)
        (pack-Follows before (rest ++ s ∷ []) ss (current ++ s ∷ [])
          (ap (λ x. x ++ s ∷ []) e ∙ append_assoc (last_items overlap before) rest (s ∷ [])))
    where
      by_test :
          (b : Bool)
          → Follows overlap current (pack budget overlap (last_items overlap current ++ s ∷ []) ss)
          → Follows overlap before (pack budget overlap (current ++ s ∷ []) ss)
          → Follows overlap before (
              if b
              then current ∷ pack budget overlap (last_items overlap current ++ s ∷ []) ss
              else pack budget overlap (current ++ s ∷ []) ss)
      by_test true h k =
          (subst (IsRepeat overlap before) (sym e) (last_items-IsRepeat overlap before rest), h)
      by_test false h k = k

  pack-Repeats : (ss current : List Text) → Repeats overlap (pack budget overlap current ss)
  unfolding pack
  pack-Repeats [] [] = tt
  pack-Repeats [] (c ∷ current) = tt
  pack-Repeats (s ∷ ss) current =
      by_test (not (is_empty current) && ltb budget (size current + approx_tokens s))
        (pack-Follows current (s ∷ []) ss (last_items overlap current ++ s ∷ []) refl)
        (pack-Repeats ss (current ++ s ∷ []))
    where
      by_test :
          (b : Bool)
          → Follows overlap current (pack budget overlap (last_items overlap current ++ s ∷ []) ss)
          → Repeats overlap (pack budget overlap (current ++ s ∷ []) ss)
          → Repeats overlap (
              if b
              then current ∷ pack budget overlap (last_items overlap current ++ s ∷ []) ss
              else pack budget overlap (current ++ s ∷ []) ss)
      by_test true h k = h
      by_test false h k = k

unpack-items : (n skip : ℕ) (ps : List (List Text)) → unpack n skip ps ≡ unpack_items n skip ps
unfolding unpack unpack_items
unpack-items n skip [] = refl
unpack-items n skip (p ∷ ps) =
    ap (λ xs. drop skip p ++ xs)
      (unpack-items n (overlap_of n p) ps
        ∙ ap (λ k. unpack_items n k ps) (sym (length-last_items n p)))

-- Whatever the sizes, each piece of a text but the first begins with the sentences that end the
-- piece before it, as many as the setting says, or all of that piece if it has fewer; and without
-- these repetitions the pieces are the sentences of the text in their order.
pub unpack-pack :
    (budget overlap : ℕ) (ss : List Text)
    → (unpack overlap 0 (pack budget overlap [] ss) ≡ ss)
      × Repeats overlap (pack budget overlap [] ss)
unpack-pack budget overlap ss = (
  unpack-items overlap 0 (pack budget overlap [] ss)
      ∙ unpack_items-pack budget overlap 0 ss [] (omega arith),
  pack-Repeats budget overlap ss [],
)
