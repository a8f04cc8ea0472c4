-- ===== src/Worker/Repository/Steps/Found.antt =====
-- What a statement on one report says and does.
use kkori_ai.Prelude.{
  ℕ, suc, ◌≡◌, refl, sym, ◌∙◌, ap, subst, Bool, true, false, none, some, List, [], ◌∷◌, ◌==◌, any,
  Text, Bool-cases, inl, inr, find, All, arith, if◌then◌else◌, find-append_none,
}
use kkori_ai.Worker.Report.{Report, Db}
use kkori_ai.Worker.Repository.{
  get_report_by_session, rowcount, execute, has_id, new_report, create_report_with_job, inserted,
}
use kkori_ai.Worker.Repository.Rows.{set_row, find-update, map_some}
use kkori_ai.Worker.Repository.Steps.Unique.{
  Distinct, ids, IsUnique, execute-IsUnique, inserted-IsUnique,
}

none-counted :
    (p : Report → Bool) (rid : ℕ) (rs : List Report)
    → ((x : Report) → p x ≡ true → has_id rid x ≡ true)
    → All (λ n. (rid == n) ≡ false) (ids rs)
    → rowcount p rs ≡ 0
none-counted p rid [] h n = refl
none-counted p rid (x ∷ rs) h n = ground (arith, h x, none-counted p rid rs h n.1)

counted_once : (b : Bool) (n : ℕ) → n ≡ 0 → (if b then suc n else n) ≡ (if b then 1 else 0)
counted_once true n e = ap suc e
counted_once false n e = e

not_at : (a b : Bool) → (a ≡ true → b ≡ true) → b ≡ false → a ≡ false
not_at a b h n = ground arith

other_id :
    (a : ℕ) (key : Report → Bool) (rs : List Report) (r : Report)
    → All (λ n. (a == n) ≡ false) (ids rs)
    → find key rs ≡ some r
    → (a == r.id) ≡ false
other_id a key [] r h e = absurd (ground arith)
other_id a key (x ∷ rs) r h e = elim (Bool-cases (key x)) [
  | inl y ↦ let it : x ≡ r = ground arith in subst (λ (z : Report). (a == z.id) ≡ false) it h.0
  | inr n ↦ other_id a key rs r h.1 (subst (λ b. (if b then some x else find key rs) ≡ some r) n e)
]

rowcount-found :
    (p : Report → Bool) (rid : ℕ) (rs : List Report) (r : Report)
    → ((x : Report) → p x ≡ true → has_id rid x ≡ true)
    → Distinct (ids rs)
    → find (has_id rid) rs ≡ some r
    → rowcount p rs ≡ (if p r then 1 else 0)
unfolding Distinct
rowcount-found p rid [] r h d e = absurd (ground arith)
rowcount-found p rid (x ∷ rs) r h d e = elim (Bool-cases (has_id rid x)) [
  | inl y ↦
      let it : x ≡ r = ground arith in
      let same : x.id ≡ rid = ground arith in
      let none_left : rowcount p rs ≡ 0 =
        none-counted p rid rs h (subst (λ m. All (λ n. (m == n) ≡ false) (ids rs)) same d.0) in
      subst (λ z. (if p x then suc (rowcount p rs) else rowcount p rs) ≡ (if p z then 1 else 0)) it
        (counted_once (p x) (rowcount p rs) none_left)
  | inr n ↦
      let not_it : p x ≡ false = not_at (p x) (has_id rid x) (h x) n in
      subst (λ b. (if b then suc (rowcount p rs) else rowcount p rs) ≡ (if p r then 1 else 0))
        (sym not_it)
        (rowcount-found p rid rs r h d.1
          (subst (λ b. (if b then some x else find (has_id rid) rs) ≡ some r) n e))
]

-- The only row with its session has the id that it has.
pub by_id :
    (session : ℕ) (rs : List Report) (r : Report)
    → Distinct (ids rs)
    → find (λ x. x.session_id == session) rs ≡ some r
    → find (has_id r.id) rs ≡ some r
unfolding Distinct
by_id session [] r d e = absurd (ground arith)
by_id session (x ∷ rs) r d e = elim (Bool-cases (x.session_id == session)) [
  | inl y ↦
      let it : x ≡ r = ground arith in
      subst (λ (z : Report). find (has_id z.id) (x ∷ rs) ≡ some z) it (ground arith)
  | inr n ↦
      let later : find (λ (z : Report). z.session_id == session) rs ≡ some r =
        subst
          (λ b. (if b then some x else find (λ (z : Report). z.session_id == session) rs) ≡ some r)
          n e in
      subst (λ b. (if b then some x else find (has_id r.id) rs) ≡ some r)
        (sym (other_id x.id _ rs r d.0 later)) (by_id session rs r d.1 later)
]

-- The report of a session in tables without duplicates.
pub record IsAt (session : ℕ) (r : Report) (db : Db) : Type 0 where
  pub unique : IsUnique db
  pub found : get_report_by_session session db ≡ some r

one_row : (b : Bool) → ((if b then 1 else 0) == 1) ≡ b
one_row true = refl
one_row false = refl

-- A statement on the report with this id, that leaves ids and sessions alone, says whether the
-- report met its condition, and the session has the report as it is after it.
pub execute-IsAt :
    (session : ℕ) (r : Report) (p : Report → Bool) (set : Report → Report)
    → ((x : Report) → p x ≡ true → has_id r.id x ≡ true)
    → ((x : Report) → (set x).id ≡ x.id)
    → ((x : Report) → (set x).session_id ≡ x.session_id)
    → (db : Db) → IsAt session r db
    → ((execute p set db).0 ≡ p r) × IsAt session (set_row p set r) (execute p set db).1
unfolding get_report_by_session
execute-IsAt session r p set only same_id same_session db h = (
  ap (λ n. n == 1)
        (rowcount-found p r.id db.reports r only h.unique.distinct_ids
          (by_id session db.reports r h.unique.distinct_ids h.found))
      ∙ one_row (p r),
  record {
    unique = execute-IsUnique p set same_id same_session db h.unique;
    found =
        find-update (λ x. x.session_id == session) p set
          (λ x. ap (λ n. n == session) (same_session x)) db.reports
        ∙ ap (map_some (set_row p set)) h.found;
  },
)

-- A statement on the report with this id and no other condition.
pub set-IsAt :
    (session : ℕ) (r : Report) (set : Report → Report)
    → ((x : Report) → (set x).id ≡ x.id)
    → ((x : Report) → (set x).session_id ≡ x.session_id)
    → (db : Db) → IsAt session r db
    → IsAt session (set r) (execute (has_id r.id) set db).1
set-IsAt session r set same_id same_session db at =
    subst (λ c. IsAt session (if c then set r else r) (execute (has_id r.id) set db).1)
      (own_id r.id)
      (execute-IsAt session r (has_id r.id) set (λ x p. p) same_id same_session db at).1
  where
    own_id : (n : ℕ) → (n == n) ≡ true
    own_id n = ground arith

-- The report that a new session gets.
pub created-IsAt :
    (session user resume : ℕ) (name : Text) (db : Db)
    → IsUnique db
    → get_report_by_session session db ≡ none
    → ((create_report_with_job session user resume name db).0 ≡ some db.next_id)
      × IsAt session
          (new_report db.next_id session user resume name)
          (create_report_with_job session user resume name db).1
unfolding create_report_with_job get_report_by_session
created-IsAt session user resume name db u e =
    at_end (any _ db.reports) refl (none-any db.reports e)
  where
    key : Report → Bool
    key r = r.session_id == session

    none-any : (rs : List Report) → find key rs ≡ none → any key rs ≡ false
    none-any [] h = refl
    none-any (x ∷ rs) h = ground (arith, none-any rs)

    at_end :
        (b : Bool)
        → any key db.reports ≡ b
        → b ≡ false
        → ((inserted b session user resume name db).0 ≡ some db.next_id)
          × IsAt session
              (new_report db.next_id session user resume name)
              (inserted b session user resume name db).1
    at_end true q n = absurd (ground arith)
    at_end false q n = (
      refl,
      record {
        unique = inserted-IsUnique false db session user resume name q u;
        found =
            find-append_none key db.reports (new_report db.next_id session user resume name ∷ []) e
            ∙ ground arith;
      },
    )
