-- ===== src/Worker/Repository/Rows.antt =====
-- Updates of rows: what a statement keeps of every row, and where a search finds the row again.
use kkori_ai.Prelude.{
  ◌≡◌, refl, Bool, true, Option, none, some, List, [], ◌∷◌, find, All, arith, if◌then◌else◌,
}
use kkori_ai.Worker.Report.{Report}
use kkori_ai.Worker.Repository.{update}

-- One row under a statement.
abbrev pub set_row : (Report → Bool) → (Report → Report) → Report → Report
set_row p set r = if p r then set r else r

pub All-update {κ} :
    (P : Report → Type κ) (p : Report → Bool) (set : Report → Report)
    → ((r : Report) → p r ≡ true → P r → P (set r))
    → (rs : List Report) → All P rs
    → All P (update p set rs)
All-update P p set keep [] h = h
All-update P p set keep (r ∷ rs) h = ground (arith, keep r, All-update P p set keep rs h.1, h.0)

abbrev pub map_some : (Report → Report) → Option Report → Option Report
map_some f none = none
map_some f (some r) = some (f r)

-- A search by columns that the statement leaves alone.
pub find-update :
    (key : Report → Bool) (p : Report → Bool) (set : Report → Report)
    → ((r : Report) → key (set r) ≡ key r)
    → (rs : List Report) → find key (update p set rs) ≡ map_some (set_row p set) (find key rs)
find-update key p set same [] = refl
find-update key p set same (r ∷ rs) = ground (arith, same r, find-update key p set same rs)
