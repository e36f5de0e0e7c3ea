-- ===== src/Order.antt =====
-- internal/store/order.go: the display order of the nodes and of the routes. An id that is not positive
-- stands as 0; of a table's row only the columns id and sort_order are read or written here.
pub mod Positions
use fluxlite.Common.{
  ℕ, zero, suc, Bool, true, false, not, ◌&&◌, ◌||◌, List, [], ◌∷◌, Option, none, some, length, ◌==◌,
  if◌then◌else◌, Result, ok, err,
}
use fluxlite.Common.Exec.{Exec}
use fluxlite.Common.Tables.{update_where}

pub data Error : Type 0 where
  invalid_order conflict : Error

pub record Row : Type 0 where
  pub id : ℕ
  pub sort_order : ℕ

-- map[int64]bool
abbrev pub Seen : Type 0
Seen = ℕ → Bool

abbrev pub mark : ℕ → Seen → Seen
mark id seen j = if j == id then true else seen j

-- The loop over the listed ids, `none` where it returns ErrInvalidOrder.
check_ids : Seen → List ℕ → Option Seen
check_ids seen [] = some seen
check_ids seen (id ∷ ids) =
    let rest = check_ids (mark id seen) ids in if id == 0 || seen id then none else rest

-- The scan of the table's ids.
abbrev pub all_seen : Seen → List Row → Bool
all_seen seen [] = true
all_seen seen (r ∷ rows) = seen r.id && all_seen seen rows

-- The loop of UPDATE statements.
save : ℕ → List ℕ → List Row → List Row
save position [] rows = rows
save position (id ∷ ids) rows =
    save (suc position) ids
      (update_where (λ r. r.id == id) (λ r. record r { sort_order = position }) rows)

abbrev reorder_seen : List ℕ → List Row → Option Seen → Result Error (Unit {0}) × List Row
reorder_seen ids rows none = (err invalid_order, rows)
reorder_seen ids rows (some seen) =
    if not (all_seen seen rows) || not (length rows == length ids)
    then (err conflict, rows)
    else (ok tt, save 0 ids rows)

-- `reorder`
unfoldable pub reorder : List ℕ → Exec (List Row) Error (Unit {0})
unfolding check_ids save
reorder ids rows = reorder_seen ids rows (check_ids (λ id. false) ids)
