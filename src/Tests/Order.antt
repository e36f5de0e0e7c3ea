-- ===== src/Tests/Order.antt =====
-- Reorderings at a concrete input.
use fluxlite.Common.{◌≡◌, ◌≢◌, ◌⊎◌, List, [], ◌∷◌, ok}
use fluxlite.Order.{Row, reorder}
use fluxlite.Order.Positions.{Reordered, reorder-Reordered}

abbrev rows : List Row
rows = record { id = 4; sort_order = 0 } ∷ record { id = 9; sort_order = 0 } ∷ []

reorder-Reordered_example :
    ((reorder (9 ∷ 4 ∷ []) rows).0 ≡ ok tt
      × Reordered (9 ∷ 4 ∷ []) rows (reorder (9 ∷ 4 ∷ []) rows).1)
    ⊎ (((reorder (9 ∷ 4 ∷ []) rows).0 ≢ ok tt) × ((reorder (9 ∷ 4 ∷ []) rows).1 ≡ rows))
reorder-Reordered_example = reorder-Reordered (9 ∷ 4 ∷ []) rows
