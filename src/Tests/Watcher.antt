-- ===== src/Tests/Watcher.antt =====
-- Rounds of the watcher, and samples of a node, at concrete inputs.
use fluxlite.Common.{
  ℕ, ◌+◌, ◌*◌, ◌≤◌, ◌≡◌, ◌⊎◌, refl, length, Bool, false, List, [], ◌∷◌, ◌++◌, none, codes, arith,
}
use fluxlite.Common.Tables.{count_where}
use fluxlite.Reachability.{Fleet, unreached, unanswered, answered}
use fluxlite.Reachability.Misses.{Sample, Standing, after, standing, Agrees, after-Agrees}
use fluxlite.Tests.Store.{no_tables, tokyo}
use fluxlite.Watcher.Pool.{
  Pool, start, has_slot, all_done, begin, free, finish, returned, Step, begin_next, free_slot,
  end_item, end_loop, return_now, Reach, here, next,
}
use fluxlite.Watcher.Pool.Bounds.{running-bounded}
use fluxlite.Watcher.Pool.Ending.{IsOwn, call-returns}
use fluxlite.Watcher.Pool.Once.{returned-Complete}

abbrev items : List ℕ
items = 7 ∷ 9 ∷ []

-- The work ends on every item.
abbrev Works : ℕ → Type 0
Works x = Unit

-- With one slot: the first item runs, and the second waits for it.
abbrev one_running : Pool ℕ
one_running = begin 7 (9 ∷ []) (start items)

first_step : Reach Works 1 items 1 one_running
unfolding start has_slot
first_step = next here (begin_next 7 (9 ∷ []) refl refl refl)

abbrev one_item : List ℕ
one_item = 7 ∷ []

abbrev after_run : Pool ℕ
after_run = finish [] 7 [] (free [] 7 [] (begin 7 [] (start one_item)))

abbrev back : Pool ℕ
back = record after_run { phase = returned }

all_steps : Reach Works 1 one_item 5 back
unfolding start has_slot begin free finish all_done
all_steps =
    next
      (next
        (next (next (next here (begin_next 7 [] refl refl refl)) (free_slot [] 7 [] refl tt))
          (end_item [] 7 [] refl))
        (end_loop refl refl))
      (return_now refl refl)

running-bounded_example : length one_running.running ≤ 1
running-bounded_example = running-bounded first_step

returned-Complete_example :
    (begun : List ℕ) × (begun ++ back.pending ≡ one_item)
    × (back.running ≡ [])
    × (back.leaving ≡ [])
    × ((p : ℕ → Bool) → count_where p back.finished ≡ count_where p begun)
    × (back.cancelled ≡ false → begun ≡ one_item)
returned-Complete_example = returned-Complete all_steps refl

call-returns_example :
    (1 ≤ 3 * length items + 3)
    × ((one_running.phase ≡ returned)
        ⊎ ((t : Pool ℕ) × (st : Step Works 1 one_running t) × IsOwn st))
call-returns_example = call-returns (omega arith) (tt, (tt, tt)) first_step

-- Three failures of one node, with an answer of another between them.
abbrev samples : List (Sample ℕ)
samples =
    record { at = 10; node_id = 1; met = unreached }
    ∷ record { at = 11; node_id = 2; met = answered 5 }
    ∷ record { at = 20; node_id = 1; met = unanswered }
    ∷ record { at = 30; node_id = 1; met = unreached }
    ∷ []

abbrev fleet : Fleet ℕ
fleet = record {
  tables = record no_tables {
    nodes = record tokyo { id = 1 } ∷ record tokyo { id = 2; name = codes "osa" } ∷ [];
  };
  snapshots = [];
  misses = λ id. 0;
}

abbrev fresh : Standing
fresh = record { failures = 0; seen = none }

fleet-Agrees : Agrees 1 fleet fresh
fleet-Agrees = record {
  node = record tokyo { id = 1 };
  found = refl;
  counted = refl;
  shown = refl;
  noted = refl;
}

after-Agrees_example : Agrees 1 (after samples fleet) (standing 1 samples fresh)
after-Agrees_example = after-Agrees 1 samples fleet fresh fleet-Agrees

three_failures : standing 1 samples fresh ≡ record { failures = 3; seen = none }
unfolding standing
three_failures = refl
