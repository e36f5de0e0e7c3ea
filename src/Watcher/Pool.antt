-- ===== src/Watcher/Pool.antt =====
-- internal/watcher/watcher.go: forEachConcurrently, as the steps of the loop that starts the items, of
-- the goroutines that run them, and of the context that may end.
pub mod Bounds
pub mod Once
pub mod Ending
use fluxlite.Common.{ℕ, suc, ◌<◌, ◌≡◌, length, Bool, true, false, ◌&&◌, List, [], ◌∷◌, ◌++◌, ltb}

-- Where the caller stands: in the loop, at one of the two `wg.Wait`, or back from the call.
pub data Phase : Type 0 where
  looping waiting returned : Phase

-- `running` holds the items whose goroutine has a slot; `leaving` those that have put the slot back and
-- have yet to call `wg.Done`. An item whose goroutine is over is in `finished`.
pub record Pool (A : Type 0) : Type 0 where
  pub phase : Phase
  pub pending : List A
  pub running : List A
  pub leaving : List A
  pub finished : List A
  pub cancelled : Bool

module _ {A : Type 0} where
  unfoldable pub start : List A → Pool A
  start items = record {
    phase = looping;
    pending = items;
    running = [];
    leaving = [];
    finished = [];
    cancelled = false;
  }

  -- The send on `slots` can go ahead: the buffer has room.
  unfoldable pub has_slot : ℕ → Pool A → Bool
  has_slot limit s = ltb (length s.running) limit

  -- `slots <- struct{}{}`, `wg.Add(1)` and the `go` statement, for the next item.
  unfoldable pub begin : A → List A → Pool A → Pool A
  begin x rest s = record s { pending = rest; running = s.running ++ x ∷ [] }

  -- The deferred `<-slots`.
  unfoldable pub free : List A → A → List A → Pool A → Pool A
  free before x after s = record s { running = before ++ after; leaving = x ∷ s.leaving }

  -- The deferred `wg.Done`.
  unfoldable pub finish : List A → A → List A → Pool A → Pool A
  finish before x after s = record s { leaving = before ++ after; finished = x ∷ s.finished }

  abbrev is_nil : List A → Bool
  is_nil [] = true
  is_nil (x ∷ xs) = false

  -- `wg.Wait` can go ahead.
  unfoldable pub all_done : Pool A → Bool
  all_done s = is_nil s.running && is_nil s.leaving

  -- What can happen next, where `Ends` tells the items on which `fn` returns. An item leaves its place
  -- wherever it stands: the goroutines end in any order.
  pub data Step (Ends : A → Type 0) (limit : ℕ) (s : Pool A) : Pool A → Type 0 where
    begin_next :
        (x : A) (rest : List A)
        → s.phase ≡ looping
        → s.pending ≡ x ∷ rest
        → has_slot limit s ≡ true
        → Step Ends limit s (begin x rest s)
    see_cancelled :
        (x : A) (rest : List A)
        → s.phase ≡ looping
        → s.pending ≡ x ∷ rest
        → s.cancelled ≡ true
        → Step Ends limit s (record s { phase = waiting })
    end_loop : s.phase ≡ looping → s.pending ≡ [] → Step Ends limit s (record s { phase = waiting })
    free_slot :
        (before : List A) (x : A) (after : List A)
        → s.running ≡ before ++ x ∷ after
        → Ends x
        → Step Ends limit s (free before x after s)
    end_item :
        (before : List A) (x : A) (after : List A)
        → s.leaving ≡ before ++ x ∷ after
        → Step Ends limit s (finish before x after s)
    return_now :
        s.phase ≡ waiting → all_done s ≡ true → Step Ends limit s (record s { phase = returned })
    cancel : s.cancelled ≡ false → Step Ends limit s (record s { cancelled = true })

  -- The states that a call over `items` can reach, with the number of steps.
  pub data Reach (Ends : A → Type 0) (limit : ℕ) (items : List A) : ℕ → Pool A → Type 0 where
    here : Reach Ends limit items 0 (start items)
    next :
        {n : ℕ} {s t : Pool A}
        → Reach Ends limit items n s
        → Step Ends limit s t
        → Reach Ends limit items (suc n) t
