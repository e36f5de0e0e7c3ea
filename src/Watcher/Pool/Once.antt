-- ===== src/Watcher/Pool/Once.antt =====
-- No item is lost, none is run twice, and none is still running when the call returns.
use mathlib.Core.List.{append_assoc, append-nil}
use fluxlite.Common.{
  ℕ, ◌+◌, ◌≡◌, ◌≢◌, refl, sym, ap, ◌∙◌, Bool, true, false, List, [], ◌∷◌, ◌++◌, arith,
}
use fluxlite.Common.Tables.{count_where}
use fluxlite.Watcher.Pool.{
  looping, returned, Pool, start, begin, free, finish, all_done, Step, begin_next, see_cancelled,
  end_loop, free_slot, end_item, return_now, cancel, Reach, here, next,
}
use fluxlite.Watcher.Pool.Bounds.{count-append, count_middle}

module _ {A : Type 0} where
  abbrev Emptied : Pool A → Type 0
  Emptied s = (s.running ≡ []) × (s.leaving ≡ [])

  -- `begun` are the items whose goroutine was started, in order.
  record IsKept (items : List A) (s : Pool A) : Type 0 where
    begun : List A
    split : begun ++ s.pending ≡ items
    counts :
        (p : A → Bool)
        → count_where p s.running + count_where p s.leaving + count_where p s.finished
          ≡ count_where p begun
    ended : s.phase ≢ looping → s.cancelled ≡ false → s.pending ≡ []
    emptied : s.phase ≡ returned → Emptied s

  middle-ne-nil : (xs : List A) (x : A) (ys : List A) → xs ++ x ∷ ys ≢ []
  middle-ne-nil [] x ys e = cc
  middle-ne-nil (y ∷ xs) x ys e = cc

  both_nil : (s : Pool A) → all_done s ≡ true → Emptied s
  unfolding all_done
  both_nil s h = nil s.running s.leaving h
    where
      nil :
          (xs ys : List A)
          → (all_done (record s { running = xs; leaving = ys })) ≡ true
          → (xs ≡ []) × (ys ≡ [])
      nil [] [] h = (refl, refl)
      nil [] (y ∷ ys) h = cc
      nil (x ∷ xs) ys h = cc

  Step-IsKept :
      {Ends : A → Type 0} {limit : ℕ} {items : List A} {s t : Pool A}
      → Step Ends limit s t
      → IsKept items s
      → IsKept items t
  unfolding begin free finish
  Step-IsKept {s = s} (begin_next x rest l e room) k = record {
    begun = k.begun ++ x ∷ [];
    split = append_assoc k.begun (x ∷ []) rest ∙ ap (λ r. k.begun ++ r) (sym e) ∙ k.split;
    counts = λ p.
        omega
          (arith, k.counts p, count-append p s.running (x ∷ []), count-append p k.begun (x ∷ []));
    ended = λ n c. absurd (n l);
    emptied = λ r. cc;
  }
  Step-IsKept {s = s} (see_cancelled x rest l e c) k = record {
    begun = k.begun;
    split = k.split;
    counts = k.counts;
    ended = λ n f. cc;
    emptied = λ r. cc;
  }
  Step-IsKept {s = s} (end_loop l e) k = record {
    begun = k.begun;
    split = k.split;
    counts = k.counts;
    ended = λ n f. e;
    emptied = λ r. cc;
  }
  Step-IsKept {s = s} (free_slot before x after e end) k = record {
    begun = k.begun;
    split = k.split;
    counts = λ p. omega (
      arith,
      k.counts p,
      ap (count_where p) e,
      count_middle p before x after,
      count-append p (x ∷ []) s.leaving,
    );
    ended = k.ended;
    emptied = λ r. absurd (middle-ne-nil before x after (sym e ∙ (k.emptied r).0));
  }
  Step-IsKept {s = s} (end_item before x after e) k = record {
    begun = k.begun;
    split = k.split;
    counts = λ p. omega (
      arith,
      k.counts p,
      ap (count_where p) e,
      count_middle p before x after,
      count-append p (x ∷ []) s.finished,
    );
    ended = k.ended;
    emptied = λ r. absurd (middle-ne-nil before x after (sym e ∙ (k.emptied r).1));
  }
  Step-IsKept {s = s} (return_now w d) k = record {
    begun = k.begun;
    split = k.split;
    counts = k.counts;
    ended = λ n f. k.ended (λ l. cc) f;
    emptied = λ r. both_nil s d;
  }
  Step-IsKept {s = s} (cancel c) k = record {
    begun = k.begun;
    split = k.split;
    counts = k.counts;
    ended = λ n f. cc;
    emptied = k.emptied;
  }

  Reach-IsKept :
      {Ends : A → Type 0} {limit : ℕ} {items : List A} {n : ℕ} {s : Pool A}
      → Reach Ends limit items n s
      → IsKept items s
  unfolding start
  Reach-IsKept here = record {
    begun = [];
    split = refl;
    counts = λ p. omega arith;
    ended = λ n f. absurd (n refl);
    emptied = λ r. cc;
  }
  Reach-IsKept (next r st) = Step-IsKept st (Reach-IsKept r)

  -- When the call has returned, no goroutine is left. The items that were started are a first part of
  -- the list, each of them was run to its end exactly once, and unless the context has ended that part
  -- is the whole list.
  pub returned-Complete :
      {Ends : A → Type 0} {limit : ℕ} {items : List A} {n : ℕ} {s : Pool A}
      → Reach Ends limit items n s
      → s.phase ≡ returned
      → (begun : List A) × (begun ++ s.pending ≡ items)
        × (s.running ≡ [])
        × (s.leaving ≡ [])
        × ((p : A → Bool) → count_where p s.finished ≡ count_where p begun)
        × (s.cancelled ≡ false → begun ≡ items)
  returned-Complete {items = items} {s = s} r e = (
    k.begun,
    k.split,
    (k.emptied e).0,
    (k.emptied e).1,
    λ p.
        omega (
          arith,
          k.counts p,
          ap (count_where p) (k.emptied e).0,
          ap (count_where p) (k.emptied e).1,
        ),
    λ f. sym (append-nil k.begun) ∙ ap (λ t. k.begun ++ t) (sym (k.ended (λ l. cc) f)) ∙ k.split,
  )
    where
      k : IsKept items s
      k = Reach-IsKept r
