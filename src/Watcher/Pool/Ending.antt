-- ===== src/Watcher/Pool/Ending.antt =====
-- The call returns: its steps run out, and until it returns there is always one to take.
use fluxlite.Common.{
  ℕ, ◌+◌, ◌*◌, ◌≤◌, ◌<◌, ◌≡◌, ◌≢◌, ◌⊎◌, refl, ap, subst, ◌++◌, All, All-append, length,
  length-append, Bool, true, false, List, [], ◌∷◌, inl, inr, arith,
}
use fluxlite.Watcher.Pool.{
  Phase, looping, waiting, returned, Pool, start, has_slot, begin, free, finish, all_done, Step,
  begin_next, see_cancelled, end_loop, free_slot, end_item, return_now, cancel, Reach, here, next,
}
use fluxlite.Watcher.Pool.Bounds.{length_middle}

abbrev phase_left : Phase → ℕ
phase_left looping = 2
phase_left waiting = 1
phase_left returned = 0

abbrev cancel_left : Bool → ℕ
cancel_left true = 0
cancel_left false = 1

module _ {A : Type 0} where
  -- The steps that can still come: three for an item, two for the caller, one for the context.
  abbrev left : Pool A → ℕ
  left s =
      3 * length s.pending
      + 2 * length s.running
      + length s.leaving
      + phase_left s.phase
      + cancel_left s.cancelled

  Step-left : {Ends : A → Type 0} {limit : ℕ} {s t : Pool A} → Step Ends limit s t → left t < left s
  unfolding begin free finish
  Step-left {s = s} (begin_next x rest l e room) =
      omega (arith, ap length e, length-append s.running (x ∷ []))
  Step-left {s = s} (see_cancelled x rest l e c) = rw l (omega arith)
  Step-left {s = s} (end_loop l e) = rw l (omega arith)
  Step-left {s = s} (free_slot before x after e end) =
      omega (arith, ap length e, length_middle before x after)
  Step-left {s = s} (end_item before x after e) =
      omega (arith, ap length e, length_middle before x after)
  Step-left {s = s} (return_now w d) = rw w (omega arith)
  Step-left {s = s} (cancel c) = rw c (omega arith)

  Reach-left :
      {Ends : A → Type 0} {limit : ℕ} {items : List A} {n : ℕ} {s : Pool A}
      → Reach Ends limit items n s
      → n + left s ≤ 3 * length items + 3
  unfolding start
  Reach-left here = omega arith
  Reach-left (next r st) = omega (arith, Reach-left r, Step-left st)

  -- A step of the call itself, its goroutines included, and not of the context.
  abbrev pub IsOwn : {Ends : A → Type 0} {limit : ℕ} {s t : Pool A} → Step Ends limit s t → Type 0
  IsOwn (begin_next x rest l e room) = Unit
  IsOwn (see_cancelled x rest l e c) = Unit
  IsOwn (end_loop l e) = Unit
  IsOwn (free_slot before x after e end) = Unit
  IsOwn (end_item before x after e) = Unit
  IsOwn (return_now w d) = Unit
  IsOwn (cancel c) = ⊥

  CanGo : (A → Type 0) → ℕ → Pool A → Type 0
  CanGo Ends limit s = (t : Pool A) × (st : Step Ends limit s t) × IsOwn st

  All-middle :
      (P : A → Type 0) (xs : List A) (x : A) (ys : List A) → All P (xs ++ x ∷ ys) → All P (xs ++ ys)
  All-middle P [] x ys (p, a) = a
  All-middle P (z ∷ xs) x ys (p, a) = (p, All-middle P xs x ys a)

  -- What is running or still to run are items of the call.
  Step-Ends :
      {Ends : A → Type 0} {limit : ℕ} {s t : Pool A}
      → Step Ends limit s t
      → All Ends s.pending × All Ends s.running
      → All Ends t.pending × All Ends t.running
  unfolding begin free finish
  Step-Ends {Ends} {s = s} (begin_next x rest l e room) (a, b) =
      let (p, q) : Ends x × All Ends rest = subst (All Ends) e a in
      (q, All-append Ends s.running (x ∷ []) b (p, tt))
  Step-Ends (see_cancelled x rest l e c) h = h
  Step-Ends (end_loop l e) h = h
  Step-Ends {Ends} (free_slot before x after e end) (a, b) =
      (a, All-middle Ends before x after (subst (All Ends) e b))
  Step-Ends (end_item before x after e) h = h
  Step-Ends (return_now w d) h = h
  Step-Ends (cancel c) h = h

  Reach-Ends :
      {Ends : A → Type 0} {limit : ℕ} {items : List A} {n : ℕ} {s : Pool A}
      → All Ends items
      → Reach Ends limit items n s
      → All Ends s.pending × All Ends s.running
  unfolding start
  Reach-Ends a here = (a, tt)
  Reach-Ends a (next r st) = Step-Ends st (Reach-Ends a r)

  go_on :
      (Ends : A → Type 0) (limit : ℕ) (s : Pool A) (phase : Phase)
      (pending running leaving : List A)
      → 0 < limit
      → s.phase ≡ phase
      → s.pending ≡ pending
      → s.running ≡ running
      → s.leaving ≡ leaving
      → phase ≢ returned
      → All Ends running
      → CanGo Ends limit s
  unfolding CanGo has_slot all_done
  go_on Ends limit s phase pending (x ∷ running) leaving h p q r l n (end, a) =
      (_, free_slot [] x running r end, tt)
  go_on Ends limit s phase pending [] (x ∷ leaving) h p q r l n a = (_, end_item [] x leaving l, tt)
  go_on Ends limit s looping [] [] [] h p q r l n a = (_, end_loop p q, tt)
  go_on Ends limit s looping (x ∷ pending) [] [] h p q r l n a =
      (_, begin_next x pending p q (ground (arith, ap length r)), tt)
  go_on Ends limit s waiting pending [] [] h p q r l n a = (_, return_now p (rw (r, l) refl), tt)
  go_on Ends limit s returned pending [] [] h p q r l n a = absurd (n refl)

  -- With a slot at all, and items on each of which the work ends, a call over `items` returns: every
  -- order of its steps ends after at most three for each item and three more, and as long as the call
  -- has not returned, it can take a step of its own.
  pub call-returns :
      {Ends : A → Type 0} {limit : ℕ} {items : List A} {n : ℕ} {s : Pool A}
      → 0 < limit
      → All Ends items
      → Reach Ends limit items n s
      → (n ≤ 3 * length items + 3)
        × ((s.phase ≡ returned) ⊎ ((t : Pool A) × (st : Step Ends limit s t) × IsOwn st))
  unfolding CanGo
  call-returns {Ends} {limit} {s = s} h a r = (omega (arith, Reach-left r), ended s.phase refl)
    where
      ended : (phase : Phase) → s.phase ≡ phase → (s.phase ≡ returned) ⊎ CanGo Ends limit s
      ended returned e = inl e
      ended looping e = inr (
          go_on Ends limit s looping s.pending s.running s.leaving h e refl refl refl (λ k. cc)
            (Reach-Ends a r).1)
      ended waiting e = inr (
          go_on Ends limit s waiting s.pending s.running s.leaving h e refl refl refl (λ k. cc)
            (Reach-Ends a r).1)
