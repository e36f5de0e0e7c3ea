-- ===== src/Watcher/Pool/Bounds.antt =====
-- At most `limit` items run at once.
use fluxlite.Common.{
  ℕ, suc, ◌+◌, ◌≤◌, ◌≡◌, ap, ◌∙◌, length, length-append, List, [], ◌∷◌, ◌++◌, inl, inr, Bool,
  Bool-cases, arith,
}
use fluxlite.Common.Tables.{count_where}
use fluxlite.Watcher.Pool.{
  Pool, start, has_slot, begin, free, finish, Step, begin_next, see_cancelled, end_loop, free_slot,
  end_item, return_now, cancel, Reach, here, next,
}

module _ {A : Type 0} where
  pub count-append :
      (p : A → Bool) (xs ys : List A)
      → count_where p (xs ++ ys) ≡ count_where p xs + count_where p ys
  count-append p [] ys = omega arith
  count-append p (x ∷ xs) ys = elim (Bool-cases (p x)) [
    | inl e ↦ rw e (omega (arith, count-append p xs ys))
    | inr e ↦ rw e (count-append p xs ys)
  ]

  pub count_middle :
      (p : A → Bool) (xs : List A) (x : A) (ys : List A)
      → count_where p (xs ++ x ∷ ys) ≡ count_where p (x ∷ []) + count_where p (xs ++ ys)
  count_middle p xs x ys = elim (Bool-cases (p x)) [
    | inl e ↦ rw (count-append p xs (x ∷ ys), count-append p xs ys) (rw e (omega arith))
    | inr e ↦ rw (count-append p xs (x ∷ ys), count-append p xs ys) (rw e (omega arith))
  ]

  pub length_middle :
      (xs : List A) (x : A) (ys : List A) → length (xs ++ x ∷ ys) ≡ suc (length (xs ++ ys))
  length_middle xs x ys = rw (length-append xs (x ∷ ys), length-append xs ys) (omega arith)

  Step-bounded :
      {Ends : A → Type 0} {limit : ℕ} {s t : Pool A}
      → Step Ends limit s t
      → length s.running ≤ limit
      → length t.running ≤ limit
  unfolding has_slot begin free finish
  Step-bounded {s = s} (begin_next x rest l e room) h =
      rw (length-append s.running (x ∷ [])) (ground arith)
  Step-bounded (see_cancelled x rest l e c) h = h
  Step-bounded (end_loop l e) h = h
  Step-bounded (free_slot before x after e end) h =
      let shorter = ap length e ∙ length_middle before x after in omega (arith, shorter)
  Step-bounded (end_item before x after e) h = h
  Step-bounded (return_now w d) h = h
  Step-bounded (cancel c) h = h

  -- However the goroutines are scheduled and whenever the context ends, never more than `limit` items
  -- run at once.
  pub running-bounded :
      {Ends : A → Type 0} {limit : ℕ} {items : List A} {n : ℕ} {s : Pool A}
      → Reach Ends limit items n s
      → length s.running ≤ limit
  unfolding start
  running-bounded here = omega arith
  running-bounded (next r st) = Step-bounded st (running-bounded r)
