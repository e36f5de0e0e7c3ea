-- ===== src/Enroll/Once.antt =====
-- A token is spent once: over any sequence of calls, only one of them can mark it as used.
use fluxlite.Common.{
  ℕ, suc, ◌≤◌, ◌≡◌, refl, Text, text_eq, text_eq_sound, Bool, true, false, ◌&&◌, List, [], ◌∷◌,
  if◌then◌else◌, Bool-cases, inl, inr, Result, ok, err, arith, All, All-append,
}
use fluxlite.Common.Tables.{update_where, exists_where, All-update, All-delete}
use fluxlite.Enroll.{
  Error, EnrollToken, Tokens, is_token, is_unused, spend, create_enroll_token,
  mark_enroll_token_used, purge_expired_enroll_tokens,
}

-- The calls that change the table, each at its time.
pub data Call : Type 0 where
  create : ℕ → EnrollToken → Call
  mark : ℕ → Text → ℕ → Call
  purge : ℕ → Call

pub after : Call → Tokens → Tokens
after (create now t) rows = (create_enroll_token now t rows).1
after (mark now token node) rows = (mark_enroll_token_used now token node rows).1
after (purge now) rows = purge_expired_enroll_tokens now rows

abbrev is_ok : Result Error (Unit {0}) → Bool
is_ok (ok _) = true
is_ok (err _) = false

-- The calls that spend a token, one for each node enrolled with it.
abbrev pub spends : Text → Call → Tokens → Bool
spends token (create now t) rows = false
spends token (mark now token' node) rows =
    text_eq token' token && is_ok (mark_enroll_token_used now token' node rows).0
spends token (purge now) rows = false

pub times_spent : Text → List Call → Tokens → ℕ
times_spent token [] rows = 0
times_spent token (c ∷ calls) rows =
    let rest = times_spent token calls (after c rows) in
    if spends token c rows then suc rest else rest

-- No call issues the token again.
unfoldable pub NotIssued : Text → Call → Type 0
NotIssued token (create now t) = text_eq t.token token ≡ false
NotIssued token (mark now token' node) = Unit
NotIssued token (purge now) = Unit

Gone : Text → Tokens → Type 0
Gone token = All (λ t. is_unused token t ≡ false)

exists_Gone :
    (token : Text) (rows : Tokens) → Gone token rows → exists_where (is_unused token) rows ≡ false
unfolding Gone
exists_Gone token [] g = refl
exists_Gone token (t ∷ rows) (e, g) = rw e (exists_Gone token rows g)

mark-Gone :
    (now node : ℕ) (token : Text) (rows : Tokens)
    → Gone token (update_where (is_unused token) (spend now node) rows)
unfolding Gone
mark-Gone now node token [] = tt
mark-Gone now node token (t ∷ rows) = elim (Bool-cases (is_unused token t)) [
  | inl e ↦ rw e (ground arith, mark-Gone now node token rows)
  | inr e ↦ rw e (e, mark-Gone now node token rows)
]

after-Gone :
    (token : Text) (c : Call) (rows : Tokens)
    → NotIssued token c
    → Gone token rows
    → Gone token (after c rows)
unfolding Gone after NotIssued create_enroll_token mark_enroll_token_used
    purge_expired_enroll_tokens
after-Gone token (create now t) rows n g =
    elim (Bool-cases (exists_where (is_token t.token) rows)) [
      | inl e ↦ rw (e, after, create_enroll_token) g
      | inr e ↦
          rw (e, after, create_enroll_token)
            (All-append (λ t. is_unused token t ≡ false) rows _ g (ground (arith, n), tt))
    ]
after-Gone token (mark now token' node) rows n g =
    elim (Bool-cases (exists_where (is_unused token') rows)) [
      | inl e ↦
          rw (e, after, mark_enroll_token_used)
            (All-update (λ t. is_unused token t ≡ false) (is_unused token') (spend now node) rows
              (λ t h k. ground arith) g)
      | inr e ↦ rw (e, after, mark_enroll_token_used) g
    ]
after-Gone token (purge now) rows n g = All-delete (λ t. is_unused token t ≡ false) _ rows g

spends-Gone :
    (token : Text) (c : Call) (rows : Tokens) → Gone token rows → spends token c rows ≡ false
unfolding mark_enroll_token_used
spends-Gone token (create now t) rows g = refl
spends-Gone token (mark now token' node) rows g = elim (Bool-cases (text_eq token' token)) [
  | inl e ↦
      let same : token' ≡ token = text_eq_sound token' token e in
      let gone : exists_where (is_unused token') rows ≡ false =
        rw same (exists_Gone token rows g) in
      rw (e, gone) refl
  | inr e ↦ rw e refl
]
spends-Gone token (purge now) rows g = refl

never_again :
    (token : Text) (calls : List Call) (rows : Tokens)
    → All (NotIssued token) calls
    → Gone token rows
    → times_spent token calls rows ≡ 0
unfolding times_spent
never_again token [] rows n g = refl
never_again token (c ∷ calls) rows (n, ns) g =
    rw (spends-Gone token c rows g)
      (never_again token calls (after c rows) ns (after-Gone token c rows n g))

spent-Gone :
    (token : Text) (c : Call) (rows : Tokens)
    → spends token c rows ≡ true
    → Gone token (after c rows)
unfolding after mark_enroll_token_used
spent-Gone token (create now t) rows h = cc h
spent-Gone token (mark now token' node) rows h =
    let same : token' ≡ token = text_eq_sound token' token (ground (arith, h)) in
    let known : exists_where (is_unused token') rows ≡ true = ground (arith, h) in
    rw (known, after, mark_enroll_token_used, same) (mark-Gone now node token rows)
spent-Gone token (purge now) rows h = cc h

-- Whatever is created, spent and purged, in any order and at any time, a token that is not issued again
-- is marked as used at most once.
pub spent_once :
    (token : Text) (calls : List Call) (rows : Tokens)
    → All (NotIssued token) calls
    → times_spent token calls rows ≤ 1
unfolding times_spent
spent_once token [] rows n = omega arith
spent_once token (c ∷ calls) rows (n, ns) = elim (Bool-cases (spends token c rows)) [
  | inl e ↦
      let rest = never_again token calls (after c rows) ns (spent-Gone token c rows e) in
      rw e (omega (arith, rest))
  | inr e ↦ rw e (spent_once token calls (after c rows) ns)
]
