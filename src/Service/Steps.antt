-- ===== src/Service/Steps.antt =====
-- The steps of an operation that only read, and the check of the entry hop.
use fluxlite.Common.{
  ℕ, ◌≡◌, inl, inr, ◌⊎◌, Text, Bool, not, ◌||◌, List, [], ◌∷◌, Option, Bool-cases, Option-cases,
  All, Result, ok, err, Result-cases, sym, true, false, arith, refl,
}
use fluxlite.Common.Exec.{◌>>=◌}
use fluxlite.Model.{Node, RouteHop, ipv6_reachable}
use fluxlite.Store.{Store}
use fluxlite.Service.{
  Error, ipv6_unprobed, ipv6_unavailable, World, Action, looked_up, check_entry_ipv6,
  allow_listen_ipv6,
}
use fluxlite.Service.Routes.{is_empty}
use fluxlite.Service.Placement.{IsFree}

pub looked_up_step :
    {A B E : Type 0} (P : Result Error B × World → Type 0) (w : World) (f : E → Error)
    (q : Store → Result E A) (k : A → Action B)
    → ((e : E) → q w.tables ≡ err e → P (err (f e), w))
    → ((a : A) → q w.tables ≡ ok a → P (k a w))
    → P ((looked_up f q >>= k) w)
looked_up_step P w f q k bad good = elim (Result-cases (q w.tables)) [
  | inl (a, e) ↦ rw e (good a e)
  | inr (e', e) ↦ rw e (bad e' e)
]

-- What the check of a known node may answer.
abbrev pub IsFamily : Error → Type 0
IsFamily e = (e ≡ ipv6_unprobed) ⊎ (e ≡ ipv6_unavailable)

err_inj : {a b : Error} → ◌≡◌ {A = Result Error (Unit {0})} (err a) (err b) → a ≡ b
err_inj e = cc

allow-IsFamily :
    (n : Node) (was want : Bool) (e : Error) → allow_listen_ipv6 n was want ≡ err e → IsFamily e
unfolding allow_listen_ipv6
allow-IsFamily n was want e h = elim (Bool-cases (not want || was)) [
  | inl a ↦ cc (rw (allow_listen_ipv6, a) at h)
  | inr a ↦ elim (Bool-cases (ipv6_reachable n)) [
    | inl b ↦ cc (rw (allow_listen_ipv6, a, b) at h)
    | inr b ↦ elim (Option-cases n.ipv6_capable) [
      | inl c ↦ inl (sym (err_inj (rw (allow_listen_ipv6, a, b, c) at h)))
      | inr (x, c) ↦ inr (sym (err_inj (rw (allow_listen_ipv6, a, b, c) at h)))
    ]
  ]
]

pub entry_only :
    (run : Node → Option Text) (exclude : Option ℕ) (s : Store) (hops : List RouteHop)
    (was want : Bool) (e : Error)
    → All (IsFree run exclude s) hops
    → check_entry_ipv6 hops was want s ≡ err e
    → IsFamily e
unfolding check_entry_ipv6
entry_only run exclude s [] was want e a h = cc
entry_only run exclude s (k ∷ hops) was want e (f, a) h = elim (Bool-cases (not want || was)) [
  | inl e' ↦ cc (rw (check_entry_ipv6, e') at h)
  | inr e' ↦ allow-IsFamily f.node was want e (rw (check_entry_ipv6, e', f.found) at h)
]

-- Only a hop that is newly asked to listen on IPv6 is checked.
pub check-asked :
    (s : Store) (hops : List RouteHop) (was want : Bool) (e : Error)
    → check_entry_ipv6 hops was want s ≡ err e
    → (want ≡ true) × (was ≡ false)
unfolding check_entry_ipv6
check-asked s [] was want e h = cc h
check-asked s (k ∷ hops) was want e h = elim (Bool-cases (not want || was)) [
  | inl e' ↦ cc (rw (check_entry_ipv6, e') at h)
  | inr e' ↦ (ground (arith, e'), ground (arith, e'))
]

pub no_hops_lem : (ids : List ℕ) → not (is_empty ids) ≡ false → ids ≡ []
no_hops_lem [] h = refl
no_hops_lem (x ∷ ids) h = cc h
