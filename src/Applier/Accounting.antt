-- ===== src/Applier/Accounting.antt =====
-- internal/applier/accounting.go: the counters of a hop. What the script prints comes from the machine.
use fluxlite.Common.{
  ℕ, Text, codes, text_eq, trim_space, Bool, List, [], ◌∷◌, ◌++◌, none, some, if◌then◌else◌, Result,
  ok, err,
}
use fluxlite.Common.Exec.{pure, raise}
use fluxlite.Ports.{split, newline, strip_prefix}
use fluxlite.Applier.Remote.{
  install_counters, drop_counters, Output, Remote, Remotely, wrap, ◌>>=◌, run,
}

-- `AcctState`
pub data AcctState : Type 0 where
  unchanged rebuilt unavailable : AcctState

abbrev acct_bin4 : Text
acct_bin4 = codes "iptables"

abbrev acct_bin6 : Text
acct_bin6 = codes "ip6tables"

last_of : Text → List Text → Text
last_of t [] = t
last_of t (u ∷ us) = last_of u us

abbrev last_text : List Text → Text
last_text [] = []
last_text (t ∷ ts) = last_of t ts

-- `lastLine`
unfoldable pub last_line : Text → Text
unfolding last_of split
last_line s = trim_space (last_text (split newline (trim_space s)))

-- The switch of `ensureAcctFamily`; the message for another reply leaves out its quotes.
unfoldable pub read_verdict : Text → Text → Result Text AcctState
unfolding strip_prefix
read_verdict bin verdict =
    if text_eq verdict (codes "ok-unchanged")
    then ok unchanged
    else if text_eq verdict (codes "ok-rebuilt")
    then ok rebuilt
    else if text_eq verdict (codes "no-iptables")
    then err (bin ++ codes " is not installed on this node")
    else elim (strip_prefix (codes "failed:") verdict) [
      | none ↦ err (bin ++ codes ": unexpected reply " ++ verdict)
      | some why ↦ err (bin ++ codes ": " ++ why)
    ]

abbrev pub lifted : Result Text AcctState → Remotely AcctState
lifted (ok a) = pure a
lifted (err e) = raise e

module _ (r : Remote) where
  -- `ensureAcctFamily`
  unfoldable pub ensure_acct_family : ℕ → Text → ℕ → Text → Remotely AcctState
  unfolding last_line read_verdict
  ensure_acct_family id slug listen bin = do
    o ←
        wrap (codes "install " ++ bin ++ codes " byte counters: ")
          (run r id (install_counters slug listen bin))
    lifted (read_verdict bin (last_line o.stdout))

  -- `ensureAccounting`
  unfoldable pub ensure_accounting : ℕ → Text → ℕ → Bool → Remotely AcctState
  unfolding ensure_acct_family
  ensure_accounting id slug listen ipv6 =
      ensure_acct_family id slug listen (if ipv6 then acct_bin6 else acct_bin4)

  abbrev remove_family : ℕ → Text → Text → Remotely Output
  remove_family id slug bin =
      wrap (codes "remove " ++ bin ++ codes " byte counters: ") (run r id (drop_counters slug bin))

  -- `removeAccounting`
  unfoldable pub remove_accounting : ℕ → Text → Remotely (Unit {0})
  remove_accounting id slug = do
    _ ← remove_family id slug acct_bin4
    _ ← remove_family id slug acct_bin6
    pure tt
