-- ===== src/Applier/Remote.antt =====
-- internal/sshx/sshx.go as internal/applier uses it: a session on a machine, and the calls made of it.
-- What a machine answers is a parameter, which may depend on all that was asked before.
use fluxlite.Common.{ℕ, Text, codes, List, [], ◌∷◌, ◌++◌, ◌==◌, if◌then◌else◌, Result, ok, err}
use fluxlite.Common.Decimal.{itoa}
use fluxlite.Common.Exec.{Exec, pure, raise}

-- The commands: by their text, or by name where it is a script of the applier.
pub data Command : Type 0 where
  shell : Text → Command
  install_counters : Text → ℕ → Text → Command
  drop_counters : Text → Text → Command
  list_relays : Command

-- `sshx.Result`, without the error output, which nothing reads.
pub record Output : Type 0 where
  pub stdout : Text
  pub exit_code : ℕ

-- A call, with what came back. Machines are named by their ids.
pub data Exchange : Type 0 where
  dialled : ℕ → Result Text (Unit {0}) → Exchange
  ran : ℕ → Command → Result Text Output → Exchange
  wrote : ℕ → Text → Text → Text → Result Text (Unit {0}) → Exchange
  fetched : Text → Result Text Text → Exchange
  paused : Result Text (Unit {0}) → Exchange

-- All the calls, the latest first.
abbrev pub History : Type 0
History = List Exchange

pub record Remote : Type 0 where
  pub dial : History → ℕ → Result Text (Unit {0})
  pub run : History → ℕ → Command → Result Text Output
  pub write : History → ℕ → Text → Text → Text → Result Text (Unit {0})
  pub binary : History → Text → Result Text Text
  pub pause : History → Result Text (Unit {0})
  pub version : Text

abbrev pub Remotely : Type 0 → Type 0
Remotely A = Exec History Text A

abbrev pub after :
    {A B : Type 0} → (A → Remotely B) → Result Text A × History → Result Text B × History
after k (ok a, h) = k a h
after k (err e, h) = (err e, h)

-- A call after another, unless that one failed.
infixl 5 ◌>>=◌ ◌>>◌
unfoldable pub ◌>>=◌ : {A B : Type 0} → Remotely A → (A → Remotely B) → Remotely B
◌>>=◌ m k h = after k (m h)

abbrev pub ◌>>◌ : {A B : Type 0} → Remotely A → Remotely B → Remotely B
m >> k = m >>= λ _. k

abbrev pub wrapped : {A : Type 0} → Text → Result Text A × History → Result Text A × History
wrapped prefix (ok a, h) = (ok a, h)
wrapped prefix (err e, h) = (err (prefix ++ e), h)

-- `fmt.Errorf("…: %w", err)`
unfoldable pub wrap : {A : Type 0} → Text → Remotely A → Remotely A
wrap prefix m h = wrapped prefix (m h)

-- `shellQuote`
quote_from : Text → Text
quote_from [] = codes "'"
quote_from (c ∷ s) = if c == b'\'' then codes "'\\''" ++ quote_from s else c ∷ quote_from s

unfoldable pub shell_quote : Text → Text
unfolding quote_from
shell_quote s = codes "'" ++ quote_from s

module _ (r : Remote) where
  -- `Pool.Get`
  unfoldable pub dial : ℕ → Remotely (Unit {0})
  dial id h = let a = r.dial h id in (a, dialled id a ∷ h)

  -- `sshx.Run`
  unfoldable pub run : ℕ → Command → Remotely Output
  run id c h = let a = r.run h id c in (a, ran id c a ∷ h)

  abbrev checked : Output → Remotely Text
  checked o =
      if o.exit_code == 0
      then pure o.stdout
      else raise (codes "remote command exited " ++ itoa o.exit_code)

  -- `sshx.RunCheck`
  unfoldable pub run_check : ℕ → Command → Remotely Text
  unfolding run
  run_check id c = do o ← run id c; checked o

  -- `sshx.WriteFile`
  unfoldable pub write_file : ℕ → Text → Text → Text → Remotely (Unit {0})
  write_file id path content mode h =
      let a = r.write h id path content mode in (a, wrote id path content mode a ∷ h)

  -- `RealmSource.Binary`
  unfoldable pub binary : Text → Remotely Text
  binary arch h = let a = r.binary h arch in (a, fetched arch a ∷ h)

  -- `sleepCtx`
  unfoldable pub pause : Remotely (Unit {0})
  pause h = let a = r.pause h in (a, paused a ∷ h)
