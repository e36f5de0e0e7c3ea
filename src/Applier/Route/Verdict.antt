-- ===== src/Applier/Route/Verdict.antt =====
-- A hop that is reported without an error was seen running, with its configuration in place.
use fluxlite.Common.{
  ℕ, ◌≡◌, ◌⊎◌, refl, sym, ap, ◌∙◌, Text, codes, text_eq, trim_space, Bool, true, false, [], ◌∷◌,
  ◌++◌, none, inl, inr, Bool-cases, subst, text_eq_sound, Result, ok, err,
}
use fluxlite.Model.{Node}
use fluxlite.Planner.Config.{HopPlan}
use fluxlite.Applier.Remote.{
  Command, shell, Output, Exchange, ran, wrote, History, Remote, Remotely, wrap, wrapped, after,
  ◌>>=◌, shell_quote, run, write_file,
}
use fluxlite.Applier.Units.{Commands, commands_for}
use fluxlite.Applier.Hop.{from_result, current_config, is_active, alive, restart}
use fluxlite.Applier.Hop.Growth.{attempt_restart-Keeps, pause-Keeps, is_active-Keeps}
use fluxlite.Applier.Route.{
  HopAction, HopRun, AcctResult, proceed, hop_failed, Steps, or_return, restart_then, revive,
  confirm, settle_config, apply_hop,
}

-- A call that is somewhere in the history.
pub Has : Exchange → History → Type 0
Has e [] = ⊥
Has e (x ∷ h) = (x ≡ e) ⊎ Has e h

pub Has-longer : (e x : Exchange) (h : History) → Has e h → Has e (x ∷ h)
unfolding Has
Has-longer e x h m = inr m

first-Has : {x : Exchange} {t u : History} → t ≡ x ∷ u → Has x t
unfolding Has
first-Has {x} q = subst (Has x) (sym q) (inl refl)

-- The service manager was asked, and said that the relay is running.
pub record SaidActive (node : Node) (slug : Text) (e : Exchange) : Type 0 where
  pub cmds : Commands
  pub known : commands_for node.init_system slug ≡ ok cmds
  pub out : Output
  pub asked : e ≡ ran node.id (shell cmds.is_active) (ok out)
  pub running : text_eq (trim_space out.stdout) (codes "active") ≡ true

-- The configuration was read and is the wanted one, or it was written.
abbrev pub InPlace : HopPlan → Exchange → Type 0
InPlace p e =
    ((o : Output) × (e
        ≡ ran p.node.id (shell (codes "cat " ++ shell_quote p.path ++ codes " 2>/dev/null")) (ok o))
      × (o.stdout ≡ p.config))
    ⊎ (e ≡ wrote p.node.id p.path p.config (codes "0600") (ok tt))

-- The relay was last heard of as running, after its configuration was in place.
pub record Confirmed (p : HopPlan) (h : History) : Type 0 where
  pub earlier : History
  pub last : Exchange
  pub is_last : h ≡ last ∷ earlier
  pub active : SaidActive p.node p.route_slug last
  pub seen : Exchange
  pub placed : InPlace p seen
  pub seen_before : Has seen earlier

-- What a call that succeeded went through.
pub >>=-eq-ok :
    {A B : Type 0} (m : Remotely A) (k : A → Remotely B) (h : History) {b : B} {t : History}
    → (m >>= k) h ≡ (ok b, t)
    → (a : A) × (s : History) × (m h ≡ (ok a, s)) × (k a s ≡ (ok b, t))
unfolding ◌>>=◌
>>=-eq-ok {A} {B} m k h {b} {t} e = go (m h) refl e
  where
    go :
        (x : Result Text A × History)
        → m h ≡ x
        → after k x ≡ (ok b, t)
        → (a : A) × (s : History) × (m h ≡ (ok a, s)) × (k a s ≡ (ok b, t))
    go (ok a, s) q e = (a, s, q, e)
    go (err w, s) q e = cc

wrap-eq-ok :
    {A : Type 0} (prefix : Text) (m : Remotely A) (h : History) {a : A} {t : History}
    → wrap prefix m h ≡ (ok a, t)
    → m h ≡ (ok a, t)
unfolding wrap
wrap-eq-ok {A} prefix m h {a} {t} e = go (m h) refl e
  where
    go : (x : Result Text A × History) → m h ≡ x → wrapped prefix x ≡ (ok a, t) → m h ≡ (ok a, t)
    go (ok c, s) q e = q ∙ e
    go (err w, s) q e = cc

from_result-eq-ok :
    {A : Type 0} (x : Result Text A) (h : History) {a : A} {t : History}
    → from_result x h ≡ (ok a, t)
    → (x ≡ ok a) × (t ≡ h)
from_result-eq-ok (ok c) h e = (cc, cc)
from_result-eq-ok (err w) h e = cc

module _ (r : Remote) where
  run-eq-ok :
      (id : ℕ) (c : Command) (h : History) {o : Output} {t : History}
      → run r id c h ≡ (ok o, t)
      → t ≡ ran id c (ok o) ∷ h
  unfolding run
  run-eq-ok id c h e = cc

  is_active-said :
      (node : Node) (slug : Text) (h t : History)
      → is_active r node slug h ≡ (ok true, t)
      → (e : Exchange) × (t ≡ e ∷ h) × SaidActive node slug e
  unfolding is_active
  is_active-said node slug h t e =
      let (cmds, s1, e1, f1) = >>=-eq-ok _ _ h e in
      let (known, same) = from_result-eq-ok _ h e1 in
      let (o, s2, e2, f2) = >>=-eq-ok _ _ s1 f1 in
      let asked = run-eq-ok _ _ s1 (wrap-eq-ok _ _ s1 e2) in
      (
        ran node.id (shell cmds.is_active) (ok o),
        cc,
        record { cmds = cmds; known = known; out = o; asked = refl; running = cc },
      )

  alive-true :
      (node : Node) (cmds : Commands) (b : Bool) (h t : History)
      → alive r node cmds b h ≡ (ok tt, t)
      → (b ≡ true) × (t ≡ h)
  alive-true node cmds true h t e = (refl, cc)
  alive-true node cmds false h t e = let (d, s, e1, f1) = >>=-eq-ok _ _ h e in absurd (cc f1)

  -- A restart that succeeds has heard that the relay is running, as the last thing.
  restart-said :
      (node : Node) (slug : Text) (x : Exchange) (h t : History)
      → restart r node slug h ≡ (ok tt, t)
      → Has x h
      → (e : Exchange) × (s : History) × (t ≡ e ∷ s) × SaidActive node slug e × Has x s
  unfolding restart
  restart-said node slug x h t e m =
      let (cmds, s1, e1, f1) = >>=-eq-ok _ _ h e in
      let (known, same) = from_result-eq-ok _ h e1 in
      let m1 : Has x s1 = subst (Has x) (sym same) m in
      let (_, s2, e2, f2) = >>=-eq-ok _ _ s1 f1 in
      let m2 : Has x s2 =
        subst (Has x) (ap (λ y. y.1) e2)
          (attempt_restart-Keeps r (Has x) (Has-longer x) node cmds s1 m1) in
      let (_, s3, e3, f3) = >>=-eq-ok _ _ s2 f2 in
      let m3 : Has x s3 =
        subst (Has x) (ap (λ y. y.1) e3) (pause-Keeps r (Has x) (Has-longer x) s2 m2) in
      let (b, s4, e4, f4) = >>=-eq-ok _ _ s3 f3 in
      let (up, last) = alive-true node cmds b s4 t f4 in
      let (v, shape, said) = is_active-said node slug s3 s4 (e4 ∙ ap (λ c. (ok c, s4)) up) in
      (v, s3, last ∙ shape, said, m3)

  abbrev Sound : (History → Type 0) → HopRun × History → Type 0
  Sound Q x = x.0.error ≡ none → Q x.1

  attempt-Sound :
      {A : Type 0} (Q : History → Type 0) (m : Remotely A) (action : HopAction) (acct : AcctResult)
      (next : A → Steps) (h : History)
      → ((a : A) (s : History) → m h ≡ (ok a, s) → Sound Q (next a s))
      → Sound Q (or_return m (hop_failed action acct) next h)
  unfolding or_return
  attempt-Sound {A} Q m action acct next h k = go (m h) refl
    where
      go :
          (x : Result Text A × History)
          → m h ≡ x
          → Sound Q (proceed (hop_failed action acct) next x)
      go (ok a, s) e n = k a s e n
      go (err w, s) e n = cc

  restarted-Confirmed :
      (p : HopPlan) (x : Exchange) (h t : History)
      → InPlace p x
      → Has x h
      → restart r p.node p.route_slug h ≡ (ok tt, t)
      → Confirmed p t
  restarted-Confirmed p x h t i m e =
      let (v, s, shape, said, m') = restart-said p.node p.route_slug x h t e m in
      record {
        earlier = s;
        last = v;
        is_last = shape;
        active = said;
        seen = x;
        placed = i;
        seen_before = m';
      }

  restart_then-Sound :
      (p : HopPlan) (acct : AcctResult) (o : HopRun) (x : Exchange) (h : History)
      → InPlace p x
      → Has x h
      → Sound (Confirmed p) (restart_then r p acct o h)
  restart_then-Sound p acct o x h i m =
      attempt-Sound (Confirmed p) _ _ acct _ h (λ _ s e n. restarted-Confirmed p x h s i m e)

  confirm-Sound :
      (p : HopPlan) (acct : AcctResult) (replaced : Bool) (x : Exchange) (h : History)
      → InPlace p x
      → Has x h
      → Sound (Confirmed p) (confirm r p acct replaced h)
  confirm-Sound p acct true x h i m = restart_then-Sound p acct _ x h i m
  confirm-Sound p acct false x h i m =
      attempt-Sound (Confirmed p) _ _ acct _ h (λ b s e. revived b s e)
    where
      revived :
          (b : Bool) (s : History)
          → is_active r p.node p.route_slug h ≡ (ok b, s)
          → Sound (Confirmed p) (revive r p acct b s)
      revived true s e n =
          let (v, shape, said) = is_active-said p.node p.route_slug h s e in
          record {
            earlier = h;
            last = v;
            is_last = shape;
            active = said;
            seen = x;
            placed = i;
            seen_before = m;
          }
      revived false s e n =
          restart_then-Sound p acct _ x s i
            (subst (Has x) (ap (λ y. y.1) e)
              (is_active-Keeps r (Has x) (Has-longer x) p.node p.route_slug h m))
            n

  current_config-read :
      (node : Node) (path : Text) (h s : History) {current : Text}
      → current_config r node path h ≡ (ok current, s)
      → (o : Output) × (s
          ≡ ran node.id (shell (codes "cat " ++ shell_quote path ++ codes " 2>/dev/null")) (ok o)
            ∷ h)
        × (o.stdout ≡ current)
  unfolding current_config
  current_config-read node path h s e =
      let (o, s1, e1, f1) = >>=-eq-ok _ _ h e in
      let asked = run-eq-ok _ _ h (wrap-eq-ok _ _ h e1) in (o, cc, cc)

  written :
      (p : HopPlan) (h t : History)
      → write_file r p.node.id p.path p.config (codes "0600") h ≡ (ok tt, t)
      → t ≡ wrote p.node.id p.path p.config (codes "0600") (ok tt) ∷ h
  unfolding write_file
  written p h t w = cc

  settle-Sound :
      (p : HopPlan) (acct : AcctResult) (replaced : Bool) (current : Text) (h s : History)
      → current_config r p.node p.path h ≡ (ok current, s)
      → Sound (Confirmed p) (settle_config r p acct replaced current s)
  settle-Sound p acct replaced current h s e = elim (Bool-cases (text_eq current p.config)) [
    | inl same ↦
        let (o, shape, reply) = current_config-read p.node p.path h s e in
        let wanted : o.stdout ≡ p.config = reply ∙ text_eq_sound current p.config same in
        rw same (confirm-Sound p acct replaced _ s (inl (o, refl, wanted)) (first-Has shape))
    | inr other ↦ rw other (
        attempt-Sound (Confirmed p) _ _ acct _ s
          (λ _ t w. restart_then-Sound p acct _ _ t (inr refl) (first-Has (written p s t w))))
  ]

  -- A hop that is reported without an error is one whose relay the service manager called running, as the
  -- last thing that was asked, after its configuration had been read as the wanted one or written.
  pub apply_hop-Confirmed :
      (p : HopPlan) (h : History)
      → (apply_hop r p h).0.error ≡ none
      → Confirmed p (apply_hop r p h).1
  unfolding apply_hop
  apply_hop-Confirmed p h = attempt-Sound (Confirmed p) _ _ _ _ h (λ _ h1 _.
      attempt-Sound (Confirmed p) _ _ _ _ h1 (λ replaced h2 _.
        attempt-Sound (Confirmed p) _ _ _ _ h2 (λ _ h3 _.
          attempt-Sound (Confirmed p) _ _ _ _ _
            (λ current s e. settle-Sound p _ replaced current _ s e))))
