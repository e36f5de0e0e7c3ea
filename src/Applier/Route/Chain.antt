-- ===== src/Applier/Route/Chain.antt =====
-- A route as a whole: hops from the last one backwards, and nothing in front of one that failed.
use fluxlite.Common.{
  ◌≡◌, ◌≢◌, refl, sym, ap, ◌∙◌, Text, text_eq, All, All-map, Bool, true, false, not, List, [], ◌∷◌,
  ◌++◌, map, codes, Option, none, some,
}
use fluxlite.Planner.Config.{HopPlan}
use fluxlite.Applier.Remote.{Exchange, History, Remote}
use fluxlite.Applier.Route.Growth.{apply_hop-keeps}
use fluxlite.Applier.Route.Loud.{apply_hop-Told}
use fluxlite.Applier.Hop.Loud.{Speaks}
use fluxlite.Applier.Route.{
  is_none, HopRun, apply_hop, HopOutcome, outcome_of, skipped_outcome, skipped, has_failed,
  put_first, next_hop, apply_back, apply,
}
use fluxlite.Applier.Route.Verdict.{Confirmed, apply_hop-Confirmed}

-- At some time in the history, the relay of the hop was confirmed.
pub record Seen (p : HopPlan) (h : History) : Type 0 where
  pub since : History
  pub upto : History
  pub parts : h ≡ since ++ upto
  pub confirmed : Confirmed p upto

Seen-longer : (p : HopPlan) (e : Exchange) (h : History) → Seen p h → Seen p (e ∷ h)
Seen-longer p e h s = record {
  since = e ∷ s.since;
  upto = s.upto;
  parts = ap (λ t. e ∷ t) s.parts;
  confirmed = s.confirmed;
}

module _ (r : Remote) where
  no_error : (e : Option Text) → is_none e ≡ true → e ≡ none
  no_error none q = refl
  no_error (some e) q = cc

  next-Seen :
      (p : HopPlan) (ps : List HopPlan) (up : Bool) (outs : List HopOutcome) (h : History)
      → (up ≡ true → All (λ q. Seen q h) ps)
      → (next_hop r p up outs h).0.up ≡ true
      → All (λ q. Seen q (next_hop r p up outs h).1) (p ∷ ps)
  next-Seen p ps true outs h k up = (
    record {
      since = [];
      upto = (apply_hop r p h).1;
      parts = refl;
      confirmed = apply_hop-Confirmed r p h (no_error (apply_hop r p h).0.error up);
    },
    All-map (λ q s. apply_hop-keeps r (Seen q) (Seen-longer q) p h s) ps (k refl),
  )
  next-Seen p ps false outs h k up = cc

  back-Seen :
      (ps : List HopPlan) (h : History)
      → (apply_back r ps h).0.up ≡ true
      → All (λ q. Seen q (apply_back r ps h).1) ps
  unfolding apply_back
  back-Seen [] h up = tt
  back-Seen (p ∷ ps) h up = next-Seen p ps _ _ (apply_back r ps h).1 (back-Seen ps h) up

  module _ (speaks : Speaks r) where
    judged :
        (p : HopPlan) (outs : List HopOutcome) (o : HopRun) (h : History) (w : Option Text)
        → o.error ≡ w
        → ((e : Text) → o.error ≡ some e → e ≢ [])
        → has_failed outs ≡ false
        → has_failed (put_first p outs (o, h)).0.outcomes ≡ not (put_first p outs (o, h)).0.up
    unfolding has_failed outcome_of text_eq
    judged p outs o h none q t k = rw q k
    judged p outs o h (some []) q t k = absurd (t [] q refl)
    judged p outs o h (some (c ∷ w)) q t k = rw q refl

    next-failed :
        (p : HopPlan) (up : Bool) (outs : List HopOutcome) (h : History)
        → has_failed outs ≡ not up
        → has_failed (next_hop r p up outs h).0.outcomes ≡ not (next_hop r p up outs h).0.up
    unfolding has_failed skipped_outcome text_eq
    next-failed p true outs h k =
        judged p outs (apply_hop r p h).0 (apply_hop r p h).1 _ refl (apply_hop-Told r speaks p h) k
    next-failed p false outs h k = refl

    back-failed :
        (ps : List HopPlan) (h : History)
        → has_failed (apply_back r ps h).0.outcomes ≡ not (apply_back r ps h).0.up
    unfolding apply_back has_failed
    back-failed [] h = refl
    back-failed (p ∷ ps) h = next-failed p _ _ (apply_back r ps h).1 (back-failed ps h)

  -- A route whose result has no failure has had every relay confirmed: the service manager of each hop
  -- called it running after its configuration had been read as the wanted one or written, all within the
  -- calls of this deployment. The errors of a write and of a pause are taken to have a text.
  pub apply-Seen :
      (ps : List HopPlan)
      → Speaks r
      → has_failed (apply r ps []).0 ≡ false
      → All (λ p. Seen p (apply r ps []).1) ps
  unfolding apply
  apply-Seen ps speaks n =
      back-Seen ps [] (up_of (apply_back r ps []).0.up (sym (back-failed speaks ps []) ∙ n))
    where
      up_of : (b : Bool) → not b ≡ false → b ≡ true
      up_of true q = refl
      up_of false q = cc

  back_stopped :
      (front back : List HopPlan) (h : History)
      → (apply_back r back h).0.up ≡ false
      → apply_back r (front ++ back) h ≡ (
        record {
          outcomes = map skipped_outcome front ++ (apply_back r back h).0.outcomes;
          up = false;
        },
        (apply_back r back h).1,
      )
  unfolding apply_back
  back_stopped [] back h down = λ i.
      (record { outcomes = (apply_back r back h).0.outcomes; up = down i }, (apply_back r back h).1)
  back_stopped (p ∷ front) back h down = rw (back_stopped front back h down) refl

  -- Once a hop has failed, no machine in front of it is asked anything: what stands in front is
  -- reported as skipped and unchanged, with the error "upstream hop failed" and no state of its
  -- counters, and the history is that of the hops behind. The errors of a write and of a pause are
  -- taken to have a text.
  pub apply_stopped :
      (front back : List HopPlan) (h : History)
      → Speaks r
      → has_failed (apply r back h).0 ≡ true
      → let not_asked : HopPlan → HopOutcome = λ p. record {
        node_name = p.node.name;
        hop_order = p.hop_order;
        listen = p.listen;
        remote = p.remote;
        changed = false;
        action = skipped;
        error = codes "upstream hop failed";
        accounting = none;
        accounting_error = [];
      } in
        apply r (front ++ back) h ≡ (map not_asked front ++ (apply r back h).0, (apply r back h).1)
  unfolding apply skipped_outcome
  apply_stopped front back h speaks n =
      ap (λ x. (x.0.outcomes, x.1))
        (back_stopped front back h
          (down_of (apply_back r back h).0.up (sym (back-failed speaks back h) ∙ n)))
    where
      down_of : (b : Bool) → not b ≡ true → b ≡ false
      down_of true q = cc
      down_of false q = refl
