-- ===== src/Orphans/Justified.antt =====
-- Only relays that no route of that moment accounts for are removed.
use fluxlite.Common.{ℕ, ◌≡◌, Text, All, true, false}
use fluxlite.Store.{Store, on_node}
use fluxlite.Store.Routes.{has_slug, of_route}
use fluxlite.Applier.Remote.{History, Remote}
use fluxlite.Applier.Removal.{slug_pattern}
use fluxlite.Orphans.{Cleanup, Scan, is_online}

-- No route of the tables with this slug has a hop on the node.
abbrev pub Unused : Text → ℕ → Store → Type 0
Unused slug node s =
    All
      (λ r.
        has_slug slug r ≡ true → All (λ h. of_route r.id h ≡ true → on_node node h ≡ false) s.hops)
      s.routes

module _ (r : Remote) (tables : History → Store) where
  -- What a cleanup is justified by: the node was listed as online, the name is one that the panel could
  -- have given, and when it was judged no route of that name passed the node.
  pub record Justified (c : Cleanup) : Type 0 where
    pub online : is_online c.node.status ≡ true
    pub called : slug_pattern c.slug ≡ true
    pub free : Unused c.slug c.node.id (tables c.at)

  abbrev AllJustified : Scan → Type 0
  AllJustified s = All Justified s.cleanups
