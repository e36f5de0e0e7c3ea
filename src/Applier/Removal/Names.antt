-- ===== src/Applier/Removal/Names.antt =====
-- What a machine is said to carry is only ever what the panel could have put there.
use fluxlite.Common.{
  ◌≡◌, subst, Text, text_eq, trim_space, All, All-append, true, List, [], ◌∷◌, Bool-cases, inl, inr,
  ok,
}
use fluxlite.Common.Mapping.{sort_by-All}
use fluxlite.Common.Tables.{exists_where}
use fluxlite.Ports.{split, newline}
use fluxlite.Store.{text_leq}
use fluxlite.Applier.Removal.{slug_pattern, collect, parse_deployed, deployed}
use fluxlite.Applier.Remote.{History, Remote}
use fluxlite.Applier.Route.Verdict.{>>=-eq-ok}
use fluxlite.Model.{Node}

abbrev pub AllSlugs : List Text → Type 0
AllSlugs = All (λ t. slug_pattern t ≡ true)

collect-AllSlugs : (lines seen : List Text) → AllSlugs seen → AllSlugs (collect seen lines)
unfolding collect
collect-AllSlugs [] seen a = a
collect-AllSlugs (line ∷ lines) seen a = elim (Bool-cases (slug_pattern (trim_space line))) [
  | inl e ↦ elim (Bool-cases (exists_where (text_eq (trim_space line)) seen)) [
    | inl e' ↦ rw (e, e') (collect-AllSlugs lines seen a)
    | inr e' ↦
        rw (e, e')
          (collect-AllSlugs lines _ (All-append (λ t. slug_pattern t ≡ true) seen _ a (e, tt)))
  ]
  | inr e ↦ rw e (collect-AllSlugs lines seen a)
]

pub parse_deployed-AllSlugs : (out : Text) → AllSlugs (parse_deployed out)
unfolding parse_deployed
parse_deployed-AllSlugs out =
    sort_by-All (λ t. slug_pattern t ≡ true) text_leq _ (collect-AllSlugs (split newline out) [] tt)

-- So is what a machine is asked for.
pub deployed-AllSlugs :
    (r : Remote) (node : Node) (h t : History) {slugs : List Text}
    → deployed r node h ≡ (ok slugs, t)
    → AllSlugs slugs
unfolding deployed
deployed-AllSlugs r node h t {slugs} e =
    let (_, s1, e1, f1) = >>=-eq-ok _ _ h e in
    let (out, s2, e2, f2) = >>=-eq-ok _ _ s1 f1 in
    let same : parse_deployed out ≡ slugs = cc f2 in
    subst AllSlugs same (parse_deployed-AllSlugs out)
