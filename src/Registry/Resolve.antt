-- ===== src/Registry/Resolve.antt =====
-- `resolve` and `resolve_best` of crates/outboard-core/src/registry.rs.
pub mod Trials
pub mod Best
use outboard.Prelude.{
  ℕ, ℤ, pos, Text, codes, ◌≡◌, Bool, true, false, ◌==◌, nat_eq, list_eq, List, [], ◌∷◌, ◌++◌,
  Option, none, some, Result, ok, err, filter, is_empty, if◌then◌else◌, Down, down_ord, nat_ord,
  pair_ord, sort_by_key,
}
use outboard.Crates.{Crates}
use outboard.Id.{PluginName}
use outboard.Discovery.{PluginCandidate, DiscoverySet}
use outboard.Manifest.{Manifest, PluginRequirement, CompatibilityIssue}
use outboard.Manifest.Compatibility.{compatibility_issues}
use outboard.Registry.{
  Registry, InspectedPlugin, ResolvedPlugin, RegistryError, no_match, Rejections, done, rejected,
  failed, unfit, Host, discover,
}
use outboard.Registry.Inspect.{inspect}

-- `req.name.as_ref().is_none_or(|n| &c.id.name == n)`
abbrev pub is_named : Option PluginName → PluginCandidate → Bool
is_named none c = true
is_named (some n) c = c.id.name == n

-- The name in a NoMatch.
abbrev pub name_suffix : Option PluginName → Text
name_suffix none = []
name_suffix (some n) = codes " named " ++ n

module _ (lib : Crates) (host : Host lib) (req : PluginRequirement lib)
    (score : InspectedPlugin lib → ℤ) where
  -- The two vectors of the loop, and the registry after it.
  pub record Progress : Type 0 where
    pub accepted : List (InspectedPlugin lib)
    pub rejections : Rejections lib
    pub registry : Registry lib

  -- A candidate that passed its inspection, before the candidates after it.
  abbrev pub judge : InspectedPlugin lib → List (CompatibilityIssue lib) → Progress → Progress
  judge i [] p = record p { accepted = i ∷ p.accepted }
  judge i (e ∷ es) p = record p { rejections = rejected i.candidate (unfit (e ∷ es)) p.rejections }

  abbrev pub attach :
      PluginCandidate → Result (InspectedPlugin lib) (RegistryError lib) → Progress → Progress
  attach c (err e) p = record p { rejections = rejected c (failed e) p.rejections }
  attach c (ok i) p = judge i (compatibility_issues lib i.manifest req) p

  -- The loop of `resolve_best`.
  unfoldable pub gather : Registry lib → List PluginCandidate → Progress
  gather r [] = record { accepted = []; rejections = done; registry = r }
  gather r (c ∷ cs) = attach c (inspect lib host r c).0 (gather (inspect lib host r c).1 cs)

  -- The key of `sort_by`: the score from the greatest down, then the precedence.
  abbrev pub rank : InspectedPlugin lib → Down × ℕ
  rank i = (record { value = score i }, i.candidate.precedence)

  abbrev pub Resolution : Type 0
  Resolution = Result (ResolvedPlugin lib) (RegistryError lib)

  abbrev pub first : Rejections lib → List (InspectedPlugin lib) → Resolution
  first rejections (i ∷ is) = ok (record { candidate = i.candidate; manifest = i.manifest })
  first rejections [] = err (no_match req.kind (name_suffix req.name) rejections)

  abbrev pub best : Progress → Resolution × Registry lib
  best p = (first p.rejections (sort_by_key rank p.accepted), p.registry)

  -- Registry::resolve_best
  unfoldable pub resolve_best : Registry lib → Resolution × Registry lib
  resolve_best r = elim (discover lib host r req.kind) [
    | err e ↦ (err e, r)
    | ok d ↦ best (gather r (filter (λ c. is_named req.name c) d.selected))
  ]

-- Registry::resolve
unfoldable pub resolve :
    (lib : Crates)
    → Host lib
    → PluginRequirement lib
    → Registry lib
    → Result (ResolvedPlugin lib) (RegistryError lib) × Registry lib
resolve lib host req r = resolve_best lib host req (λ i. pos 0) r
