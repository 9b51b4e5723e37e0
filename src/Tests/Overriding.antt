-- ===== src/Tests/Overriding.antt =====
-- An example for the overrides of a registry.
use outboard.Prelude.{false, ℕ, Text, codes, ◌≡◌, refl, List, [], ◌∷◌, Result, ok, filter, ◌==◌}
use outboard.BtreeMap
use outboard.Tests.{crates, tool_id}
use outboard.Tests.Resolving.{host, registry}
use outboard.Id.{plugin_id_eq}
use outboard.Discovery.{PluginCandidate, DiscoverySet}
use outboard.Registry.{Registry, discover}
use outboard.Registry.Overrides.{overriding, discover-override}

abbrev file : Text
file = codes "/opt/b"

abbrev overridden : Registry crates
overridden = record registry {
  include_path = false;
  overrides = ((codes "tool", codes "a-b"), file) ∷ [];
}

abbrev only : DiscoverySet
only = record {
  selected = overriding crates (codes "lab") (codes "tool") (codes "a-b") file 0 ∷ [];
  shadowed = [];
  roots = [];
}

seen : discover crates host overridden (codes "tool") ≡ ok only
unfolding discover outboard.Id.new_id outboard.Id.validate_identifier outboard.Id.allowed
    outboard.Discovery.Scan.discover_in_roots outboard.Discovery.Scan.scan_roots
    outboard.Registry.search_roots outboard.Discovery.Roots.build_roots
    outboard.Discovery.Roots.dedupe outboard.Discovery.Roots.collect_roots
    outboard.Prelude.sort_by_key outboard.Discovery.Scan.add_overrides outboard.Discovery.add
    outboard.Discovery.insert_candidate BtreeMap.get BtreeMap.insert
seen = refl

discover-override_example :
    (precedence : ℕ) × (filter (λ c. c.id == tool_id) only.selected
      ≡ overriding crates (codes "lab") (codes "tool") (codes "a-b") file precedence ∷ [])
unfolding BtreeMap.get
discover-override_example =
    discover-override crates host overridden (codes "tool") (codes "a-b") file {d = only} seen refl
