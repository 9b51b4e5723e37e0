-- ===== src/Tests/Managing.antt =====
-- Examples for the management commands.
use outboard.Prelude.{ℕ, Text, codes, ◌≡◌, ok, Any, arith}
use outboard.Tests.{crates, tool, tool_id}
use outboard.Tests.Plugins.{tool-IsValid}
use outboard.Tests.Resolving.{host, registry, candidate, inspected, discovered, passes}
use outboard.Id.{selector, new_id, validate_identifier, allowed}
use outboard.Discovery.{DiscoverySet, selected_by_name}
use outboard.Registry.{discover}
use outboard.Management.{parse_selector, split_once, select}
use outboard.Management.Selectors.{parse_selector-selector, select-ok}

parse_selector-selector_example :
    parse_selector crates ℕ (selector tool_id) ≡ ok (codes "tool", codes "a-b")
parse_selector-selector_example = parse_selector-selector crates ℕ tool_id tool-IsValid.identity

selected : (select crates ℕ host registry (codes "tool:a-b")).0 ≡ ok (candidate, inspected)
unfolding select parse_selector split_once selected_by_name new_id validate_identifier allowed
selected = ground (arith, discovered, passes)

select-ok_example :
    (kind : Text) × (name : Text) × (d : DiscoverySet) × (parse_selector crates ℕ (codes "tool:a-b")
      ≡ ok (kind, name))
    × (discover crates host registry kind ≡ ok d)
    × Any (λ x. x ≡ candidate) d.selected
    × (candidate.id.name ≡ name)
    × (inspected.candidate ≡ candidate)
    × (tool.plugin.id ≡ tool_id)
select-ok_example =
    select-ok crates ℕ host registry (codes "tool:a-b") {c = candidate} {i = inspected} selected
