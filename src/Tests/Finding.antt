-- ===== src/Tests/Finding.antt =====
-- Examples for discovery.
use outboard.Prelude.{
  ℕ, Text, codes, ◌≡◌, refl, List, [], ◌∷◌, ◌++◌, Option, none, some, true, false, arith, Result,
  ok, err, All,
}
use outboard.Tests.{tool_id, files, variables, bin, tool_path}
use outboard.FileSystem.{
  FileSystem, ErrorKind, other, file_name, is_executable, is_utf8, same_file, components, join,
  ReadDir, failed, executable_file_name,
}
use outboard.Id.{validate_identifier, allowed, new_id}
use outboard.Discovery.{
  SearchRoot, DiscoverySource, explicit_path, path, DiscoverySet, PluginCandidate,
}
use outboard.Discovery.Roots.{build_roots, collect_roots, IsDeduped, Covered, build_roots_lem}
use outboard.Discovery.Scan.{discover_in_roots, plugin_name_at}
use outboard.Discovery.Offers.{offers}
use outboard.Discovery.Outcome.{Explains, discover_in_roots_lem}
use outboard.Discovery.FirstWins.{Offer}

build_roots_lem_example :
    IsDeduped files variables [] (build_roots files variables [] none true)
    × All
        (Covered files variables (build_roots files variables [] none true))
        (collect_roots files variables [] none true)
build_roots_lem_example = build_roots_lem files variables [] none true

abbrev roots : List SearchRoot
roots =
    record { path = codes "/none"; source = explicit_path }
    ∷ record { path = bin; source = path }
    ∷ []

abbrev candidate : PluginCandidate
candidate = record { id = tool_id; path = tool_path; source = path; precedence = 0 }

abbrev found : DiscoverySet
found = record { selected = candidate ∷ []; shadowed = []; roots = roots }

discover_in_roots_lem_example :
    (os : List Offer) × (offers files (codes "lab") (codes "tool") roots [] ≡ ok os)
    × Explains files (codes "lab") (codes "tool") roots os found
unfolding discover_in_roots outboard.Discovery.Scan.scan_roots outboard.Prelude.sort_by_key
    outboard.Discovery.Scan.scan_entries outboard.Discovery.Scan.scan_entry plugin_name_at
    is_executable join executable_file_name file_name outboard.FileSystem.last_component is_utf8
    outboard.Id.Naming.name_prefix new_id validate_identifier allowed outboard.Discovery.add
    outboard.Discovery.insert_candidate outboard.BtreeMap.get outboard.BtreeMap.insert
    outboard.Discovery.Scan.add_overrides same_file
discover_in_roots_lem_example =
    discover_in_roots_lem files (codes "lab") (codes "tool") roots [] found refl

abbrev broken : FileSystem
broken = record files { read_dir = λ p. failed (other 5) }

-- Paths that do not resolve are compared by their parts.
same_root : same_file files (codes "/none/bin") (codes "//none/./bin/") ≡ true
unfolding same_file components
same_root = refl

other_root : same_file files (codes "/none/bin") (codes "none/bin") ≡ false
unfolding same_file components
other_root = refl
