-- ===== src/Tests/Resolving.antt =====
-- Examples for the registry.
use outboard.Prelude.{
  ℕ, ℤ, pos, Text, codes, ◌≡◌, ◌≢◌, ◌≤◌, ◌⊎◌, refl, List, [], ◌∷◌, Option, none, some, Bool, true,
  false, Result, ok, err, filter, All, Any, arith, sort_by_key,
}
use outboard.Tests.{crates, tool_id, tool, need, files, variables, bin, tool_path}
use outboard.Tests.Plugins.{tool-IsValid, compatible}
use outboard.Id.{PluginId}
use outboard.Discovery.{PluginCandidate, DiscoverySet, path}
use outboard.Process.{Child, run_capture_args, run_capture, wait_loop}
use outboard.Cache
use outboard.Cache.{ManifestCache, FileCodec, CachedEntry, Fingerprint, fingerprint, in_memory, key}
use outboard.Cache.Persist.{Faults}
use outboard.Registry.{
  Registry, Host, InspectedPlugin, ResolvedPlugin, RegistryError, identity_mismatch, no_match,
  Rejections, discover,
}
use outboard.Registry.Inspect.{inspect, inspect_manifest_at}
use outboard.Registry.Inspect.Laws.{inspect_manifest_at_iff, inspect-ok, inspect-again}
use outboard.Registry.Resolve.{resolve_best, resolve, gather}
use outboard.Registry.Resolve.Trials.{trials, Fits, Explained}
use outboard.Registry.Resolve.Best.{IsBefore, resolve_best_lem}

abbrev pub child : Child
child = record {
  try_wait = λ n. ok (some 0);
  elapsed = λ n. 5;
  stdin_thread = none;
  stdout_thread = some (ok (codes "tool"));
  stderr_thread = some (ok []);
}

abbrev pub no_faults : Faults
no_faults = record {
  make_parent = none;
  write = none;
  left_over = none;
  rename = none;
  remove = none;
  rename_again = none;
}

abbrev pub host : Host crates
host = record {
  fs = files;
  var_os = variables;
  read_file = λ p. none;
  spawned = λ p args. ok child;
  digest = λ p. p;
  codec = record { to_vec_pretty = λ f. []; from_slice = λ b. none };
  faults = no_faults;
  decode = λ b. ok tool;
  text = λ t. t;
}

abbrev pub registry : Registry crates
registry = record {
  namespace = codes "lab";
  explicit_paths = [];
  plugin_path_env = none;
  include_path = true;
  overrides = [];
  store = record { cache = in_memory crates true; disk = record { main = none; tmp = none } };
  control_timeout = 5000;
}

abbrev pub candidate : PluginCandidate
candidate = record { id = tool_id; path = tool_path; source = path; precedence = 0 }

abbrev pub inspected : InspectedPlugin crates
inspected = record { candidate = candidate; manifest = tool }

inspect_manifest_at_iff_example : inspect_manifest_at crates host tool_id tool_path 5000 ≡ ok tool
unfolding run_capture_args run_capture wait_loop
inspect_manifest_at_iff_example =
    (inspect_manifest_at_iff crates host tool_id tool_path 5000 tool).1 (
      record { status = 0; stdout = codes "tool"; stderr = [] },
      refl,
      refl,
      refl,
      tool-IsValid,
      refl,
    )

reported : inspect_manifest_at crates host tool_id tool_path 5000 ≡ ok tool
unfolding run_capture_args run_capture wait_loop
reported = (inspect_manifest_at_iff crates host tool_id tool_path 5000 tool).1 (
  record { status = 0; stdout = codes "tool"; stderr = [] },
  refl,
  refl,
  refl,
  tool-IsValid,
  refl,
)

pub passes : (inspect crates host registry candidate).0 ≡ ok inspected
unfolding inspect outboard.Cache.get fingerprint outboard.BtreeMap.get
passes = rw reported refl

inspect-ok_example :
    (candidate ≡ candidate)
    × (tool.plugin.id ≡ candidate.id)
    × ((Cache.get crates host.digest files registry.store.cache tool_path ≡ some tool)
        ⊎ (inspect_manifest_at crates host tool_id tool_path 5000 ≡ ok tool))
inspect-ok_example = inspect-ok crates host registry candidate {i = inspected} passes

inspect-again_example :
    (Cache.get crates host.digest files
        (inspect crates host registry candidate).1.store.cache
        tool_path
      ≡ some tool)
    × (inspect crates host (inspect crates host registry candidate).1 candidate
        ≡ (ok inspected, (inspect crates host registry candidate).1))
unfolding fingerprint
inspect-again_example =
    inspect-again crates host registry candidate {i = inspected}
      {fp = record { len = 9; modified_nanos = 5 }} passes refl refl

-- A plugin of another name in the cache, at the same path.
abbrev other_id : PluginId
other_id = record tool_id { name = codes "c" }

abbrev misled : Registry crates
misled = record registry {
  store = record {
    cache = record (in_memory crates true) {
      entries =
          (
            tool_path,
            record { fingerprint = record { len = 9; modified_nanos = 5 }; manifest = tool },
          )
          ∷ [];
    };
    disk = record { main = none; tmp = none };
  };
}

abbrev wanted : PluginCandidate
wanted = record candidate { id = other_id }

abbrev pub set : DiscoverySet
set = record {
  selected = candidate ∷ [];
  shadowed = [];
  roots =
      record { path = bin; source = path } ∷ record { path = codes "/usr/bin"; source = path } ∷ [];
}

pub discovered : discover crates host registry (codes "tool") ≡ ok set
unfolding discover outboard.Registry.search_roots outboard.Discovery.Roots.build_roots
    outboard.Discovery.Roots.dedupe outboard.Discovery.Roots.collect_roots
    outboard.Discovery.Roots.split_paths outboard.Discovery.Scan.discover_in_roots
    outboard.Discovery.Scan.scan_roots outboard.Prelude.sort_by_key
    outboard.Discovery.Scan.scan_entries outboard.Discovery.Scan.scan_entry
    outboard.Discovery.Scan.plugin_name_at outboard.FileSystem.is_executable
    outboard.FileSystem.join outboard.FileSystem.executable_file_name outboard.FileSystem.file_name
    outboard.FileSystem.last_component outboard.FileSystem.is_utf8 outboard.Id.Naming.name_prefix
    outboard.Id.new_id outboard.Id.validate_identifier outboard.Id.allowed outboard.Discovery.add
    outboard.Discovery.insert_candidate outboard.BtreeMap.get outboard.BtreeMap.insert
    outboard.Discovery.Scan.add_overrides outboard.FileSystem.same_file
    outboard.FileSystem.components
discovered = refl

chosen :
    (resolve crates host need registry).0 ≡ ok (record { candidate = candidate; manifest = tool })
unfolding resolve resolve_best gather sort_by_key
chosen = ground (arith, discovered, passes, compatible)

resolve_best_lem_example :
    ((i : InspectedPlugin crates) × ((resolve_best crates host need (λ i. pos 0) registry).0
        ≡ ok (record { candidate = i.candidate; manifest = i.manifest }))
      × Any (Fits crates host need i) (trials crates host need registry (candidate ∷ []))
      × All
          (λ t.
            (j : InspectedPlugin crates)
            → Fits crates host need j t
            → IsBefore crates host need (λ i. pos 0) i j)
          (trials crates host need registry (candidate ∷ [])))
    ⊎ ((rejections : Rejections crates) × ((resolve_best crates host need (λ i. pos 0) registry).0
          ≡ err (no_match (codes "tool") (codes " named a-b") rejections))
        × Explained crates host need rejections (trials crates host need registry (candidate ∷ [])))
resolve_best_lem_example =
    resolve_best_lem crates host need (λ i. pos 0) registry {d = set} discovered
