-- ===== src/Registry.antt =====
-- crates/outboard-core/src/registry.rs: the registry, its settings, and the run that asks a
-- plugin for its manifest.
-- The text of an error is not modelled: a rejection holds what its text is made from.
pub mod Inspect
pub mod Resolve
pub mod Overrides
use outboard.Prelude.{
  ℕ, Text, codes, ◌≡◌, Bool, true, false, not, ◌==◌, nat_eq, list_eq, List, [], ◌∷◌, ◌++◌, map,
  Option, none, some, Result, ok, err, ◌>>=◌, map_err, if◌then◌else◌, filter, text_ord, pair_ord,
  ◌-◌, ◌≤◌, ◌&&◌, leb,
}
use outboard.BtreeMap.{BtreeMap, insert}
use outboard.Crates.{Crates}
use outboard.FileSystem.{FileSystem, ErrorKind}
use outboard.Id.{
  IdentifierError, Namespace, PluginKind, PluginName, PluginId, new_namespace, new_plugin_kind,
  new_plugin_name, plugin_id_eq,
}
use outboard.Discovery.{PluginCandidate, DiscoverySet, SearchRoot}
use outboard.Discovery.Roots.{build_roots}
use outboard.Discovery.Scan.{discover_in_roots}
use outboard.Manifest.{Manifest, ManifestError, CompatibilityIssue}
use outboard.Process.{CapturedOutput, ProcessError, Child}
use outboard.Cache.{CacheMode, default_disk, FileCodec, ManifestCache, new}
use outboard.Cache.Persist.{Store, Disk, Faults}

-- const TIMEOUT, in milliseconds
abbrev pub timeout : ℕ
timeout = 5000

-- str::to_ascii_uppercase
abbrev pub to_upper : ℕ → ℕ
to_upper c = if leb b'a' c && leb c b'z' then c - 32 else c

-- `n.as_str().replace('-', "_")`
abbrev pub dash_to_underscore : ℕ → ℕ
dash_to_underscore c = if c == b'-' then b'_' else c

abbrev pub env_name : Namespace → Text
env_name n = map (λ c. to_upper (dash_to_underscore c)) n ++ codes "_PLUGIN_PATH"

pub record RegistryBuilder : Type 0 where
  pub namespace : Namespace
  pub explicit_paths : List Text
  pub plugin_path_env : Option Text
  pub include_path : Bool
  pub overrides : BtreeMap (PluginKind × PluginName) Text
  pub cache_mode : CacheMode
  pub control_timeout : ℕ

-- Registry::builder
unfoldable pub builder : Text → Result RegistryBuilder IdentifierError
builder namespace = do
  n ← new_namespace namespace
  ok (record {
    namespace = n;
    explicit_paths = [];
    plugin_path_env = some (env_name n);
    include_path = true;
    overrides = [];
    cache_mode = default_disk;
    control_timeout = timeout;
  })

-- RegistryBuilder::plugin_path
unfoldable pub plugin_path : Text → RegistryBuilder → RegistryBuilder
plugin_path p b = record b { explicit_paths = b.explicit_paths ++ p ∷ [] }

unfoldable pub plugin_path_env : Text → RegistryBuilder → RegistryBuilder
plugin_path_env v b = record b { plugin_path_env = some v }

unfoldable pub without_plugin_path_env : RegistryBuilder → RegistryBuilder
without_plugin_path_env b = record b { plugin_path_env = none }

unfoldable pub include_path : Bool → RegistryBuilder → RegistryBuilder
include_path v b = record b { include_path = v }

unfoldable pub override_plugin :
    Text → Text → Text → RegistryBuilder → Result RegistryBuilder IdentifierError
override_plugin kind name path b = do
  k ← new_plugin_kind kind
  n ← new_plugin_name name
  ok (record b { overrides = insert (k, n) path b.overrides })

unfoldable pub cache : CacheMode → RegistryBuilder → RegistryBuilder
cache v b = record b { cache_mode = v }

unfoldable pub control_timeout : ℕ → RegistryBuilder → RegistryBuilder
control_timeout v b = record b { control_timeout = v }

module _ (lib : Crates) where
  -- The cache is kept with the contents of its file, which the operations change with it.
  pub record Registry : Type 0 where
    pub namespace : Namespace
    pub explicit_paths : List Text
    pub plugin_path_env : Option Text
    pub include_path : Bool
    pub overrides : BtreeMap (PluginKind × PluginName) Text
    pub store : Store lib
    pub control_timeout : ℕ

  pub record InspectedPlugin : Type 0 where
    pub candidate : PluginCandidate
    pub manifest : Manifest lib

  pub record ResolvedPlugin : Type 0 where
    pub candidate : PluginCandidate
    pub manifest : Manifest lib

  -- `reason` of a CandidateRejection holds the error, or the issues, whose texts make its text.
  mutual
    pub data RegistryError : Type 0 where
      identifier : IdentifierError → RegistryError
      discovery : ErrorKind → RegistryError
      process : ProcessError → RegistryError
      manifest_command : (path stderr : Text) → RegistryError
      manifest_json : (path source : Text) → RegistryError
      manifest_invalid : (path : Text) → ManifestError → RegistryError
      identity_mismatch : (path : Text) (discovered declared : PluginId) → RegistryError
      no_match : PluginKind → (name : Text) → Rejections → RegistryError

    pub data Reason : Type 0 where
      failed : RegistryError → Reason
      unfit : List (CompatibilityIssue lib) → Reason

    pub data Rejections : Type 0 where
      done : Rejections
      rejected : PluginCandidate → Reason → Rejections → Rejections

  -- What a registry takes from its surroundings: the files, the variables, the programs that can
  -- be started, the hash of the cache's keys, and the codecs of serde_json. `text` stands for
  -- `String::from_utf8_lossy` with `trim`. `faults` is how the cache's writes go.
  pub record Host : Type 1 where
    pub fs : FileSystem
    pub var_os : Text → Option Text
    pub read_file : Text → Option Text
    pub spawned : Text → List Text → Result Child ErrorKind
    pub digest : Text → Text
    pub codec : FileCodec lib
    pub faults : Faults
    pub decode : Text → Result (Manifest lib) Text
    pub text : Text → Text

  -- RegistryBuilder::build, `disk` being what the cache's file holds
  unfoldable pub build : Host → Disk → RegistryBuilder → Registry
  build host disk b = record {
    namespace = b.namespace;
    explicit_paths = b.explicit_paths;
    plugin_path_env = b.plugin_path_env;
    include_path = b.include_path;
    overrides = b.overrides;
    store = record {
      cache = new lib host.codec host.read_file host.var_os b.cache_mode;
      disk = disk;
    };
    control_timeout = b.control_timeout;
  }

  abbrev pub of_kind :
      PluginKind → BtreeMap (PluginKind × PluginName) Text → List (PluginName × Text)
  of_kind kind [] = []
  of_kind kind (((k, n), p) ∷ m) =
      let rest = of_kind kind m in if k == kind then (n, p) ∷ rest else rest

  module _ (host : Host) where
    unfoldable pub search_roots : Registry → List SearchRoot
    search_roots r =
        build_roots host.fs host.var_os r.explicit_paths r.plugin_path_env r.include_path

    -- Registry::discover
    unfoldable pub discover : Registry → Text → Result DiscoverySet RegistryError
    discover r name = do
      kind ← map_err identifier (new_plugin_kind name)
      map_err discovery
          (discover_in_roots host.fs r.namespace kind (search_roots r) (of_kind kind r.overrides))
