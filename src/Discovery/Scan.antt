-- ===== src/Discovery/Scan.antt =====
-- `discover_in_roots` of crates/outboard-core/src/discovery.rs.
use outboard.Prelude.{
  Text, List, [], ◌∷◌, Option, none, some, Bool, true, false, Result, ok, err, ◌>>=◌, if◌then◌else◌,
  and_then, strip_prefix, sort_by_key, nat_ord, text_ord,
}
use outboard.BtreeMap.{values}
use outboard.FileSystem.{
  FileSystem, entries, failed, ErrorKind, not_found, permission_denied, is_executable, join,
  executable_file_name,
}
use outboard.Id.{Namespace, PluginKind, PluginName, PluginId, new_plugin_name}
use outboard.Id.Naming.{name_prefix}
use outboard.Discovery.{override, SearchRoot, PluginCandidate, DiscoverySet, Found, add}

-- `rd.flatten()`: the entries that could be read.
abbrev pub readable : List (Option Text) → List Text
readable [] = []
readable (none ∷ es) = readable es
readable (some e ∷ es) = e ∷ readable es

-- The errors for which a root is passed over.
abbrev pub is_skipped : ErrorKind → Bool
is_skipped not_found = true
is_skipped permission_denied = true
is_skipped _ = false

abbrev pub start : Found
start = record { selected = []; shadowed = []; precedence = 0 }

abbrev pub named_ok : {E : Type 0} → Result PluginName E → Option PluginName
named_ok (ok name) = some name
named_ok (err e) = none

abbrev pub identity : Namespace → PluginKind → PluginName → PluginId
identity namespace kind name = record { namespace = namespace; kind = kind; name = name }

module _ (fs : FileSystem) (namespace : Namespace) (kind : PluginKind) where
  -- The plugin name that one file gives, `none` for each `continue` of the loop.
  unfoldable pub plugin_name_at : Text → Option PluginName
  plugin_name_at path =
      if is_executable fs path
      then and_then (executable_file_name path) (λ stem.
        and_then (strip_prefix (name_prefix namespace kind) stem)
          (λ name. named_ok (new_plugin_name name)))
      else none

  -- One round of the loop over the entries of a root.
  unfoldable pub scan_entry : SearchRoot → Found → Text → Found
  scan_entry root found entry = elim (plugin_name_at (join root.path entry)) [
    | none ↦ found
    | some name ↦ add fs found (identity namespace kind name) (join root.path entry) root.source
  ]

  unfoldable pub scan_entries : SearchRoot → Found → List Text → Found
  scan_entries root found [] = found
  scan_entries root found (e ∷ es) = scan_entries root (scan_entry root found e) es

  unfoldable pub scan_roots : Found → List SearchRoot → Result Found ErrorKind
  scan_roots found [] = ok found
  scan_roots found (root ∷ roots) = elim (fs.read_dir root.path) [
    | failed e ↦ if is_skipped e then scan_roots found roots else err e
    | entries es ↦
        scan_roots (scan_entries root found (sort_by_key (λ (e : Text). e) (readable es))) roots
  ]

  unfoldable pub add_overrides : Found → List (PluginName × Text) → Found
  add_overrides found [] = found
  add_overrides found ((name, path) ∷ rest) =
      add_overrides (add fs found (identity namespace kind name) path override) rest

  -- The maps as the set that is returned.
  abbrev pub finish : List SearchRoot → Found → DiscoverySet
  finish roots found = record {
    selected = sort_by_key (λ c. PluginCandidate.precedence c) (values found.selected);
    shadowed = found.shadowed;
    roots = roots;
  }

  unfoldable pub discover_in_roots :
      List SearchRoot → List (PluginName × Text) → Result DiscoverySet ErrorKind
  discover_in_roots roots overrides = do
    found ← scan_roots (add_overrides start overrides) roots
    ok (finish roots found)
