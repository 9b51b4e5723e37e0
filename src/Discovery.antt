-- ===== src/Discovery.antt =====
-- crates/outboard-core/src/discovery.rs: candidates, their precedence and the roots searched.
pub mod Scan
pub mod Roots
pub mod FirstWins
pub mod Offers
pub mod Outcome
pub mod Matching
use outboard.Prelude.{
  ℕ, Text, ◌≡◌, List, [], ◌∷◌, ◌++◌, Option, none, some, ◌==◌, nat_eq, list_eq, if◌then◌else◌, ◌+◌,
  filter, find,
}
use outboard.BtreeMap.{BtreeMap, get, insert}
use outboard.FileSystem.{FileSystem, same_file}
use outboard.Id.{PluginId, PluginName, plugin_id_ord, plugin_id_eq}

pub data DiscoverySource : Type 0 where
  override explicit_path path : DiscoverySource
  environment : Text → DiscoverySource

pub record SearchRoot : Type 0 where
  pub path : Text
  pub source : DiscoverySource

pub record PluginCandidate : Type 0 where
  pub id : PluginId
  pub path : Text
  pub source : DiscoverySource
  pub precedence : ℕ

-- PluginCandidate::explicit
unfoldable pub explicit : PluginId → Text → PluginCandidate
explicit id file = record { id = id; path = file; source = override; precedence = 0 }

pub record DiscoverySet : Type 0 where
  pub selected : List PluginCandidate
  pub shadowed : BtreeMap PluginId (List PluginCandidate)
  pub roots : List SearchRoot

unfoldable pub selected_by_name : DiscoverySet → PluginName → Option PluginCandidate
selected_by_name d name = find (λ c. c.id.name == name) d.selected

abbrev pub listed : Option (List PluginCandidate) → List PluginCandidate
listed none = []
listed (some cs) = cs

unfoldable pub all_for : DiscoverySet → PluginId → List PluginCandidate
all_for d id = filter (λ c. c.id == id) d.selected ++ listed (get id d.shadowed)

-- The two maps that `discover_in_roots` fills, and its counter.
pub record Found : Type 0 where
  pub selected : BtreeMap PluginId PluginCandidate
  pub shadowed : BtreeMap PluginId (List PluginCandidate)
  pub precedence : ℕ

module _ (fs : FileSystem) where
  -- The free function `insert`
  unfoldable pub insert_candidate : Found → PluginCandidate → Found
  insert_candidate found c = elim (get c.id found.selected) [
    | none ↦ record found { selected = insert c.id c found.selected }
    | some existing ↦ if same_file fs existing.path c.path then found else record found {
      shadowed = insert c.id (listed (get c.id found.shadowed) ++ c ∷ []) found.shadowed;
    }
  ]

  -- The candidate takes the counter for its precedence, and the counter goes on.
  unfoldable pub add : Found → PluginId → Text → DiscoverySource → Found
  add found id file source =
      let c : PluginCandidate = record {
        id = id;
        path = file;
        source = source;
        precedence = found.precedence;
      } in
      let next = insert_candidate found c in record next { precedence = next.precedence + 1 }
