-- ===== src/Cache.antt =====
-- crates/outboard-core/src/cache.rs: the cache of manifests by executable, and its file.
-- A poisoned mutex is not modelled: no code that holds the lock panics.
pub mod Laws
pub mod Persist
use outboard.Prelude.{
  ℕ, Text, codes, ◌≡◌, List, [], ◌∷◌, ◌++◌, Option, none, some, Bool, true, false, not, ◌&&◌, ◌==◌,
  nat_eq, list_eq, if◌then◌else◌, Result, ok, err, ◌>>=◌, text_ord, ◌↔◌, Eq, arith, and_then,
}
use outboard.BtreeMap
use outboard.BtreeMap.{BtreeMap}
use outboard.Crates.{Crates}
use outboard.FileSystem.{FileSystem, Metadata, ErrorKind}
use outboard.Manifest.{Manifest}

-- const FORMAT
abbrev pub format : ℕ
format = 1

pub data CacheMode : Type 0 where
  disabled memory default_disk : CacheMode
  disk : Text → CacheMode

pub record Fingerprint : Type 0 where
  pub len : ℕ
  pub modified_nanos : ℕ

abbrev pub fingerprint_beq : Fingerprint → Fingerprint → Bool
fingerprint_beq a b = a.len == b.len && a.modified_nanos == b.modified_nanos

pub fingerprint_beq_iff : (a b : Fingerprint) → (fingerprint_beq a b ≡ true) ↔ (a ≡ b)
fingerprint_beq_iff a b = (λ h. ground arith, λ h. ground arith)

abbrev nanos : Option ℕ → ℕ
nanos none = 0
nanos (some n) = n

-- `fingerprint`, of which every caller drops the error
unfoldable pub fingerprint : FileSystem → Text → Option Fingerprint
fingerprint fs path = elim (fs.metadata path) [
  | none ↦ none
  | some m ↦ some (record { len = m.len; modified_nanos = nanos m.modified })
]

abbrev resolved : Option Text → Text → Text
resolved none path = path
resolved (some p) path = p

-- `key`: `digest` is DefaultHasher over the path's bytes, as 16 hexadecimal digits.
unfoldable pub key : (Text → Text) → FileSystem → Text → Text
key digest fs path = digest (resolved (fs.canonicalize path) path)

-- `default_path`, `var_os` being std::env::var_os
unfoldable pub default_path : (Text → Option Text) → Option Text
default_path var_os = elim (var_os (codes "XDG_CACHE_HOME")) [
  | some p ↦ some (outboard.FileSystem.join p (codes "outboard/manifest-cache.json"))
  | none ↦ elim (var_os (codes "HOME")) [
    | some p ↦ some (outboard.FileSystem.join p (codes ".cache/outboard/manifest-cache.json"))
    | none ↦ none
  ]
]

module _ (lib : Crates) where
  pub record CachedEntry : Type 0 where
    pub fingerprint : Fingerprint
    pub manifest : Manifest lib

  pub record CacheFile : Type 0 where
    pub format_version : ℕ
    pub entries : BtreeMap Text CachedEntry

  pub record ManifestCache : Type 0 where
    pub enabled : Bool
    pub path : Option Text
    pub entries : BtreeMap Text CachedEntry

  -- serde_json for the cache's file
  pub record FileCodec : Type 0 where
    pub to_vec_pretty : CacheFile → Text
    pub from_slice : Text → Option CacheFile

  abbrev pub in_memory : Bool → ManifestCache
  in_memory enabled = record { enabled = enabled; path = none; entries = [] }

  -- The entries of a file of this format, none where it cannot be read or decoded.
  abbrev pub entries_of : Option CacheFile → BtreeMap Text CachedEntry
  entries_of none = []
  entries_of (some f) = if f.format_version == format then f.entries else []

  -- ManifestCache::load, `read` being fs::read with its error dropped
  unfoldable pub load : FileCodec → (Text → Option Text) → Text → ManifestCache
  load codec read path = record {
    enabled = true;
    path = some path;
    entries = entries_of (and_then (read path) codec.from_slice);
  }

  -- ManifestCache::new
  unfoldable pub new :
      FileCodec → (Text → Option Text) → (Text → Option Text) → CacheMode → ManifestCache
  new codec read var_os disabled = in_memory false
  new codec read var_os memory = in_memory true
  new codec read var_os (disk p) = load codec read p
  new codec read var_os default_disk = elim (default_path var_os) [
    | none ↦ in_memory true
    | some p ↦ load codec read p
  ]

  abbrev fresh : Fingerprint → Option CachedEntry → Option (Manifest lib)
  fresh fp none = none
  fresh fp (some e) = if fingerprint_beq e.fingerprint fp then some e.manifest else none

  module _ (digest : Text → Text) (fs : FileSystem) where
    -- ManifestCache::get
    unfoldable pub get : ManifestCache → Text → Option (Manifest lib)
    get c path = if not c.enabled then none else elim (fingerprint fs path) [
      | none ↦ none
      | some fp ↦ fresh fp (BtreeMap.get (key digest fs path) c.entries)
    ]

    -- ManifestCache::insert, before it persists
    unfoldable pub insert_entry : ManifestCache → Text → Manifest lib → ManifestCache
    insert_entry c path manifest = if not c.enabled then c else elim (fingerprint fs path) [
      | none ↦ c
      | some fp ↦ record c {
        entries =
            BtreeMap.insert (key digest fs path) (record { fingerprint = fp; manifest = manifest })
              c.entries;
      }
    ]

    -- ManifestCache::invalidate, before it persists
    unfoldable pub invalidate_entry : ManifestCache → Text → ManifestCache
    invalidate_entry c path =
        if not c.enabled
        then c
        else record c { entries = BtreeMap.remove (key digest fs path) c.entries }

  -- ManifestCache::clear, before it persists
  unfoldable pub clear_entries : ManifestCache → ManifestCache
  clear_entries c = if not c.enabled then c else record c { entries = [] }
