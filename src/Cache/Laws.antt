-- ===== src/Cache/Laws.antt =====
-- What the cache answers after each of its operations.
use outboard.Prelude.{
  Text, ◌≡◌, none, some, true, false, if◌then◌else◌, arith, and_then, nat_eq, list_eq, text_ord,
}
use outboard.BtreeMap.{same_key, get-insert, get-remove, get-empty}
use outboard.Crates.{Crates}
use outboard.FileSystem.{FileSystem}
use outboard.Manifest.{Manifest}
use outboard.Cache.{
  ManifestCache, Fingerprint, fingerprint, fingerprint_beq, key, get, insert_entry,
  invalidate_entry, clear_entries, CachedEntry,
}

module _ (lib : Crates) (digest : Text → Text) where
  -- After the manifest of an executable is kept in a cache that is enabled, the answer for a path
  -- with the same key is that manifest as long as the fingerprint is the one the executable had
  -- then, and none once it has another or cannot be read. The answer for another key is as before.
  pub get-insert_entry :
      (fs later : FileSystem) (c : ManifestCache lib) (path other : Text) (m : Manifest lib)
      (fp : Fingerprint)
      → c.enabled ≡ true
      → fingerprint fs path ≡ some fp
      → get lib digest later (insert_entry lib digest fs c path m) other ≡ (
          if same_key (key digest fs path) (key digest later other)
          then and_then
              (fingerprint later other)
              (λ now. if fingerprint_beq fp now then some m else none)
          else get lib digest later c other)
  unfolding get insert_entry
  get-insert_entry fs later c path other m fp on seen = ground (
    arith,
    get-insert (key digest fs path) (key digest later other)
        (record { fingerprint = fp; manifest = m }) c.entries,
  )

  -- A disabled cache answers nothing, and no operation changes it.
  pub disabled_cache :
      (fs : FileSystem) (c : ManifestCache lib) (path : Text) (m : Manifest lib)
      → c.enabled ≡ false
      → (get lib digest fs c path ≡ none)
        × ((insert_entry lib digest fs c path m ≡ c)
            × ((invalidate_entry lib digest fs c path ≡ c) × (clear_entries lib c ≡ c)))
  unfolding get insert_entry invalidate_entry clear_entries
  disabled_cache fs c path m off = ground arith

  pub get-clear_entries :
      (fs : FileSystem) (c : ManifestCache lib) (path : Text)
      → get lib digest fs (clear_entries lib c) path ≡ none
  unfolding get clear_entries
  get-clear_entries fs c path = ground (arith, get-empty {V = CachedEntry lib} (key digest fs path))

  -- After the entry of an executable is dropped, the cache has no answer for it, and answers as
  -- before for an executable with another key.
  pub get-invalidate_entry :
      (fs later : FileSystem) (c : ManifestCache lib) (path other : Text)
      → get lib digest later (invalidate_entry lib digest fs c path) other ≡ (
          if same_key (key digest fs path) (key digest later other)
          then none
          else get lib digest later c other)
  unfolding get invalidate_entry
  get-invalidate_entry fs later c path other =
      ground (arith, get-remove (key digest fs path) (key digest later other) c.entries)
