-- ===== src/Cache/Persist.antt =====
-- `persist` of crates/outboard-core/src/cache.rs, and the operations that end with it.
pub mod Atomic
use outboard.Prelude.{
  ℕ, Text, ◌≡◌, Option, none, some, Bool, true, false, not, if◌then◌else◌, Result, ok, err, List,
  [], ◌∷◌,
}
use outboard.Crates.{Crates}
use outboard.FileSystem.{FileSystem, ErrorKind}
use outboard.Manifest.{Manifest}
use outboard.Cache.{
  ManifestCache, CacheFile, FileCodec, format, fingerprint, insert_entry, invalidate_entry,
  clear_entries,
}

-- What the file operations of one `persist` answer: `none` where one succeeds.
pub record Faults : Type 0 where
  -- create_dir_all of the parent, if there is one
  pub make_parent : Option ErrorKind
  -- write of the temporary file, and what it holds where that fails
  pub write : Option ErrorKind
  pub left_over : Option Text
  pub rename : Option ErrorKind
  pub remove : Option ErrorKind
  pub rename_again : Option ErrorKind

-- The contents of the cache's file and of the temporary file beside it.
pub record Disk : Type 0 where
  pub main : Option Text
  pub tmp : Option Text

abbrev pub Persisted : Type 0
Persisted = Result (Unit {0}) ErrorKind × Disk

-- The temporary file takes the place of the file.
abbrev moved : Disk → Disk
moved d = record { main = d.tmp; tmp = none }

abbrev rename_last : Faults → Disk → Persisted
rename_last f d = elim f.rename_again [ none ↦ (ok tt, moved d) | some e ↦ (err e, d) ]

-- `Err(_) if path.exists()`, and the other error
abbrev replace : Faults → ErrorKind → Disk → Persisted
replace f e d = elim d.main [
  | none ↦ (err e, d)
  | some old ↦ elim f.remove [
    | some e' ↦ (err e', d)
    | none ↦ rename_last f (record d { main = none })
  ]
]

abbrev rename_first : Faults → Disk → Persisted
rename_first f d = elim f.rename [ none ↦ (ok tt, moved d) | some e ↦ replace f e d ]

unfoldable pub write_file : Faults → Text → Disk → Persisted
write_file f bytes d = elim f.make_parent [
  | some e ↦ (err e, d)
  | none ↦ elim f.write [
    | some e ↦ (err e, record d { tmp = f.left_over })
    | none ↦ rename_first f (record d { tmp = some bytes })
  ]
]

module _ (lib : Crates) where
  pub record Store : Type 0 where
    pub cache : ManifestCache lib
    pub disk : Disk

module _ (lib : Crates) (codec : FileCodec lib) where
  abbrev pub cache_bytes : ManifestCache lib → Text
  cache_bytes c = codec.to_vec_pretty (record { format_version = format; entries = c.entries })

  -- ManifestCache::persist
  unfoldable pub persist : Faults → ManifestCache lib → Disk → Persisted
  persist f c d = elim c.path [ none ↦ (ok tt, d) | some path ↦ write_file f (cache_bytes c) d ]

  -- `let _ = self.persist()` after a change
  abbrev saved : Faults → Store lib → ManifestCache lib → Store lib
  saved f s c = record { cache = c; disk = (persist f c s.disk).1 }

  module _ (digest : Text → Text) (fs : FileSystem) (f : Faults) where
    -- ManifestCache::insert
    unfoldable pub insert : Store lib → Text → Manifest lib → Store lib
    insert s path manifest = if not s.cache.enabled then s else elim (fingerprint fs path) [
      | none ↦ s
      | some fp ↦ saved f s (insert_entry lib digest fs s.cache path manifest)
    ]

    -- ManifestCache::invalidate
    unfoldable pub invalidate : Store lib → Text → Store lib
    invalidate s path =
        if not s.cache.enabled then s else saved f s (invalidate_entry lib digest fs s.cache path)

    -- ManifestCache::clear
    unfoldable pub clear : Store lib → Store lib
    clear s = if not s.cache.enabled then s else saved f s (clear_entries lib s.cache)
