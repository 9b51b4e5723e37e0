-- ===== src/Cache/Persist/Atomic.antt =====
-- What a crash or a failure can leave of the cache's file.
use outboard.Prelude.{
  Text, ◌≡◌, ◌≢◌, ◌⊎◌, inl, inr, none, some, ok, arith, nat_eq, [], Option-cases,
}
use outboard.Crates.{Crates}
use outboard.Cache.{ManifestCache, FileCodec, format, load}
use outboard.Cache.Persist.{Faults, Disk, write_file, persist, cache_bytes}

-- After a write of the cache's file that succeeds the file holds the new bytes. After one that
-- fails it is as before, or it is gone: that only where the first rename failed, the old file was
-- removed, and the second rename failed too.
pub write_file-main :
    (f : Faults) (bytes : Text) (d : Disk)
    → (((write_file f bytes d).0 ≡ ok tt) × ((write_file f bytes d).1.main ≡ some bytes))
      ⊎ (((write_file f bytes d).0 ≢ ok tt)
          × (((write_file f bytes d).1.main ≡ d.main)
              ⊎ (((write_file f bytes d).1.main ≡ none)
                  × ((f.rename ≢ none) × ((f.remove ≡ none) × (f.rename_again ≢ none))))))
unfolding write_file
write_file-main f bytes d = elim (Option-cases f.make_parent) [
  | inr (e, p) ↦ ground arith
  | inl p ↦ elim (Option-cases f.write) [
    | inr (e, q) ↦ ground arith
    | inl q ↦ elim (Option-cases f.rename) [
      | inl r ↦ ground arith
      | inr (e, r) ↦ elim (Option-cases d.main) [
        | inl m ↦ ground arith
        | inr (old, m) ↦ elim (Option-cases f.remove) [
          | inr (e', t) ↦ ground arith
          | inl t ↦ elim (Option-cases f.rename_again) [
            | inr (e', u) ↦ ground arith
            | inl u ↦ ground arith
          ]
        ]
      ]
    ]
  ]
]

-- Where the codec reads back what it writes, a cache that is loaded after a persist has the
-- entries that were persisted, the entries the file had before, or none, whatever fails. A
-- persist that succeeds leaves the persisted entries.
pub load-persist :
    (lib : Crates) (codec : FileCodec lib) (f : Faults) (c : ManifestCache lib) (d : Disk)
    (path : Text)
    → c.path ≡ some path
    → codec.from_slice (cache_bytes lib codec c)
      ≡ some (record { format_version = format; entries = c.entries })
    → let before = load lib codec (λ p. d.main) path in
      let after = load lib codec (λ p. (persist lib codec f c d).1.main) path in
      ((after.entries ≡ c.entries) ⊎ ((after.entries ≡ before.entries) ⊎ (after.entries ≡ [])))
      × ((persist lib codec f c d).0 ≡ ok tt → after.entries ≡ c.entries)
unfolding load persist
load-persist lib codec f c d path at reads =
    ground (arith, write_file-main f (cache_bytes lib codec c) d)
