-- ===== src/Tests/Keeping.antt =====
-- Examples for the cache and its file.
use outboard.Prelude.{
  Text, codes, ◌≡◌, ◌⊎◌, refl, [], ◌∷◌, none, some, true, ok, if◌then◌else◌, and_then, ◌==◌, nat_eq,
  list_eq, text_ord,
}
use outboard.BtreeMap.{same_key}
use outboard.Tests.{crates, tool, files, tool_path}
use outboard.FileSystem.{other}
use outboard.Cache
use outboard.Cache.{
  ManifestCache, CacheFile, FileCodec, CachedEntry, Fingerprint, fingerprint, fingerprint_beq, key,
  format, load, in_memory, insert_entry, invalidate_entry, clear_entries,
}
use outboard.Cache.Laws.{get-insert_entry}
use outboard.Cache.Persist.{Faults, Disk, persist}
use outboard.Cache.Persist.Atomic.{load-persist}

abbrev same : Text → Text
same t = t

abbrev print : Fingerprint
print = record { len = 9; modified_nanos = 5 }

abbrev entry : CachedEntry crates
entry = record { fingerprint = print; manifest = tool }

abbrev kept : ManifestCache crates
kept = record { enabled = true; path = some (codes "c.json"); entries = (tool_path, entry) ∷ [] }

get-insert_entry_example :
    Cache.get crates same files
      (insert_entry crates same files (in_memory crates true) tool_path tool)
      tool_path
    ≡ (if same_key (key same files tool_path) (key same files tool_path)
        then and_then
            (fingerprint files tool_path)
            (λ now. if fingerprint_beq print now then some tool else none)
        else Cache.get crates same files (in_memory crates true) tool_path)
unfolding fingerprint
get-insert_entry_example =
    get-insert_entry crates same files files (in_memory crates true) tool_path tool_path tool print
      refl refl

-- Both renames fail, and the file can be removed.
abbrev unlucky : Faults
unlucky = record {
  make_parent = none;
  write = none;
  left_over = none;
  rename = some (other 1);
  remove = none;
  rename_again = some (other 2);
}

abbrev before : Disk
before = record { main = some (codes "old"); tmp = none }

-- A codec for the one file that is written.
abbrev one_file : FileCodec crates
one_file = record {
  to_vec_pretty = λ f. codes "file";
  from_slice = λ b.
      if b == codes "file"
      then some (record { format_version = format; entries = kept.entries })
      else none;
}

load-persist_example :
    (((load crates one_file
          (λ p. (persist crates one_file unlucky kept before).1.main)
          (codes "c.json")).entries
        ≡ kept.entries)
      ⊎ (((load crates one_file
              (λ p. (persist crates one_file unlucky kept before).1.main)
              (codes "c.json")).entries
            ≡ (load crates one_file (λ p. before.main) (codes "c.json")).entries)
          ⊎ ((load crates one_file
                (λ p. (persist crates one_file unlucky kept before).1.main)
                (codes "c.json")).entries
              ≡ [])))
    × ((persist crates one_file unlucky kept before).0 ≡ ok tt
        → (load crates one_file
            (λ p. (persist crates one_file unlucky kept before).1.main)
            (codes "c.json")).entries
          ≡ kept.entries)
load-persist_example = load-persist crates one_file unlucky kept before (codes "c.json") refl refl
