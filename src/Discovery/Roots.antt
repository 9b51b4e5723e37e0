-- ===== src/Discovery/Roots.antt =====
-- `build_roots` of crates/outboard-core/src/discovery.rs: where discovery looks, in which order.
use mathlib.Core.List.{append-nil, append_assoc}
use outboard.Prelude.{
  Option-cases, sym, subst, Text, codes, ◌≡◌, List, [], ◌∷◌, ◌++◌, map, Option, none, some, Bool,
  true, false, ◌==◌, ==_refl, nat_eq, list_eq, if◌then◌else◌, any, any_iff, All, Any, Bool-cases,
  inl, inr, ◌∙◌, Any-append_left, Any-append_right,
}
use outboard.FileSystem.{FileSystem, same_file, components}
use outboard.Discovery.{DiscoverySource, explicit_path, path, environment, SearchRoot}

-- std::env::split_paths on Unix
split_from : Text → Text → List Text
split_from cur [] = cur ∷ []
split_from cur (c ∷ s) =
    let closed = cur ∷ split_from [] s in
    let longer = split_from (cur ++ c ∷ []) s in if c == b':' then closed else longer

unfoldable pub split_paths : Text → List Text
unfolding split_from
split_paths s = split_from [] s

abbrev pub roots_from : DiscoverySource → List Text → List SearchRoot
roots_from source paths = map (λ p. record { path = p; source = source }) paths

-- The paths that a variable lists, none where it is not set.
abbrev pub listed_in : Option Text → List Text
listed_in none = []
listed_in (some v) = split_paths v

-- `var_os` is std::env::var_os.
module _ (fs : FileSystem) (var_os : Text → Option Text) where
  abbrev env_roots : Option Text → List SearchRoot
  env_roots none = []
  env_roots (some var) = roots_from (environment var) (listed_in (var_os var))

  abbrev path_roots : Bool → List SearchRoot
  path_roots include_path =
      if include_path then roots_from path (listed_in (var_os (codes "PATH"))) else []

  -- The first half: explicit paths, then the variable's, then those of PATH.
  unfoldable pub collect_roots : List Text → Option Text → Bool → List SearchRoot
  collect_roots explicit env include_path =
      roots_from explicit_path explicit ++ (env_roots env ++ path_roots include_path)

  abbrev pub known : List SearchRoot → SearchRoot → Bool
  known out x = any (λ e. same_file fs (SearchRoot.path e) x.path) out

  -- The second half: a root that is the same file as one before is dropped.
  unfoldable pub dedupe : List SearchRoot → List SearchRoot → List SearchRoot
  dedupe out [] = out
  dedupe out (x ∷ r) = dedupe (if known out x then out else out ++ x ∷ []) r

  unfoldable pub build_roots : List Text → Option Text → Bool → List SearchRoot
  build_roots explicit env include_path = dedupe [] (collect_roots explicit env include_path)

  -- No root is the same file as one before it.
  abbrev pub IsDeduped : List SearchRoot → List SearchRoot → Type 0
  IsDeduped before [] = Unit
  IsDeduped before (x ∷ xs) = (known before x ≡ false) × IsDeduped (before ++ x ∷ []) xs

  IsDeduped-append :
      (before xs : List SearchRoot) (x : SearchRoot)
      → IsDeduped before xs
      → known (before ++ xs) x ≡ false
      → IsDeduped before (xs ++ x ∷ [])
  IsDeduped-append before [] x h k = (rw append-nil at k, tt)
  IsDeduped-append before (y ∷ ys) x h k =
      (h.0, IsDeduped-append (before ++ y ∷ []) ys x h.1 (rw append_assoc k))

  dedupe-IsDeduped : (out r : List SearchRoot) → IsDeduped [] out → IsDeduped [] (dedupe out r)
  unfolding dedupe
  dedupe-IsDeduped out [] h = h
  dedupe-IsDeduped out (x ∷ r) h = elim (Bool-cases (known out x)) [
    | inl old ↦ rw old (dedupe-IsDeduped out r h)
    | inr new ↦ rw new (dedupe-IsDeduped (out ++ x ∷ []) r (IsDeduped-append [] out x h new))
  ]

  same_file_refl : (p : Text) → same_file fs p p ≡ true
  unfolding same_file
  same_file_refl p = elim (Option-cases (fs.canonicalize p)) [
    | inl bare ↦ rw bare (==_refl (components p))
    | inr (q, there) ↦ rw there (==_refl (components q))
  ]

  -- A root of which the list has the same file.
  abbrev pub Covered : List SearchRoot → SearchRoot → Type 0
  Covered out x = Any (λ e. same_file fs (SearchRoot.path e) x.path ≡ true) out

  dedupe-Covered_kept :
      (out r : List SearchRoot) (x : SearchRoot) → Covered out x → Covered (dedupe out r) x
  unfolding dedupe
  dedupe-Covered_kept out [] x h = h
  dedupe-Covered_kept out (y ∷ r) x h = elim (Bool-cases (known out y)) [
    | inl old ↦ rw old (dedupe-Covered_kept out r x h)
    | inr new ↦ rw new (
        dedupe-Covered_kept (out ++ y ∷ []) r x
          (Any-append_left (λ e. same_file fs (SearchRoot.path e) x.path ≡ true) out (y ∷ []) h))
  ]

  dedupe-old :
      (out r : List SearchRoot) (x : SearchRoot)
      → known out x ≡ true
      → dedupe out (x ∷ r) ≡ dedupe out r
  unfolding dedupe
  dedupe-old out r x old = rw old

  dedupe-new :
      (out r : List SearchRoot) (x : SearchRoot)
      → known out x ≡ false
      → dedupe out (x ∷ r) ≡ dedupe (out ++ x ∷ []) r
  unfolding dedupe
  dedupe-new out r x new = rw new

  dedupe-Covered : (out r : List SearchRoot) → All (Covered (dedupe out r)) r
  dedupe-Covered out [] = tt
  dedupe-Covered out (x ∷ r) = elim (Bool-cases (known out x)) [
    | inl old ↦
        subst (λ l. All (Covered l) (x ∷ r)) (sym (dedupe-old out r x old))
          (dedupe-Covered_kept out r x ((any_iff _ out).0 old), dedupe-Covered out r)
    | inr new ↦
        subst (λ l. All (Covered l) (x ∷ r)) (sym (dedupe-new out r x new))
          (
            dedupe-Covered_kept (out ++ x ∷ []) r x (
                Any-append_right (λ e. same_file fs (SearchRoot.path e) x.path ≡ true) out (x ∷ [])
                  (inl (same_file_refl x.path))),
            dedupe-Covered (out ++ x ∷ []) r,
          )
  ]

  -- Of the roots searched none is the same file as one before it, and every path of the explicit
  -- list, of the variable and of PATH is the same file as a root that is searched.
  pub build_roots_lem :
      (explicit : List Text) (env : Option Text) (include_path : Bool)
      → IsDeduped [] (build_roots explicit env include_path)
        × All
            (Covered (build_roots explicit env include_path))
            (collect_roots explicit env include_path)
  unfolding build_roots
  build_roots_lem explicit env include_path = (
    dedupe-IsDeduped [] (collect_roots explicit env include_path) tt,
    dedupe-Covered [] (collect_roots explicit env include_path),
  )

  dedupe-starts :
      (out r : List SearchRoot) → (rest : List SearchRoot) × (dedupe out r ≡ out ++ rest)
  dedupe-starts out [] = ([], unfold dedupe in rw append-nil)
  dedupe-starts out (x ∷ r) = elim (Bool-cases (known out x)) [
    | inl old ↦ let (rest, e) = dedupe-starts out r in (rest, dedupe-old out r x old ∙ e)
    | inr new ↦
        let (rest, e) = dedupe-starts (out ++ x ∷ []) r in
        (x ∷ rest, dedupe-new out r x new ∙ e ∙ append_assoc out (x ∷ []) rest)
  ]

  -- The first explicit path is searched first.
  pub build_roots-cons :
      (p : Text) (explicit : List Text) (env : Option Text) (include_path : Bool)
      → (rest : List SearchRoot) × (build_roots (p ∷ explicit) env include_path
          ≡ record { path = p; source = explicit_path } ∷ rest)
  unfolding build_roots collect_roots dedupe
  build_roots-cons p explicit env include_path =
      dedupe-starts (record { path = p; source = explicit_path } ∷ [])
        (roots_from explicit_path explicit ++ (env_roots env ++ path_roots include_path))
