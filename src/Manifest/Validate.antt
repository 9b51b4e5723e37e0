-- ===== src/Manifest/Validate.antt =====
-- `Manifest::validate` of crates/outboard-core/src/manifest.rs, and what it accepts.
use outboard.Prelude.{
  Text, String, ◌≡◌, ◌≢◌, ◌↔◌, true, false, not, List, [], ◌∷◌, map, ◌==◌, nat_eq, list_eq,
  if◌then◌else◌, is_empty, contains, All, Result, ok, err, ◌>>=◌, ◌>>◌, map_err, refl, arith,
  Bool-cases, inl, inr, list_beq_iff,
}
use outboard.Crates.{Crates}
use outboard.Id.{new_id, new_plugin_id}
use outboard.Id.Valid.{
  IsIdentifier, IsPluginId, new_id_iff, new_plugin_id_iff, new_id-cases, new_plugin_id-cases,
}
use outboard.Manifest.{
  Manifest, ManifestError, unsupported_manifest_version, missing_execution_mode,
  duplicate_interface, duplicate_capability, invalid_identifier, manifest_version,
  InterfaceManifest, Capability,
}

-- The loop over the identifiers of one list, `seen` being the set of those before.
unfoldable pub check_ids :
    String → (Text → ManifestError) → List Text → List Text → Result (Unit {0}) ManifestError
check_ids kind duplicate seen [] = ok tt
check_ids kind duplicate seen (id ∷ ids) = do
  checked ← map_err invalid_identifier (new_id kind true id)
  if contains seen id then err (duplicate id) else check_ids kind duplicate (id ∷ seen) ids

module _ (lib : Crates) where
  abbrev pub interface_ids : Manifest lib → List Text
  interface_ids m = map (λ i. InterfaceManifest.id i) m.interfaces

  abbrev pub capability_ids : Manifest lib → List Text
  capability_ids m = map (λ c. Capability.id c) m.capabilities

  unfoldable pub validate : Manifest lib → Result (Unit {0}) ManifestError
  validate m =
      if not (m.version == manifest_version)
      then err (unsupported_manifest_version m.version)
      else do
        id ←
            map_err invalid_identifier
              (new_plugin_id m.plugin.id.namespace m.plugin.id.kind m.plugin.id.name)
        if is_empty m.execution then err missing_execution_mode else do
          check_ids "interface" duplicate_interface [] (interface_ids m)
          check_ids "capability" duplicate_capability [] (capability_ids m)

-- No two elements are equal.
abbrev pub Distinct {ℓ} : {A : Type ℓ} → List A → Type ℓ
Distinct [] = Unit
Distinct (x ∷ xs) = All (λ y. x ≢ y) xs × Distinct xs

-- None of the identifiers was seen before.
abbrev Unseen : List Text → List Text → Type 0
Unseen seen ids = All (λ y. contains seen y ≡ false) ids

Unseen-cons :
    (seen : List Text) (id : Text) (ids : List Text)
    → Unseen (id ∷ seen) ids ↔ (All (λ y. id ≢ y) ids × Unseen seen ids)
Unseen-cons seen id [] = (λ _. (tt, tt), λ _. tt)
Unseen-cons seen id (y ∷ ids) = (
  λ h.
      let (differ, rest) = (Unseen-cons seen id ids).0 h.1 in
      ((ground (arith, list_beq_iff id y), differ), (ground arith, rest)),
  λ h. (ground (arith, list_beq_iff id y), (Unseen-cons seen id ids).1 (h.0.1, h.1.1)),
)

Unseen-nil : (ids : List Text) → Unseen [] ids
Unseen-nil [] = tt
Unseen-nil (y ∷ ids) = (refl, Unseen-nil ids)

module _ (kind : String) (duplicate : Text → ManifestError) where
  check_ids_sound :
      (seen ids : List Text)
      → check_ids kind duplicate seen ids ≡ ok tt
      → All (IsIdentifier true) ids × Unseen seen ids × Distinct ids
  unfolding check_ids
  check_ids_sound seen [] h = (tt, tt, tt)
  check_ids_sound seen (id ∷ ids) h = elim (new_id-cases kind true id) [
    | inr (e, p) ↦ cc (p, h)
    | inl p ↦ elim (Bool-cases (contains seen id)) [
      | inl old ↦ ground arith
      | inr new ↦
          let (valid, unseen, distinct) = check_ids_sound (id ∷ seen) ids (ground arith) in
          let (differ, rest) = (Unseen-cons seen id ids).0 unseen in
          (((new_id_iff kind true id).0 p, valid), (new, rest), (differ, distinct))
    ]
  ]

  check_ids_complete :
      (seen ids : List Text)
      → All (IsIdentifier true) ids
      → Unseen seen ids
      → Distinct ids
      → check_ids kind duplicate seen ids ≡ ok tt
  unfolding check_ids
  check_ids_complete seen [] v u d = refl
  check_ids_complete seen (id ∷ ids) v u d =
      let later =
        check_ids_complete (id ∷ seen) ids v.1 ((Unseen-cons seen id ids).1 (d.0, u.1)) d.1 in
      let here = (new_id_iff kind true id).1 v.0 in ground arith

module _ (lib : Crates) where
  -- A manifest of the supported version with a valid identity and at least one execution mode,
  -- whose interfaces and whose capabilities have valid identifiers, no two the same.
  pub record IsValid (m : Manifest lib) : Type 0 where
    pub supported : m.version ≡ manifest_version
    pub identity : IsPluginId m.plugin.id
    pub runs : m.execution ≢ []
    pub interface_ids_valid : All (IsIdentifier true) (interface_ids lib m)
    pub interface_ids_distinct : Distinct (interface_ids lib m)
    pub capability_ids_valid : All (IsIdentifier true) (capability_ids lib m)
    pub capability_ids_distinct : Distinct (capability_ids lib m)

  validate_sound : (m : Manifest lib) → validate lib m ≡ ok tt → IsValid m
  unfolding validate
  validate_sound m h = elim (new_plugin_id-cases m.plugin.id) [
    | inr (e, p) ↦ ground arith
    | inl p ↦
        let loops : (check_ids "interface" duplicate_interface [] (interface_ids lib m) ≡ ok tt)
            × (check_ids "capability" duplicate_capability [] (capability_ids lib m) ≡ ok tt) =
          (ground arith, ground arith) in
        let (iv, iu, id) = check_ids_sound "interface" duplicate_interface [] _ loops.0 in
        let (cv, cu, cd) = check_ids_sound "capability" duplicate_capability [] _ loops.1 in
        record {
          supported = ground arith;
          identity = (new_plugin_id_iff m.plugin.id).0 p;
          runs = λ e. ground arith;
          interface_ids_valid = iv;
          interface_ids_distinct = id;
          capability_ids_valid = cv;
          capability_ids_distinct = cd;
        }
  ]

  validate_complete : (m : Manifest lib) → IsValid m → validate lib m ≡ ok tt
  unfolding validate
  validate_complete m v =
      let id = (new_plugin_id_iff m.plugin.id).1 v.identity in
      let is =
        check_ids_complete "interface" duplicate_interface [] (interface_ids lib m)
          v.interface_ids_valid (Unseen-nil _) v.interface_ids_distinct in
      let cs =
        check_ids_complete "capability" duplicate_capability [] (capability_ids lib m)
          v.capability_ids_valid (Unseen-nil _) v.capability_ids_distinct in
      ground (arith, v.supported, v.runs)

  -- `Manifest::validate` accepts exactly the valid manifests.
  pub validate_iff : (m : Manifest lib) → (validate lib m ≡ ok tt) ↔ IsValid m
  validate_iff m = (validate_sound m, validate_complete m)
