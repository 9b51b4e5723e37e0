-- ===== src/Manifest/Compatibility/Parts.antt =====
-- When each block of `compatibility_issues` reports nothing.
use mathlib.Core.Path.{subst}
use outboard.Prelude.{
  Text, ◌≡◌, ◌≢◌, ◌↔◌, inl, inr, Bool, true, false, not, List, [], ◌∷◌, ◌++◌, map, Option, none,
  some, ◌==◌, ==_iff, nat_eq, list_eq, option_eq, option_beq_iff, find, contains, All, Any,
  text_ord, refl, sym, ◌∙◌, arith, Bool-cases, Option-cases, list_beq_iff, Any-map, Any-of-find,
  find-passes, contains_iff,
}
use outboard.BtreeMap.{BtreeMap, get}
use outboard.Crates.{Crates}
use outboard.Id.{CapabilityId}
use outboard.Manifest.{
  Manifest, InterfaceManifest, Capability, InterfaceRequirement, CapabilityRequirement,
  ExecutionMode, mode_eq, mode_beq, mode_beq_iff, execution_mode, CompatibilityIssue,
}
use outboard.Manifest.Validate.{Distinct, interface_ids, capability_ids}
use outboard.Manifest.Compatibility.{
  Issues, report, interface, capability, name_issues, mode_issues, interface_match,
  interface_issues, version_issues, property_issues, capability_match, capability_issues,
}

no_key_twice {ℓ} :
    {A : Type ℓ} (key : A → Text) (P : A → Type 0) (k : Text) (xs : List A)
    → All (λ z. k ≢ z) (map key xs)
    → Any (λ x. (key x ≡ k) × P x) xs
    → ⊥
no_key_twice key P k [] d h = h
no_key_twice key P k (x ∷ xs) d (inl (e, _)) = d.0 (sym e)
no_key_twice key P k (x ∷ xs) d (inr h) = no_key_twice key P k xs d.1 h

-- Where no two elements have one key, a search by key finds any element that has it.
find_by_key {ℓ} :
    {A : Type ℓ} (key : A → Text) (P : A → Type 0) (k : Text) (xs : List A)
    → Distinct (map key xs)
    → Any (λ x. (key x ≡ k) × P x) xs
    → (x : A) × (find (λ y. key y == k) xs ≡ some x) × P x
find_by_key key P k [] d h = absurd h
find_by_key key P k (y ∷ ys) d (inl (e, p)) = (y, ground (arith, list_beq_iff (key y) k), p)
find_by_key key P k (y ∷ ys) d (inr h) =
    let (x, found, p) = find_by_key key P k ys d.1 h in
    elim (Bool-cases (key y == k)) [
      | inl same ↦
          let e : key y ≡ k = (==_iff (key y) k).0 same in
          absurd (no_key_twice key P k ys (rw e at d.0) h)
      | inr other ↦ (x, ground arith, p)
    ]

module _ (lib : Crates) where
  open lib use {Value, matches, framework_version, protocol_version}

  -- An interface of the required name at an accepted version.
  abbrev pub Provides : Manifest lib → InterfaceRequirement lib → Type 0
  Provides m r =
      Any (λ i. (InterfaceManifest.id i ≡ r.id) × (matches r.version i.version ≡ true)) m.interfaces

  abbrev pub HasVersion : Option lib.VersionReq → Option lib.Version → Type 0
  HasVersion none v = Unit
  HasVersion (some vr) v = (a : lib.Version) × (v ≡ some a) × (matches vr a ≡ true)

  abbrev pub HasProperties : Capability lib → BtreeMap Text Value → Type 0
  HasProperties c props = All (λ (p : Text × Value). get p.0 c.properties ≡ some p.1) props

  -- A capability of the required name, at an accepted version and with the required properties.
  abbrev pub HasCapability : Manifest lib → CapabilityRequirement lib → Type 0
  HasCapability m r =
      Any
        (λ c.
          (Capability.id c ≡ r.id)
          × (HasVersion r.version c.version × HasProperties c r.properties))
        m.capabilities

  pub append-eq-nil : (xs ys : Issues lib) → (xs ++ ys ≡ []) ↔ ((xs ≡ []) × (ys ≡ []))
  append-eq-nil [] ys = (λ h. (refl, h), λ h. h.1)
  append-eq-nil (x ∷ xs) ys = (λ h. cc, λ h. cc (h.0))

  pub report-eq-nil :
      (bad : Bool) (issue : CompatibilityIssue lib)
      → (report lib (not bad) issue ≡ []) ↔ (bad ≡ true)
  report-eq-nil true issue = (λ _. refl, λ _. refl)
  report-eq-nil false issue = (λ h. cc, λ h. cc)

  pub name-eq-nil :
      (wanted : Option Text) (actual : Text)
      → (name_issues lib wanted actual ≡ []) ↔ ((n : Text) → wanted ≡ some n → actual ≡ n)
  unfolding name_issues
  name-eq-nil none actual = (λ _ n e. cc, λ _. refl)
  name-eq-nil (some w) actual = (
    λ h n e. ground (arith, report-eq-nil (actual == w), ==_iff actual w),
    λ h. let same : actual ≡ w = h w refl in ground (arith, ==_iff actual w),
  )

  pub mode-eq-nil :
      (m : Manifest lib) (wanted : Option ExecutionMode)
      → (mode_issues lib m wanted ≡ [])
        ↔ ((x : ExecutionMode) → wanted ≡ some x → Any (λ y. y ≡ x) m.execution)
  unfolding mode_issues
  mode-eq-nil m none = (λ _ x e. cc, λ _. refl)
  mode-eq-nil m (some w) = (
    λ h x e.
        let there : contains m.execution w ≡ true =
          (report-eq-nil (contains m.execution w) (execution_mode w)).0 h in
        let same : w ≡ x = cc in
        Any-map (λ y. mode_beq y w ≡ true) (λ y. y ≡ x) (λ y b. (mode_beq_iff y w).0 b ∙ same)
          m.execution ((contains_iff m.execution w).0 there),
    λ h. (report-eq-nil (contains m.execution w) (execution_mode w)).1 (
        (contains_iff m.execution w).1 (
          Any-map (λ y. y ≡ w) (λ y. mode_beq y w ≡ true) (λ y b. (mode_beq_iff y w).1 b)
            m.execution (h w refl))),
  )

  version-eq-nil :
      (id : CapabilityId) (vr : Option lib.VersionReq) (v : Option lib.Version)
      → (version_issues lib id vr v ≡ []) ↔ HasVersion vr v
  unfolding version_issues
  version-eq-nil id none v = (λ _. tt, λ _. refl)
  version-eq-nil id (some vr) none = (λ h. cc, λ h. cc (h.1))
  version-eq-nil id (some vr) (some v) =
      (λ h. (v, refl, ground arith), λ h. ground (arith, h.1, h.2))

  property-eq-nil :
      (id : CapabilityId) (c : Capability lib) (props : BtreeMap Text Value)
      → (property_issues lib id c props ≡ []) ↔ HasProperties c props
  unfolding property_issues
  property-eq-nil id c [] = (λ _. tt, λ _. refl)
  property-eq-nil id c ((k, expected) ∷ props) = (
    λ h. (
      ground (arith, option_beq_iff ⦃e = lib.value_eq⦄ (get k c.properties) (some expected)),
      (property-eq-nil id c props).0 (ground arith),
    ),
    λ h.
        let later = (property-eq-nil id c props).1 h.1 in
        ground (arith, option_beq_iff ⦃e = lib.value_eq⦄ (get k c.properties) (some expected)),
  )

  interface_match-eq-nil :
      (m : Manifest lib) (r : InterfaceRequirement lib)
      → Distinct (interface_ids lib m)
      → (interface_match lib r (interface lib m r.id) ≡ []) ↔ Provides m r
  unfolding interface_match
  interface_match-eq-nil m r d = (
    λ h. elim (Option-cases (interface lib m r.id)) [
      | inl none_found ↦ ground arith
      | inr (i, found) ↦
          Any-of-find _ (λ x. InterfaceManifest.id x == r.id) m.interfaces found
            ((==_iff i.id r.id).0 (find-passes _ m.interfaces found), ground (arith, found))
    ],
    λ p.
        let (i, found, accepted) =
          find_by_key (λ x. InterfaceManifest.id x) (λ x. matches r.version x.version ≡ true) r.id
            m.interfaces d p in
        ground (arith, found, accepted),
  )

  pub interface-eq-nil :
      (m : Manifest lib) (wanted : Option (InterfaceRequirement lib))
      → Distinct (interface_ids lib m)
      → (interface_issues lib m wanted ≡ [])
        ↔ ((r : InterfaceRequirement lib) → wanted ≡ some r → Provides m r)
  unfolding interface_issues
  interface-eq-nil m none d = (λ _ r e. cc, λ _. refl)
  interface-eq-nil m (some w) d = (
    λ h r e. let same : w ≡ r = cc in subst (Provides m) same ((interface_match-eq-nil m w d).0 h),
    λ h. (interface_match-eq-nil m w d).1 (h w refl),
  )

  capability_match-eq-nil :
      (m : Manifest lib) (r : CapabilityRequirement lib)
      → Distinct (capability_ids lib m)
      → (capability_match lib r (capability lib m r.id) ≡ []) ↔ HasCapability m r
  unfolding capability_match
  capability_match-eq-nil m r d = (
    λ h. elim (Option-cases (capability lib m r.id)) [
      | inl none_found ↦ ground arith
      | inr (c, found) ↦
          let parts = (append-eq-nil _ _).0 (rw found at h) in
          Any-of-find _ (λ x. Capability.id x == r.id) m.capabilities found
            (
              (==_iff c.id r.id).0 (find-passes _ m.capabilities found),
              (
                (version-eq-nil r.id r.version c.version).0 parts.0,
                (property-eq-nil r.id c r.properties).0 parts.1,
              ),
            )
    ],
    λ p.
        let (c, found, has) =
          find_by_key (λ x. Capability.id x)
            (λ x. HasVersion r.version (Capability.version x) × HasProperties x r.properties) r.id
            m.capabilities d p in
        rw found (
          (append-eq-nil _ _).1 (
            (version-eq-nil r.id r.version c.version).1 has.0,
            (property-eq-nil r.id c r.properties).1 has.1,
          )),
  )

  pub capabilities-eq-nil :
      (m : Manifest lib) (rs : List (CapabilityRequirement lib))
      → Distinct (capability_ids lib m)
      → (capability_issues lib m rs ≡ []) ↔ All (HasCapability m) rs
  unfolding capability_issues
  capabilities-eq-nil m [] d = (λ _. tt, λ _. refl)
  capabilities-eq-nil m (r ∷ rs) d = (
    λ h.
        let (here, later) = (append-eq-nil _ _).0 h in
        ((capability_match-eq-nil m r d).0 here, (capabilities-eq-nil m rs d).0 later),
    λ h.
        (append-eq-nil _ _).1
          ((capability_match-eq-nil m r d).1 h.0, (capabilities-eq-nil m rs d).1 h.1),
  )
