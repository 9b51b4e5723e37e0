-- ===== src/Manifest/Equality.antt =====
-- `PartialEq` of crates/outboard-core/src/manifest.rs as it is derived: field by field.
use outboard.Prelude.{
  ◌≡◌, ◌↔◌, Bool, true, false, ◌&&◌, Eq, ◌==◌, ==_iff, nat_eq, list_eq, option_eq, arith,
}
use outboard.Crates.{Crates}
use outboard.Id.{plugin_id_eq}
use outboard.Manifest.{
  mode_eq, ControlCapabilities, PluginMetadata, InterfaceManifest, Capability, Manifest,
}

abbrev bool_beq : Bool → Bool → Bool
bool_beq true b = b
bool_beq false true = false
bool_beq false false = true

pub bool_beq_iff : (a b : Bool) → (bool_beq a b ≡ true) ↔ (a ≡ b)
bool_beq_iff a b = (λ h. ground arith, λ h. ground arith)

instance abbrev bool_eq : Eq Bool
bool_eq = record { equal = bool_beq; equal_iff = bool_beq_iff }

module _ {ℓ κ} {A : Type ℓ} {B : Type κ} ⦃a : Eq A⦄ ⦃b : Eq B⦄ where
  abbrev pair_beq : A × B → A × B → Bool
  pair_beq (x, y) (x', y') = x == x' && y == y'

  pub pair_beq_iff : (p q : A × B) → (pair_beq p q ≡ true) ↔ (p ≡ q)
  pair_beq_iff (x, y) (x', y') =
      (λ h. ground (arith, ==_iff x x', ==_iff y y'), λ h. ground (arith, ==_iff x x', ==_iff y y'))

  instance abbrev pair_eq : Eq (A × B)
  pair_eq = record { equal = pair_beq; equal_iff = pair_beq_iff }

abbrev pub control_beq : ControlCapabilities → ControlCapabilities → Bool
control_beq a b = a.doctor == b.doctor && (a.cli_schema == b.cli_schema && a.ping == b.ping)

pub control_beq_iff : (a b : ControlCapabilities) → (control_beq a b ≡ true) ↔ (a ≡ b)
control_beq_iff a b = (
  λ h. ground (
    arith,
    bool_beq_iff a.doctor b.doctor,
    bool_beq_iff a.cli_schema b.cli_schema,
    bool_beq_iff a.ping b.ping,
  ),
  λ h. ground (
    arith,
    bool_beq_iff a.doctor b.doctor,
    bool_beq_iff a.cli_schema b.cli_schema,
    bool_beq_iff a.ping b.ping,
  ),
)

instance abbrev control_eq : Eq ControlCapabilities
control_eq = record { equal = control_beq; equal_iff = control_beq_iff }

module _ (lib : Crates) where
  abbrev pub metadata_beq : PluginMetadata lib → PluginMetadata lib → Bool
  metadata_beq a b =
      ◌==◌ ⦃e = plugin_id_eq⦄ a.id b.id
      && (◌==◌ ⦃e = lib.version_eq⦄ a.version b.version
          && (◌==◌ ⦃e = option_eq⦄ a.description b.description
              && (◌==◌ ⦃e = option_eq⦄ a.homepage b.homepage)))

  pub metadata_beq_iff : (a b : PluginMetadata lib) → (metadata_beq a b ≡ true) ↔ (a ≡ b)
  metadata_beq_iff a b = (
    λ h. ground (
      arith,
      ==_iff ⦃e = plugin_id_eq⦄ a.id b.id,
      ==_iff ⦃e = lib.version_eq⦄ a.version b.version,
      ==_iff ⦃e = option_eq⦄ a.description b.description,
      ==_iff ⦃e = option_eq⦄ a.homepage b.homepage,
    ),
    λ h. ground (
      arith,
      ==_iff ⦃e = plugin_id_eq⦄ a.id b.id,
      ==_iff ⦃e = lib.version_eq⦄ a.version b.version,
      ==_iff ⦃e = option_eq⦄ a.description b.description,
      ==_iff ⦃e = option_eq⦄ a.homepage b.homepage,
    ),
  )

  instance abbrev pub metadata_eq : Eq (PluginMetadata lib)
  metadata_eq = record { equal = metadata_beq; equal_iff = metadata_beq_iff }

  abbrev pub interface_beq : InterfaceManifest lib → InterfaceManifest lib → Bool
  interface_beq a b =
      ◌==◌ ⦃e = list_eq⦄ a.id b.id && (◌==◌ ⦃e = lib.version_eq⦄ a.version b.version)

  pub interface_beq_iff : (a b : InterfaceManifest lib) → (interface_beq a b ≡ true) ↔ (a ≡ b)
  interface_beq_iff a b = (
    λ h.
        ground
          (arith, ==_iff ⦃e = list_eq⦄ a.id b.id, ==_iff ⦃e = lib.version_eq⦄ a.version b.version),
    λ h.
        ground
          (arith, ==_iff ⦃e = list_eq⦄ a.id b.id, ==_iff ⦃e = lib.version_eq⦄ a.version b.version),
  )

  instance abbrev pub interface_eq : Eq (InterfaceManifest lib)
  interface_eq = record { equal = interface_beq; equal_iff = interface_beq_iff }

  abbrev pub capability_beq : Capability lib → Capability lib → Bool
  capability_beq a b =
      ◌==◌ ⦃e = list_eq⦄ a.id b.id
      && (◌==◌ ⦃e = option_eq ⦃e = lib.version_eq⦄⦄ a.version b.version
          && (◌==◌ ⦃e = list_eq ⦃e = pair_eq ⦃a = list_eq⦄ ⦃b = lib.value_eq⦄⦄⦄ a.properties
              b.properties))

  pub capability_beq_iff : (a b : Capability lib) → (capability_beq a b ≡ true) ↔ (a ≡ b)
  capability_beq_iff a b = (
    λ h. ground (
      arith,
      ==_iff ⦃e = list_eq⦄ a.id b.id,
      ==_iff ⦃e = option_eq ⦃e = lib.version_eq⦄⦄ a.version b.version,
      ==_iff ⦃e = list_eq ⦃e = pair_eq ⦃a = list_eq⦄ ⦃b = lib.value_eq⦄⦄⦄ a.properties b.properties,
    ),
    λ h. ground (
      arith,
      ==_iff ⦃e = list_eq⦄ a.id b.id,
      ==_iff ⦃e = option_eq ⦃e = lib.version_eq⦄⦄ a.version b.version,
      ==_iff ⦃e = list_eq ⦃e = pair_eq ⦃a = list_eq⦄ ⦃b = lib.value_eq⦄⦄⦄ a.properties b.properties,
    ),
  )

  instance abbrev pub capability_eq : Eq (Capability lib)
  capability_eq = record { equal = capability_beq; equal_iff = capability_beq_iff }

  abbrev pub manifest_beq : Manifest lib → Manifest lib → Bool
  manifest_beq a b =
      ◌==◌ ⦃e = nat_eq⦄ a.version b.version
      && (◌==◌ ⦃e = metadata_eq⦄ a.plugin b.plugin
          && (◌==◌ ⦃e = lib.req_eq⦄ a.framework b.framework
              && (◌==◌ ⦃e = lib.req_eq⦄ a.worker_protocol b.worker_protocol
                  && (◌==◌ ⦃e = list_eq ⦃e = interface_eq⦄⦄ a.interfaces b.interfaces
                      && (◌==◌ ⦃e = list_eq ⦃e = mode_eq⦄⦄ a.execution b.execution
                          && (◌==◌ ⦃e = list_eq ⦃e = capability_eq⦄⦄ a.capabilities b.capabilities
                              && (◌==◌ ⦃e = control_eq⦄ a.control b.control
                                  && (◌==◌
                                      ⦃e = list_eq ⦃e = pair_eq ⦃a = list_eq⦄ ⦃b = lib.value_eq⦄⦄⦄
                                      a.metadata b.metadata))))))))

  pub manifest_beq_iff : (a b : Manifest lib) → (manifest_beq a b ≡ true) ↔ (a ≡ b)
  manifest_beq_iff a b = (
    λ h. ground (
      arith,
      ==_iff ⦃e = nat_eq⦄ a.version b.version,
      ==_iff ⦃e = metadata_eq⦄ a.plugin b.plugin,
      ==_iff ⦃e = lib.req_eq⦄ a.framework b.framework,
      ==_iff ⦃e = lib.req_eq⦄ a.worker_protocol b.worker_protocol,
      ==_iff ⦃e = list_eq ⦃e = interface_eq⦄⦄ a.interfaces b.interfaces,
      ==_iff ⦃e = list_eq ⦃e = mode_eq⦄⦄ a.execution b.execution,
      ==_iff ⦃e = list_eq ⦃e = capability_eq⦄⦄ a.capabilities b.capabilities,
      ==_iff ⦃e = control_eq⦄ a.control b.control,
      ==_iff ⦃e = list_eq ⦃e = pair_eq ⦃a = list_eq⦄ ⦃b = lib.value_eq⦄⦄⦄ a.metadata b.metadata,
    ),
    λ h. ground (
      arith,
      ==_iff ⦃e = nat_eq⦄ a.version b.version,
      ==_iff ⦃e = metadata_eq⦄ a.plugin b.plugin,
      ==_iff ⦃e = lib.req_eq⦄ a.framework b.framework,
      ==_iff ⦃e = lib.req_eq⦄ a.worker_protocol b.worker_protocol,
      ==_iff ⦃e = list_eq ⦃e = interface_eq⦄⦄ a.interfaces b.interfaces,
      ==_iff ⦃e = list_eq ⦃e = mode_eq⦄⦄ a.execution b.execution,
      ==_iff ⦃e = list_eq ⦃e = capability_eq⦄⦄ a.capabilities b.capabilities,
      ==_iff ⦃e = control_eq⦄ a.control b.control,
      ==_iff ⦃e = list_eq ⦃e = pair_eq ⦃a = list_eq⦄ ⦃b = lib.value_eq⦄⦄⦄ a.metadata b.metadata,
    ),
  )

  instance abbrev pub manifest_eq : Eq (Manifest lib)
  manifest_eq = record { equal = manifest_beq; equal_iff = manifest_beq_iff }
