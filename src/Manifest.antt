-- ===== src/Manifest.antt =====
-- crates/outboard-core/src/manifest.rs: manifests, requirements and the checks between them.
pub mod Validate
pub mod Compatibility
pub mod Builder
pub mod Equality
use outboard.Prelude.{
  ℕ, Text, ◌≡◌, Bool, true, false, not, ◌&&◌, List, [], ◌∷◌, ◌++◌, map, Option, none, some, Eq,
  ◌==◌, nat_eq, list_eq, option_eq, if◌then◌else◌, find, is_empty, contains, Result, ok, err, ◌>>=◌,
  ◌>>◌, map_err, text_ord, String, arith, ◌↔◌,
}
use outboard.BtreeMap.{BtreeMap, get, insert}
use outboard.Crates.{Crates}
use outboard.Id.{
  IdentifierError, PluginId, PluginKind, PluginName, InterfaceId, CapabilityId, new_id,
  new_interface_id, new_capability_id, new_plugin_id, new_plugin_kind, new_plugin_name,
  plugin_id_eq,
}

pub data ExecutionMode : Type 0 where
  one_shot worker : ExecutionMode

abbrev pub mode_beq : ExecutionMode → ExecutionMode → Bool
mode_beq one_shot one_shot = true
mode_beq worker worker = true
mode_beq _ _ = false

pub mode_beq_iff : (a b : ExecutionMode) → (mode_beq a b ≡ true) ↔ (a ≡ b)
mode_beq_iff a b = (λ h. ground arith, λ h. ground arith)

instance abbrev pub mode_eq : Eq ExecutionMode
mode_eq = record { equal = mode_beq; equal_iff = mode_beq_iff }

-- const MANIFEST_VERSION, a u32
abbrev pub manifest_version : ℕ
manifest_version = 1

pub record ControlCapabilities : Type 0 where
  pub doctor : Bool
  pub cli_schema : Bool
  pub ping : Bool

-- ControlCapabilities::default
unfoldable pub default_control : ControlCapabilities
default_control = record { doctor = true; cli_schema = false; ping = true }

pub data ManifestError : Type 0 where
  unsupported_manifest_version : ℕ → ManifestError
  missing_execution_mode : ManifestError
  duplicate_interface : Text → ManifestError
  duplicate_capability : Text → ManifestError
  invalid_identifier : IdentifierError → ManifestError

module _ (lib : Crates) where
  open lib use {Version, VersionReq, Value}

  pub record PluginMetadata : Type 0 where
    pub id : PluginId
    pub version : Version
    pub description : Option Text
    pub homepage : Option Text

  pub record InterfaceManifest : Type 0 where
    pub id : InterfaceId
    pub version : Version

  pub record Capability : Type 0 where
    pub id : CapabilityId
    pub version : Option Version
    pub properties : BtreeMap Text Value

  pub record Manifest : Type 0 where
    pub version : ℕ
    pub plugin : PluginMetadata
    pub framework : VersionReq
    pub worker_protocol : VersionReq
    pub interfaces : List InterfaceManifest
    pub execution : List ExecutionMode
    pub capabilities : List Capability
    pub control : ControlCapabilities
    pub metadata : BtreeMap Text Value

  pub record InterfaceRequirement : Type 0 where
    pub id : InterfaceId
    pub version : VersionReq

  pub record CapabilityRequirement : Type 0 where
    pub id : CapabilityId
    pub version : Option VersionReq
    pub properties : BtreeMap Text Value

  pub record PluginRequirement : Type 0 where
    pub kind : PluginKind
    pub name : Option PluginName
    pub interface : Option InterfaceRequirement
    pub capabilities : List CapabilityRequirement
    pub execution : Option ExecutionMode

  pub data CompatibilityIssue : Type 0 where
    framework : (plugin_accepts : VersionReq) (host : Version) → CompatibilityIssue
    worker_protocol : (plugin_accepts : VersionReq) (host : Version) → CompatibilityIssue
    wrong_name : (expected actual : PluginName) → CompatibilityIssue
    wrong_kind : (expected actual : PluginKind) → CompatibilityIssue
    execution_mode : ExecutionMode → CompatibilityIssue
    missing_interface : InterfaceId → CompatibilityIssue
    interface_version :
        (id : InterfaceId) (required : VersionReq) (actual : Version) → CompatibilityIssue
    missing_capability : CapabilityId → CompatibilityIssue
    capability_version :
        (id : CapabilityId) (required : VersionReq) (actual : Option Version) → CompatibilityIssue
    capability_property :
        (id : CapabilityId) (key : Text) (expected : Value) (actual : Option Value)
        → CompatibilityIssue
