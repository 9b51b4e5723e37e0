-- ===== src/Manifest/Builder.antt =====
-- `ManifestBuilder` and the builders of capabilities and requirements, of
-- crates/outboard-core/src/manifest.rs. A builder is the value that it holds.
pub mod Built
use outboard.Prelude.{
  Text, ◌≡◌, List, [], ◌∷◌, ◌++◌, Option, none, some, Result, ok, err, ◌>>=◌, ◌>>◌, text_ord,
}
use outboard.BtreeMap.{BtreeMap, insert}
use outboard.Crates.{Crates}
use outboard.Id.{
  IdentifierError, PluginId, new_interface_id, new_capability_id, new_plugin_kind, new_plugin_name,
}
use outboard.Manifest.{
  Manifest, ManifestError, PluginMetadata, InterfaceManifest, Capability, InterfaceRequirement,
  CapabilityRequirement, PluginRequirement, ExecutionMode, one_shot, ControlCapabilities,
  default_control, manifest_version,
}
use outboard.Manifest.Validate.{validate}

module _ (lib : Crates) where
  open lib use {Version, VersionReq, Value, framework_req, protocol_req}

  pub new_interface_manifest : Text → Version → Result (InterfaceManifest lib) IdentifierError
  new_interface_manifest id version = do
    checked ← new_interface_id id
    ok (record { id = checked; version = version })

  pub new_capability : Text → Result (Capability lib) IdentifierError
  new_capability id = do
    checked ← new_capability_id id
    ok (record { id = checked; version = none; properties = [] })

  pub capability_version : Version → Capability lib → Capability lib
  capability_version v c = record c { version = some v }

  pub capability_property : Text → Value → Capability lib → Capability lib
  capability_property key value c = record c { properties = insert key value c.properties }

  -- ManifestBuilder::new
  unfoldable pub new_builder : PluginId → Version → Manifest lib
  new_builder id version = record {
    version = manifest_version;
    plugin = record { id = id; version = version; description = none; homepage = none };
    framework = framework_req;
    worker_protocol = protocol_req;
    interfaces = [];
    execution = one_shot ∷ [];
    capabilities = [];
    control = default_control;
    metadata = [];
  }

  unfoldable pub description : Text → Manifest lib → Manifest lib
  description v m = record m { plugin = record (m.plugin) { description = some v } }

  unfoldable pub homepage : Text → Manifest lib → Manifest lib
  homepage v m = record m { plugin = record (m.plugin) { homepage = some v } }

  unfoldable pub framework : VersionReq → Manifest lib → Manifest lib
  framework v m = record m { framework = v }

  unfoldable pub worker_protocol : VersionReq → Manifest lib → Manifest lib
  worker_protocol v m = record m { worker_protocol = v }

  unfoldable pub interface : InterfaceManifest lib → Manifest lib → Manifest lib
  interface v m = record m { interfaces = m.interfaces ++ v ∷ [] }

  unfoldable pub capability : Capability lib → Manifest lib → Manifest lib
  capability v m = record m { capabilities = m.capabilities ++ v ∷ [] }

  unfoldable pub execution : List ExecutionMode → Manifest lib → Manifest lib
  execution v m = record m { execution = v }

  unfoldable pub control : ControlCapabilities → Manifest lib → Manifest lib
  control v m = record m { control = v }

  unfoldable pub metadata : Text → Value → Manifest lib → Manifest lib
  metadata k v m = record m { metadata = insert k v m.metadata }

  unfoldable pub build : Manifest lib → Result (Manifest lib) ManifestError
  build m = do validate lib m; ok m

  pub new_interface_requirement :
      Text → VersionReq → Result (InterfaceRequirement lib) IdentifierError
  new_interface_requirement id version = do
    checked ← new_interface_id id
    ok (record { id = checked; version = version })

  pub new_capability_requirement : Text → Result (CapabilityRequirement lib) IdentifierError
  new_capability_requirement id = do
    checked ← new_capability_id id
    ok (record { id = checked; version = none; properties = [] })

  pub required_version : VersionReq → CapabilityRequirement lib → CapabilityRequirement lib
  required_version v r = record r { version = some v }

  pub required_property : Text → Value → CapabilityRequirement lib → CapabilityRequirement lib
  required_property k v r = record r { properties = insert k v r.properties }

  unfoldable pub new_plugin_requirement : Text → Result (PluginRequirement lib) IdentifierError
  new_plugin_requirement kind = do
    checked ← new_plugin_kind kind
    ok (record {
      kind = checked;
      name = none;
      interface = none;
      capabilities = [];
      execution = none;
    })

  unfoldable pub named :
      Text → PluginRequirement lib → Result (PluginRequirement lib) IdentifierError
  named name r = do checked ← new_plugin_name name; ok (record r { name = some checked })

  pub require_interface : InterfaceRequirement lib → PluginRequirement lib → PluginRequirement lib
  require_interface v r = record r { interface = some v }

  pub require_capability : CapabilityRequirement lib → PluginRequirement lib → PluginRequirement lib
  require_capability v r = record r { capabilities = r.capabilities ++ v ∷ [] }

  pub require_execution : ExecutionMode → PluginRequirement lib → PluginRequirement lib
  require_execution v r = record r { execution = some v }
