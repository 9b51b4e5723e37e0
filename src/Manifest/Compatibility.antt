-- ===== src/Manifest/Compatibility.antt =====
-- `interface`, `capability`, `supports` and `compatibility_issues` of
-- crates/outboard-core/src/manifest.rs.
pub mod Parts
pub mod Sound
use outboard.Prelude.{
  Text, ◌≡◌, Bool, true, false, not, ◌&&◌, List, [], ◌∷◌, ◌++◌, Option, none, some, Eq, ◌==◌,
  nat_eq, list_eq, option_eq, option_beq, if◌then◌else◌, find, contains, text_ord,
}
use outboard.BtreeMap.{BtreeMap, get}
use outboard.Crates.{Crates}
use outboard.Id.{PluginName, InterfaceId, CapabilityId}
use outboard.Manifest.{
  Manifest, InterfaceManifest, Capability, InterfaceRequirement, CapabilityRequirement,
  PluginRequirement, ExecutionMode, worker, mode_eq, CompatibilityIssue, framework, worker_protocol,
  wrong_name, wrong_kind, execution_mode, missing_interface, interface_version, missing_capability,
  capability_version, capability_property,
}

module _ (lib : Crates) where
  open lib use {Version, VersionReq, Value, matches, framework_version, protocol_version}

  abbrev pub Issues : Type 0
  Issues = List (CompatibilityIssue lib)

  -- `if bad { out.push(issue) }`
  abbrev pub report : Bool → CompatibilityIssue lib → Issues
  report bad issue = if bad then issue ∷ [] else []

  -- Manifest::interface, Manifest::capability, Manifest::supports
  abbrev pub interface : Manifest lib → InterfaceId → Option (InterfaceManifest lib)
  interface m id = find (λ x. x.id == id) m.interfaces

  abbrev pub capability : Manifest lib → CapabilityId → Option (Capability lib)
  capability m id = find (λ x. x.id == id) m.capabilities

  abbrev pub supports : Manifest lib → ExecutionMode → Bool
  supports m mode = contains m.execution mode

  pub name_issues : Option PluginName → PluginName → Issues
  name_issues none actual = []
  name_issues (some name) actual = report (not (actual == name)) (wrong_name name actual)

  pub mode_issues : Manifest lib → Option ExecutionMode → Issues
  mode_issues m none = []
  mode_issues m (some mode) = report (not (supports m mode)) (execution_mode mode)

  -- The match of one requirement on the interface that the manifest has for it.
  interface_match : InterfaceRequirement lib → Option (InterfaceManifest lib) → Issues
  interface_match r none = missing_interface r.id ∷ []
  interface_match r (some i) =
      report (not (matches r.version i.version)) (interface_version r.id r.version i.version)

  pub interface_issues : Manifest lib → Option (InterfaceRequirement lib) → Issues
  interface_issues m none = []
  interface_issues m (some r) = interface_match r (interface m r.id)

  -- `is_none_or(|v| !vr.matches(v))` is the test of the last two clauses.
  version_issues : CapabilityId → Option VersionReq → Option Version → Issues
  version_issues id none v = []
  version_issues id (some vr) none = capability_version id vr none ∷ []
  version_issues id (some vr) (some v) =
      report (not (matches vr v)) (capability_version id vr (some v))

  property_issues : CapabilityId → Capability lib → BtreeMap Text Value → Issues
  property_issues id c [] = []
  property_issues id c ((k, expected) ∷ properties) =
      report (not (option_beq ⦃e = lib.value_eq⦄ (get k c.properties) (some expected)))
        (capability_property id k expected (get k c.properties))
      ++ property_issues id c properties

  capability_match : CapabilityRequirement lib → Option (Capability lib) → Issues
  capability_match r none = missing_capability r.id ∷ []
  capability_match r (some c) =
      version_issues r.id r.version c.version ++ property_issues r.id c r.properties

  pub capability_issues : Manifest lib → List (CapabilityRequirement lib) → Issues
  capability_issues m [] = []
  capability_issues m (r ∷ rs) = capability_match r (capability m r.id) ++ capability_issues m rs

  pub compatibility_issues : Manifest lib → PluginRequirement lib → Issues
  compatibility_issues m req =
      report (not (matches m.framework framework_version)) (framework m.framework framework_version)
      ++ (name_issues req.name m.plugin.id.name
          ++ (report (not (m.plugin.id.kind == req.kind)) (wrong_kind req.kind m.plugin.id.kind)
              ++ (mode_issues m req.execution
                  ++ (interface_issues m req.interface
                      ++ (capability_issues m req.capabilities
                          ++ report
                              (req.execution == some worker
                                && not (matches m.worker_protocol protocol_version))
                              (worker_protocol m.worker_protocol protocol_version))))))
