-- ===== src/Manifest/Compatibility/Sound.antt =====
-- What `compatibility_issues` decides.
use outboard.Prelude.{
  Text, ◌≡◌, ◌↔◌, Bool, true, not, ◌&&◌, [], ◌++◌, Option, none, some, ◌==◌, ==_iff, nat_eq,
  list_eq, option_eq, All, Any, text_ord, refl,
}
use outboard.Crates.{Crates}
use outboard.Manifest.{
  Manifest, InterfaceRequirement, PluginRequirement, ExecutionMode, one_shot, worker, mode_eq,
  CompatibilityIssue,
}
use outboard.Manifest.Compatibility.{Issues, report, interface, compatibility_issues}
use outboard.Manifest.Compatibility.Parts.{
  Provides, HasCapability, append-eq-nil, report-eq-nil, name-eq-nil, mode-eq-nil, interface-eq-nil,
  capabilities-eq-nil,
}
use outboard.Manifest.Validate.{IsValid}

module _ (lib : Crates) where
  open lib use {matches, framework_version, protocol_version}

  -- The host and the manifest fit, and the manifest has all that is required.
  pub record IsCompatible (m : Manifest lib) (req : PluginRequirement lib) : Type 0 where
    pub framework : matches m.framework framework_version ≡ true
    pub name : (n : Text) → req.name ≡ some n → m.plugin.id.name ≡ n
    pub kind : m.plugin.id.kind ≡ req.kind
    pub mode : (x : ExecutionMode) → req.execution ≡ some x → Any (λ y. y ≡ x) m.execution
    pub interface : (r : InterfaceRequirement lib) → req.interface ≡ some r → Provides lib m r
    pub capabilities : All (HasCapability lib m) req.capabilities
    pub protocol : req.execution ≡ some worker → matches m.worker_protocol protocol_version ≡ true

  -- A report that two tests must pass.
  report_both-eq-nil :
      (wanted : Option ExecutionMode) (bad : Bool) (issue : CompatibilityIssue lib)
      → (report lib (wanted == some worker && not bad) issue ≡ [])
        ↔ (wanted ≡ some worker → bad ≡ true)
  report_both-eq-nil (some worker) bad issue = (
    λ h _. (report-eq-nil lib bad issue).0 h,
    λ h. let good : bad ≡ true = h refl in (report-eq-nil lib bad issue).1 good,
  )
  report_both-eq-nil (some one_shot) bad issue = (λ _ e. cc, λ _. refl)
  report_both-eq-nil none bad issue = (λ _ e. cc, λ _. refl)

  both-nil : {xs ys : Issues lib} → xs ≡ [] → ys ≡ [] → xs ++ ys ≡ []
  both-nil p q = (append-eq-nil lib _ _).1 (p, q)

  -- For a valid manifest the issues are none exactly when it is compatible with the requirement.
  pub compatibility_iff :
      (m : Manifest lib) (req : PluginRequirement lib)
      → IsValid lib m
      → (compatibility_issues lib m req ≡ []) ↔ IsCompatible m req
  unfolding compatibility_issues
  compatibility_iff m req v = (
    λ h.
        let (framework, h1) = (append-eq-nil lib _ _).0 h in
        let (name, h2) = (append-eq-nil lib _ _).0 h1 in
        let (kind, h3) = (append-eq-nil lib _ _).0 h2 in
        let (mode, h4) = (append-eq-nil lib _ _).0 h3 in
        let (interface, h5) = (append-eq-nil lib _ _).0 h4 in
        let (capabilities, protocol) = (append-eq-nil lib _ _).0 h5 in
        record {
          framework = (report-eq-nil lib _ _).0 framework;
          name = (name-eq-nil lib req.name m.plugin.id.name).0 name;
          kind = (==_iff _ _).0 ((report-eq-nil lib _ _).0 kind);
          mode = (mode-eq-nil lib m req.execution).0 mode;
          interface = (interface-eq-nil lib m req.interface v.interface_ids_distinct).0 interface;
          capabilities =
              (capabilities-eq-nil lib m req.capabilities v.capability_ids_distinct).0 capabilities;
          protocol = (report_both-eq-nil req.execution _ _).0 protocol;
        },
    λ c. both-nil ((report-eq-nil lib _ _).1 c.framework) (
        both-nil ((name-eq-nil lib req.name m.plugin.id.name).1 c.name) (
          both-nil ((report-eq-nil lib _ _).1 ((==_iff _ _).1 c.kind)) (
            both-nil ((mode-eq-nil lib m req.execution).1 c.mode) (
              both-nil
                ((interface-eq-nil lib m req.interface v.interface_ids_distinct).1 c.interface)
                (both-nil
                  ((capabilities-eq-nil lib m req.capabilities v.capability_ids_distinct).1
                    c.capabilities)
                  ((report_both-eq-nil req.execution _ _).1 c.protocol)))))),
  )
