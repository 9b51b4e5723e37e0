-- ===== src/Tests/Plugins.antt =====
-- Examples for identifiers, manifests, doctor reports and control requests.
use outboard.Prelude.{codes, ◌≡◌, inl, inr, subst, refl, List, [], ◌∷◌, true}
use outboard.Tests.{crates, tool, need}
use outboard.Id.{validate_identifier, new_plugin_id, new_id, allowed}
use outboard.Id.Valid.{IsIdentifier, validate_identifier_iff}
use outboard.Manifest.Validate.{validate, check_ids, IsValid, validate_iff}
use outboard.Manifest.Compatibility.{compatibility_issues}
use outboard.Manifest.Compatibility.Parts.{Provides}
use outboard.Manifest.Compatibility.Sound.{IsCompatible, compatibility_iff}
use outboard.Doctor.{DoctorCheck, passed, warned}

validate_identifier_iff_example : IsIdentifier true (codes "a.b-c")
unfolding validate_identifier allowed
validate_identifier_iff_example = (validate_identifier_iff "interface" (codes "a.b-c") true).0 refl

pub tool-IsValid : IsValid crates tool
unfolding validate check_ids new_plugin_id new_id validate_identifier allowed
tool-IsValid = (validate_iff crates tool).0 refl

interface_valid : IsIdentifier true (codes "x.y")
unfolding validate_identifier allowed
interface_valid = (validate_identifier_iff "interface" (codes "x.y") true).0 refl

validate_iff_example : IsValid crates tool
unfolding validate check_ids new_plugin_id new_id validate_identifier allowed
validate_iff_example = (validate_iff crates tool).0 refl

needed_interface : Provides crates tool (record { id = codes "x.y"; version = 3 })
needed_interface = inl (refl, refl)

tool-IsCompatible : IsCompatible crates tool need
tool-IsCompatible = record {
  framework = refl;
  name = λ n e. cc (e);
  kind = refl;
  mode = λ x e. inr (inl (cc (e)));
  interface = λ r e.
      let same : record { id = codes "x.y"; version = 3 } ≡ r = cc (e) in
      subst (Provides crates tool) same needed_interface;
  capabilities = tt;
  protocol = λ _. refl;
}

pub compatible : compatibility_issues crates tool need ≡ []
compatible = (compatibility_iff crates tool need tool-IsValid).1 tool-IsCompatible

compatibility_iff_example : compatibility_issues crates tool need ≡ []
compatibility_iff_example = (compatibility_iff crates tool need tool-IsValid).1 tool-IsCompatible

abbrev checks : List DoctorCheck
checks = passed (codes "a") [] ∷ warned (codes "b") [] ∷ []
