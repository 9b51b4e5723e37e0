-- ===== src/Control.antt =====
-- crates/outboard/src/control.rs: the reserved invocations of a plugin.
use outboard.Prelude.{
  bind-eq-ok, ap, ◌∙◌, Text, codes, ◌≡◌, ◌≢◌, ◌↔◌, refl, List, [], ◌∷◌, Option, none, some, ◌==◌,
  nat_eq, list_eq, list_beq_iff, if◌then◌else◌, Result, ok, err, ◌>>=◌, arith,
}
use outboard.Crates.{Crates}
use outboard.Id.{display_plugin_id}
use outboard.Manifest.{Manifest}
use outboard.Doctor.{DoctorReport, healthy}

pub data ControlRequest : Type 0 where
  manifest doctor cli_schema ping serve : ControlRequest

pub data ControlDispatch : Type 0 where
  not_control handled serve : ControlDispatch

pub data ControlError (IoError : Type 0) : Type 0 where
  unknown_command : Text → ControlError IoError
  missing_command : ControlError IoError
  no_cli_schema : ControlError IoError
  -- serialising or writing the response failed
  response : IoError → ControlError IoError

module _ (IoError : Type 0) where
  -- The match on the name of the operation. The source matches on the lossy text of the OS string;
  -- the replacement character is none of these names' bytes, so a name that is not UTF-8 is unknown.
  unfoldable pub control_request : Text → Result (Option ControlRequest) (ControlError IoError)
  control_request cmd =
      if cmd == codes "manifest"
      then ok (some manifest)
      else if cmd == codes "doctor"
      then ok (some doctor)
      else if cmd == codes "cli-schema"
      then ok (some cli_schema)
      else if cmd == codes "ping"
      then ok (some ping)
      else if cmd == codes "serve"
      then ok (some ControlRequest.serve)
      else err (unknown_command cmd)

  unfoldable pub detect_control_request :
      List Text → Result (Option ControlRequest) (ControlError IoError)
  detect_control_request [] = ok none
  detect_control_request (first ∷ []) =
      if first == codes "__outboard" then err missing_command else ok none
  detect_control_request (first ∷ cmd ∷ rest) =
      if first == codes "__outboard" then control_request cmd else ok none

  abbrev pub command_name : ControlRequest → Text
  command_name manifest = codes "manifest"
  command_name doctor = codes "doctor"
  command_name cli_schema = codes "cli-schema"
  command_name ping = codes "ping"
  command_name ControlRequest.serve = codes "serve"

  control_request-command_name :
      (r : ControlRequest) → control_request (command_name r) ≡ ok (some r)
  unfolding control_request
  control_request-command_name manifest = refl
  control_request-command_name doctor = refl
  control_request-command_name cli_schema = refl
  control_request-command_name ping = refl
  control_request-command_name ControlRequest.serve = refl

  control_request_sound :
      (cmd : Text) (r : ControlRequest) → control_request cmd ≡ ok (some r) → cmd ≡ command_name r
  unfolding control_request
  control_request_sound cmd r h = ground (
    arith,
    list_beq_iff cmd (codes "manifest"),
    list_beq_iff cmd (codes "doctor"),
    list_beq_iff cmd (codes "cli-schema"),
    list_beq_iff cmd (codes "ping"),
    list_beq_iff cmd (codes "serve"),
  )

  control_request-ne-none : (cmd : Text) → control_request cmd ≢ ok none
  unfolding control_request
  control_request-ne-none cmd h = ground arith

  not_alone :
      (first : Text) (r : ControlRequest) → detect_control_request (first ∷ []) ≢ ok (some r)
  unfolding detect_control_request
  not_alone first r h = ground arith

  detected :
      (first cmd : Text) (rest : List Text) (r : ControlRequest)
      → detect_control_request (first ∷ cmd ∷ rest) ≡ ok (some r)
      → first ∷ cmd ∷ rest ≡ codes "__outboard" ∷ command_name r ∷ rest
  unfolding detect_control_request
  detected first cmd rest r h =
      ground (arith, list_beq_iff first (codes "__outboard"), control_request_sound cmd r)

  -- An invocation is the request `r` exactly when its first argument is `__outboard` and its second
  -- the name of `r`, whatever follows.
  pub detect_control_request_iff :
      (args : List Text) (r : ControlRequest)
      → (detect_control_request args ≡ ok (some r))
        ↔ ((rest : List Text) × (args ≡ codes "__outboard" ∷ command_name r ∷ rest))
  detect_control_request_iff args r = (sound args, complete args)
    where
      sound :
          (args : List Text)
          → detect_control_request args ≡ ok (some r)
          → (rest : List Text) × (args ≡ codes "__outboard" ∷ command_name r ∷ rest)
      sound [] h = unfold detect_control_request in cc h
      sound (first ∷ []) h = absurd (not_alone first r h)
      sound (first ∷ cmd ∷ rest) h = (rest, detected first cmd rest r h)

      complete :
          (args : List Text)
          → (rest : List Text) × (args ≡ codes "__outboard" ∷ command_name r ∷ rest)
          → detect_control_request args ≡ ok (some r)
      complete args (rest, e) =
          rw e (unfold detect_control_request in control_request-command_name r)

  -- Any other first argument leaves the invocation to the plugin's own parser, and `__outboard`
  -- never does.
  pub detect_control_request-none_iff :
      (first : Text) (rest : List Text)
      → (detect_control_request (first ∷ rest) ≡ ok none) ↔ (first ≢ codes "__outboard")
  unfolding detect_control_request
  detect_control_request-none_iff first [] = (
    λ h e. ground (arith, list_beq_iff first (codes "__outboard")),
    λ h. ground (arith, list_beq_iff first (codes "__outboard")),
  )
  detect_control_request-none_iff first (cmd ∷ rest) = (
    λ h e. ground (arith, list_beq_iff first (codes "__outboard"), control_request-ne-none cmd),
    λ h. ground (arith, list_beq_iff first (codes "__outboard")),
  )

-- A response of the control plane, before it is printed as JSON.
pub data Response (lib : Crates) : Type 0 where
  of_manifest : Manifest lib → Response lib
  of_report : DoctorReport → Response lib
  of_schema : lib.Value → Response lib
  of_ping : (plugin : Text) → lib.Version → Response lib

-- ControlDispatcher. The closures that a plugin gives are the values that they return.
pub record ControlDispatcher (lib : Crates) : Type 0 where
  pub manifest : Manifest lib
  pub doctor : Option DoctorReport
  pub cli_schema : Option lib.Value

module _ {IoError : Type 0} (lib : Crates)
    (write_json : Response lib → Result (Unit {0}) IoError) where
  abbrev respond : Response lib → Result ControlDispatch (ControlError IoError)
  respond r = elim (write_json r) [ ok u ↦ ok handled | err e ↦ err (response e) ]

  abbrev report_of : Option DoctorReport → DoctorReport
  report_of none = healthy
  report_of (some r) = r

  abbrev answer :
      ControlDispatcher lib → ControlRequest → Result ControlDispatch (ControlError IoError)
  answer d ControlRequest.serve = ok ControlDispatch.serve
  answer d manifest = respond (of_manifest d.manifest)
  answer d doctor = respond (of_report (report_of d.doctor))
  answer d cli_schema = elim d.cli_schema [
    | none ↦ err no_cli_schema
    | some v ↦ respond (of_schema v)
  ]
  answer d ping =
      respond (of_ping (display_plugin_id d.manifest.plugin.id) d.manifest.plugin.version)

  abbrev answered :
      ControlDispatcher lib → Option ControlRequest → Result ControlDispatch (ControlError IoError)
  answered d none = ok not_control
  answered d (some r) = answer d r

  unfoldable pub dispatch :
      ControlDispatcher lib → List Text → Result ControlDispatch (ControlError IoError)
  dispatch d args = do r ← detect_control_request IoError args; answered d r

  answered-serve :
      (d : ControlDispatcher lib) (r : Option ControlRequest)
      → answered d r ≡ ok ControlDispatch.serve
      → r ≡ some ControlRequest.serve
  answered-serve d none h = cc
  answered-serve d (some manifest) h = ground arith
  answered-serve d (some doctor) h = ground arith
  answered-serve d (some cli_schema) h = ground arith
  answered-serve d (some ping) h = ground arith
  answered-serve d (some ControlRequest.serve) h = refl

  -- The worker loop is entered exactly on `__outboard serve`.
  pub dispatch-serve_iff :
      (d : ControlDispatcher lib) (args : List Text)
      → (dispatch d args ≡ ok ControlDispatch.serve)
        ↔ ((rest : List Text) × (args ≡ codes "__outboard" ∷ codes "serve" ∷ rest))
  unfolding dispatch
  dispatch-serve_iff d args = (
    λ h.
        let (r, found, went) = bind-eq-ok (detect_control_request IoError args) (answered d) h in
        let serving : r ≡ some ControlRequest.serve = answered-serve d r went in
        (detect_control_request_iff IoError args ControlRequest.serve).0 (found ∙ ap ok serving),
    λ h. rw ((detect_control_request_iff IoError args ControlRequest.serve).1 h),
  )
