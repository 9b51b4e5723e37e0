-- ===== src/Testing.antt =====
-- crates/outboard-testing/src/lib.rs: the checks that run a plugin as a host would.
pub mod Controls
pub mod Conforms
use outboard.Prelude.{
  ℕ, Text, codes, ◌≡◌, Bool, true, false, not, ◌||◌, ◌&&◌, ◌==◌, nat_eq, list_eq, List, [], ◌∷◌,
  ◌++◌, map, all, filter, Option, none, some, Result, ok, err, ◌>>=◌, if◌then◌else◌,
}
use outboard.Crates.{Crates}
use outboard.FileSystem.{FileSystem, Metadata, ErrorKind}
use outboard.Id.{PluginId, plugin_id_eq, InterfaceId, IdentifierError}
use outboard.Discovery.{explicit}
use outboard.Doctor.{
  DoctorCheck, DoctorReport, DoctorStatus, passed, failed, from_checks, is_healthy, is_fail,
}
use outboard.Manifest.{Manifest, ManifestError, InterfaceManifest, InterfaceRequirement, worker}
use outboard.Manifest.Compatibility.{supports}
use outboard.Manifest.Compatibility
use outboard.Manifest.Builder.{new_interface_requirement}
use outboard.Manifest.Validate.{validate}
use outboard.Process.{Child, CapturedOutput, ProcessError, run_capture_args}
use outboard.Registry.{ResolvedPlugin}
use outboard.Worker.Client.{WorkerClient, WorkerClientError, Answer, ping_worker, shutdown_worker}
use outboard.Worker.Client.Spawn.{Pipes, Spawned, spawn_worker}

module _ (lib : Crates) where
  open lib use {Version, VersionReq, Value, matches, parse_req}

  pub record ConformanceOptions : Type 0 where
    pub expected_id : Option PluginId
    pub required_interfaces : List (InterfaceRequirement lib)
    pub require_worker : Bool
    pub require_doctor : Bool
    pub require_cli_schema : Bool
    pub timeout : ℕ

  pub data ConformanceError : Type 0 where
    semver : ConformanceError
    identifier : IdentifierError → ConformanceError

  -- ConformanceOptions::default
  unfoldable pub default_options : ConformanceOptions
  default_options = record {
    expected_id = none;
    required_interfaces = [];
    require_worker = false;
    require_doctor = false;
    require_cli_schema = false;
    timeout = 10000;
  }

  abbrev with_interface :
      ConformanceOptions
      → Result (InterfaceRequirement lib) IdentifierError
      → Result ConformanceOptions ConformanceError
  with_interface o (err e) = err (identifier e)
  with_interface o (ok r) = ok (record o { required_interfaces = o.required_interfaces ++ r ∷ [] })

  -- ConformanceOptions::require_interface
  unfoldable pub require_interface_option :
      InterfaceId → Text → ConformanceOptions → Result ConformanceOptions ConformanceError
  require_interface_option id version o = elim (parse_req version) [
    | none ↦ err semver
    | some v ↦ with_interface o (new_interface_requirement lib id v)
  ]

  pub record ConformanceReport : Type 0 where
    pub executable : Text
    pub manifest : Option (Manifest lib)
    pub checks : List DoctorCheck

  -- A check that did not fail
  abbrev pub is_good : DoctorCheck → Bool
  is_good c = not (is_fail c.status)

  -- ConformanceReport::is_healthy
  unfoldable pub conforms : ConformanceReport → Bool
  conforms r = all is_good r.checks

  -- ConformanceReport::failures
  unfoldable pub failures : ConformanceReport → List DoctorCheck
  failures r = filter (λ c. is_fail (DoctorCheck.status c)) r.checks

  -- ConformanceReport::into_doctor_report
  unfoldable pub into_doctor_report : ConformanceReport → DoctorReport
  into_doctor_report r = from_checks r.checks

  -- What the texts of the checks say.
  pub data Message (J : Type 0) : Type 0 where
    phrase : Text → Message J
    file_named : Text → Message J
    no_file : Text → Message J
    run_failed : ProcessError → Message J
    exited : (status : ℕ) (stderr : Text) → Message J
    not_json : Text → Message J
    invalid : ManifestError → Message J
    identity : PluginId → Message J
    other_identity : (expected declared : PluginId) → Message J
    satisfies : (provided : Version) (required : VersionReq) → Message J
    unsatisfied : (provided : Version) (required : VersionReq) → Message J
    healthy_with : (checks : ℕ) → Message J
    reported : DoctorStatus → Message J
    worker_failed : WorkerClientError lib J → Message J

  -- What the checks meet: the files, the programs that can be started, serde_json, the worker's
  -- pipes and the end of its process. `says` is the text of a message.
  pub record Surroundings (J : Type 0) : Type 1 where
    pub fs : FileSystem
    pub spawned : Text → List Text → Result Child ErrorKind
    pub manifest_from : Text → Result (Manifest lib) Text
    pub report_from : Text → Result DoctorReport Text
    pub value_from : Text → Result Value Text
    pub is_object : Value → Bool
    pub bool_at : Text → Value → Option Bool
    pub pipes : Result (Pipes lib J) ErrorKind
    pub exit : Result (Unit {0}) ErrorKind
    pub says : Message J → Text

  module _ {J : Type 0} (host : Surroundings J) (options : ConformanceOptions) (path : Text) where
    abbrev pub pass_with : Text → Message J → DoctorCheck
    pass_with name m = passed name (host.says m)

    abbrev pub fail_with : Text → Message J → DoctorCheck
    fail_with name m = failed name (host.says m)

    -- Path::is_file
    abbrev pub is_file : Bool
    is_file = elim (host.fs.metadata path) [ none ↦ false | some m ↦ m.is_file ]

    abbrev pub control_run : Text → Result CapturedOutput ProcessError
    control_run name =
        run_capture_args host.spawned path (codes "__outboard" ∷ name ∷ []) none options.timeout

    -- The arms of a match on the run of a control operation; `judge` is given the output.
    abbrev pub check_run :
        Text → (Text → DoctorCheck) → Result CapturedOutput ProcessError → DoctorCheck
    check_run name judge (err e) = fail_with name (run_failed e)
    check_run name judge (ok out) =
        if out.status == 0 then judge out.stdout else fail_with name (exited out.status out.stderr)

    abbrev pub judge_report : Result DoctorReport Text → DoctorCheck
    judge_report (err e) = fail_with (codes "control.doctor.json") (not_json e)
    judge_report (ok r) =
        if is_healthy r
        then pass_with (codes "control.doctor") (healthy_with (outboard.Prelude.length r.checks))
        else fail_with (codes "control.doctor") (reported r.status)

    abbrev pub judge_schema : Result Value Text → DoctorCheck
    judge_schema (err e) = fail_with (codes "control.cli-schema.json") (not_json e)
    judge_schema (ok v) =
        if host.is_object v
        then pass_with (codes "control.cli-schema") (phrase (codes "returned a JSON object"))
        else fail_with (codes "control.cli-schema.json")
            (phrase (codes "schema response was valid JSON but not an object"))

    abbrev pub is_yes : Option Bool → Bool
    is_yes (some true) = true
    is_yes _ = false

    abbrev pub judge_ping : Result Value Text → DoctorCheck
    judge_ping (err e) = fail_with (codes "control.ping.json") (not_json e)
    judge_ping (ok v) =
        if is_yes (host.bool_at (codes "ok") v)
        then pass_with (codes "control.ping") (phrase (codes "plugin responded ok"))
        else fail_with (codes "control.ping.json")
            (phrase (codes "ping response did not contain ok=true"))

    abbrev not_advertised : Text → DoctorCheck
    not_advertised name = fail_with name (phrase (codes "required operation not advertised"))

    -- check_doctor
    unfoldable pub check_doctor : Manifest lib → List DoctorCheck
    check_doctor m =
        if options.require_doctor && not m.control.doctor
        then not_advertised (codes "control.doctor") ∷ []
        else if not m.control.doctor
        then []
        else check_run (codes "control.doctor") (λ s. judge_report (host.report_from s))
            (control_run (codes "doctor"))
          ∷ []

    -- check_cli_schema
    unfoldable pub check_cli_schema : Manifest lib → List DoctorCheck
    check_cli_schema m =
        if options.require_cli_schema && not m.control.cli_schema
        then not_advertised (codes "control.cli-schema") ∷ []
        else if not m.control.cli_schema
        then []
        else check_run (codes "control.cli-schema") (λ s. judge_schema (host.value_from s))
            (control_run (codes "cli-schema"))
          ∷ []

    -- check_control_ping
    unfoldable pub check_control_ping : Manifest lib → List DoctorCheck
    check_control_ping m =
        if not m.control.ping
        then []
        else check_run (codes "control.ping") (λ s. judge_ping (host.value_from s))
            (control_run (codes "ping"))
          ∷ []

    abbrev pub check_valid : Result (Unit {0}) ManifestError → DoctorCheck
    check_valid (ok u) = pass_with (codes "manifest.validate") (phrase (codes "manifest is valid"))
    check_valid (err e) = fail_with (codes "manifest.validate") (invalid e)

    abbrev pub check_identity : PluginId → Option PluginId → List DoctorCheck
    check_identity declared none = []
    check_identity declared (some id) =
        (if declared == id
          then pass_with (codes "manifest.identity") (identity id)
          else fail_with (codes "manifest.identity") (other_identity id declared))
        ∷ []

    abbrev pub check_interface :
        InterfaceRequirement lib → Option (InterfaceManifest lib) → DoctorCheck
    check_interface r none =
        fail_with (codes "interface." ++ r.id) (phrase (codes "interface missing"))
    check_interface r (some i) =
        if matches r.version i.version
        then pass_with (codes "interface." ++ r.id) (satisfies i.version r.version)
        else fail_with (codes "interface." ++ r.id) (unsatisfied i.version r.version)

    abbrev pub check_interfaces : Manifest lib → List (InterfaceRequirement lib) → List DoctorCheck
    check_interfaces m rs =
        map (λ r. check_interface r (Compatibility.interface lib m (InterfaceRequirement.id r))) rs

    abbrev pub check_answer :
        Text → Text → Result (Unit {0}) (WorkerClientError lib J) → DoctorCheck
    check_answer name good (ok u) = pass_with name (phrase good)
    check_answer name good (err e) = fail_with name (worker_failed e)

    -- The ping and the shutdown of a worker that was greeted
    abbrev pub check_session : WorkerClient lib J → List DoctorCheck
    check_session c =
        let pinged = ping_worker lib J c 0xBADF00D in
        pass_with (codes "worker.handshake") (phrase (codes "handshake succeeded"))
        ∷ check_answer (codes "worker.ping") (codes "pong received") pinged.0
        ∷ check_answer (codes "worker.shutdown") (codes "acknowledged and exited")
            (shutdown_worker lib J host.exit pinged.1).0
        ∷ []

    abbrev pub check_spawned :
        Result (WorkerClient lib J) (WorkerClientError lib J) → List DoctorCheck
    check_spawned (ok c) = check_session c
    check_spawned (err e) = fail_with (codes "worker.handshake") (worker_failed e) ∷ []

    abbrev pub started : Manifest lib → Result (WorkerClient lib J) (WorkerClientError lib J)
    started m =
        (spawn_worker lib J (record { candidate = explicit m.plugin.id path; manifest = m })
          options.timeout options.required_interfaces host.pipes).0

    -- The last part of `check_plugin`
    unfoldable pub check_worker : Manifest lib → List DoctorCheck
    check_worker m =
        if options.require_worker || supports lib m worker
        then (if not (supports lib m worker)
            then fail_with (codes "worker.advertised")
                (phrase (codes "worker was required but not advertised"))
              ∷ []
            else check_spawned (started m))
        else []

    -- The checks once there is a manifest
    abbrev pub check_manifest : Manifest lib → List DoctorCheck
    check_manifest m =
        check_valid (validate lib m)
        ∷ (check_identity m.plugin.id options.expected_id
            ++ (check_interfaces m options.required_interfaces
                ++ (check_doctor m
                    ++ (check_cli_schema m ++ (check_control_ping m ++ check_worker m)))))

    abbrev pub report : Option (Manifest lib) → List DoctorCheck → ConformanceReport
    report m checks = record { executable = path; manifest = m; checks = checks }

    abbrev pub exists : DoctorCheck
    exists = pass_with (codes "executable.exists") (file_named path)

    abbrev pub with_manifest : Result (Manifest lib) Text → ConformanceReport
    with_manifest (err e) =
        report none (exists ∷ fail_with (codes "control.manifest.json") (not_json e) ∷ [])
    with_manifest (ok m) = report (some m) (
        exists
        ∷ pass_with (codes "control.manifest") (phrase (codes "returned valid manifest JSON"))
        ∷ check_manifest m)

    abbrev pub with_output : Result CapturedOutput ProcessError → ConformanceReport
    with_output (err e) =
        report none (exists ∷ fail_with (codes "control.manifest") (run_failed e) ∷ [])
    with_output (ok out) =
        if not (out.status == 0)
        then report none
            (exists ∷ fail_with (codes "control.manifest") (exited out.status out.stderr) ∷ [])
        else with_manifest (host.manifest_from out.stdout)

    unfoldable pub check_plugin : ConformanceReport
    check_plugin =
        if not is_file
        then report none (fail_with (codes "executable.exists") (no_file path) ∷ [])
        else with_output (control_run (codes "manifest"))
