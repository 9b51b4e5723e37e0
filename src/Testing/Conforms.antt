-- ===== src/Testing/Conforms.antt =====
-- What a report without a failure says of a plugin.
use outboard.Prelude.{
  Text, codes, ◌≡◌, ◌↔◌, refl, subst, Bool, true, false, not, ◌&&◌, ◌==◌, nat_eq, List, [], ◌∷◌,
  ◌++◌, all, none, some, Result, ok, err, if◌then◌else◌, arith, All, nat_beq_iff,
}
use outboard.Crates.{Crates}
use outboard.Id.{PluginId}
use outboard.Doctor.{DoctorCheck, passed, failed}
use outboard.Manifest.{Manifest, worker}
use outboard.Manifest.Compatibility.{supports}
use outboard.Manifest.Validate.{validate}
use outboard.Process.{CapturedOutput, ProcessError}
use outboard.Worker.Server.Laws.{Offered}
use outboard.Testing.{
  ConformanceOptions, Surroundings, is_good, conforms, is_file, control_run, check_doctor,
  check_cli_schema, check_control_ping, check_identity, check_interfaces, check_worker,
  check_manifest, with_manifest, with_output, check_plugin, Message, phrase, file_named, no_file,
  run_failed, exited, not_json, exists, pass_with, fail_with, report,
}
use outboard.Testing.Controls.{
  Answers, Healthy, Object, Yes, Serves, Works, check_doctor_iff, check_cli_schema_iff,
  check_control_ping_iff, check_worker_iff, check_interfaces_iff, check_valid_iff,
  check_identity_iff,
}

module _ (lib : Crates) {J : Type 0} (host : Surroundings lib J) (options : ConformanceOptions lib)
    (path : Text) where
  -- What the options and the manifest promise, kept.
  pub record Keeps (m : Manifest lib) : Type 0 where
    pub valid : validate lib m ≡ ok tt
    pub named : (id : PluginId) → options.expected_id ≡ some id → m.plugin.id ≡ id
    pub offers : All (Offered lib J m) options.required_interfaces
    pub doctor :
        Serves lib host options path options.require_doctor m.control.doctor
          (Answers lib host options path (codes "doctor") (Healthy lib host options path))
    pub schema :
        Serves lib host options path options.require_cli_schema m.control.cli_schema
          (Answers lib host options path (codes "cli-schema") (Object lib host options path))
    pub pings :
        Serves lib host options path false m.control.ping
          (Answers lib host options path (codes "ping") (Yes lib host options path))
    pub works :
        Serves lib host options path options.require_worker
          (supports lib m worker)
          (Works lib host options path m)

  -- The manifest that the plugin reports
  abbrev pub Reports : Manifest lib → Type 0
  Reports m = Answers lib host options path (codes "manifest") (λ s. host.manifest_from s ≡ ok m)

  all-append :
      (xs ys : List DoctorCheck)
      → all (is_good lib) (xs ++ ys) ≡ (all (is_good lib) xs && all (is_good lib) ys)
  all-append [] ys = refl
  all-append (x ∷ xs) ys = ground (arith, all-append xs ys)

  abbrev Good : List DoctorCheck → Type 0
  Good cs = all (is_good lib) cs ≡ true

  Good-append : (xs ys : List DoctorCheck) → Good (xs ++ ys) ↔ (Good xs × Good ys)
  Good-append xs ys = (
    (λ g. (ground (arith, all-append xs ys), ground (arith, all-append xs ys))),
    (λ (g, h). ground (arith, all-append xs ys)),
  )

  check_manifest_iff : (m : Manifest lib) → Good (check_manifest lib host options path m) ↔ Keeps m
  check_manifest_iff m = (
    (λ g.
        let valid = (check_valid_iff lib host options path m).0 (ground arith) in
        let after_valid : Good (identity ++ behind) = ground arith in
        let (named, g1) = (Good-append identity behind).0 after_valid in
        let (offers, g2) = (Good-append interfaces with_doctors).0 g1 in
        let (doctor, g3) = (Good-append doctors with_schemas).0 g2 in
        let (schema, g4) = (Good-append schemas with_pings).0 g3 in
        let (pings, works) = (Good-append pinged (check_worker lib host options path m)).0 g4 in
        record {
          valid = valid;
          named =
              (check_identity_iff lib host options path m.plugin.id options.expected_id).0 named;
          offers =
              (check_interfaces_iff lib host options path m options.required_interfaces).0 offers;
          doctor = (check_doctor_iff lib host options path m).0 doctor;
          schema = (check_cli_schema_iff lib host options path m).0 schema;
          pings = (check_control_ping_iff lib host options path m).0 pings;
          works = (check_worker_iff lib host options path m).0 works;
        }),
    (λ k.
        let valid = (check_valid_iff lib host options path m).1 k.valid in
        let rest : Good (identity ++ behind) = (Good-append identity behind).1 (
          (check_identity_iff lib host options path m.plugin.id options.expected_id).1 k.named,
          (Good-append interfaces with_doctors).1 (
            (check_interfaces_iff lib host options path m options.required_interfaces).1 k.offers,
            (Good-append doctors with_schemas).1 (
              (check_doctor_iff lib host options path m).1 k.doctor,
              (Good-append schemas with_pings).1 (
                (check_cli_schema_iff lib host options path m).1 k.schema,
                (Good-append pinged (check_worker lib host options path m)).1 (
                  (check_control_ping_iff lib host options path m).1 k.pings,
                  (check_worker_iff lib host options path m).1 k.works,
                ),
              ),
            ),
          ),
        ) in
        ground arith),
  )
    where
      identity : List DoctorCheck
      identity = check_identity lib host options path m.plugin.id options.expected_id

      interfaces : List DoctorCheck
      interfaces = check_interfaces lib host options path m options.required_interfaces

      doctors : List DoctorCheck
      doctors = check_doctor lib host options path m

      schemas : List DoctorCheck
      schemas = check_cli_schema lib host options path m

      pinged : List DoctorCheck
      pinged = check_control_ping lib host options path m

      with_pings : List DoctorCheck
      with_pings = pinged ++ check_worker lib host options path m

      with_schemas : List DoctorCheck
      with_schemas = schemas ++ with_pings

      with_doctors : List DoctorCheck
      with_doctors = doctors ++ with_schemas

      behind : List DoctorCheck
      behind = interfaces ++ with_doctors

  -- What stands behind checks that pass.
  Good-behind :
      (a b : DoctorCheck) (cs : List DoctorCheck)
      → is_good lib a ≡ true
      → is_good lib b ≡ true
      → Good (a ∷ b ∷ cs) ↔ Good cs
  Good-behind a b cs ga gb = ((λ g. ground arith), (λ g. ground arith))

  abbrev exists_check : DoctorCheck
  exists_check = exists lib host options path

  passes :
      (name : Text) (m : Message lib J)
      → is_good lib (pass_with lib host options path name m) ≡ true
  unfolding passed
  passes name m = refl

  Good-bad :
      (name : Text) (m : Message lib J)
      → ¬ Good (exists_check ∷ fail_with lib host options path name m ∷ [])
  unfolding failed
  Good-bad name m g = ground arith

  alone : (name : Text) (m : Message lib J) → ¬ Good (fail_with lib host options path name m ∷ [])
  unfolding failed
  alone name m g = ground arith

  abbrev parsed_check : DoctorCheck
  parsed_check =
      pass_with lib host options path (codes "control.manifest")
        (phrase (codes "returned valid manifest JSON"))

  with_manifest_iff :
      (r : Result (Manifest lib) Text)
      → (conforms lib (with_manifest lib host options path r) ≡ true)
        ↔ ((m : Manifest lib) × (r ≡ ok m) × Keeps m)
  unfolding conforms
  with_manifest_iff (err e) = (
    (λ g. absurd (Good-bad (codes "control.manifest.json") (not_json e) g)),
    (λ (m, f, k). cc (f)),
  )
  with_manifest_iff (ok m) =
      let behind =
        Good-behind exists_check parsed_check (check_manifest lib host options path m)
          (passes (codes "executable.exists") (file_named path))
          (passes (codes "control.manifest") (phrase (codes "returned valid manifest JSON"))) in
      (
        (λ g. (m, refl, (check_manifest_iff m).0 (behind.0 g))),
        (λ (n, f, k).
            let same : n ≡ m = cc (f) in behind.1 ((check_manifest_iff m).1 (subst Keeps same k))),
      )

  with_output_iff :
      (r : Result CapturedOutput ProcessError)
      → control_run lib host options path (codes "manifest") ≡ r
      → (conforms lib (with_output lib host options path r) ≡ true)
        ↔ ((m : Manifest lib) × Reports m × Keeps m)
  unfolding conforms
  with_output_iff (err x) e = (
    (λ g. absurd (Good-bad (codes "control.manifest") (run_failed x) g)),
    (λ (m, (o, f, z, d), k). cc (e, f)),
  )
  with_output_iff (ok out) e = go (out.status == 0) refl
    where
      go :
          (b : Bool)
          → (out.status == 0) ≡ b
          → (conforms lib (
                if not b
                then report lib host options path none (
                    exists_check
                    ∷ fail_with lib host options path
                        (codes "control.manifest")
                        (exited out.status out.stderr)
                    ∷ [])
                else with_manifest lib host options path (host.manifest_from out.stdout))
              ≡ true)
            ↔ ((m : Manifest lib) × Reports m × Keeps m)
      go false other = (
        (λ g. absurd (Good-bad (codes "control.manifest") (exited out.status out.stderr) g)),
        (λ (m, (o, f, z, d), k). ground (arith)),
      )
      go true zero_status =
          let decoded = with_manifest_iff (host.manifest_from out.stdout) in
          (
            (λ g.
                let (m, d, k) = decoded.0 g in
                (m, (out, e, (nat_beq_iff out.status 0).0 zero_status, d), k)),
            (λ (m, (o, f, z, d), k).
                let same : o ≡ out = cc (e, f) in
                decoded.1 (m, subst (λ x. host.manifest_from x.stdout ≡ ok m) same d, k)),
          )

  -- The report of a plugin is without a failure exactly when its path is a file, the run of its
  -- manifest operation exits with status 0 and an output that decodes to a manifest, and the plugin
  -- keeps what the options ask for and the manifest promises: the manifest is valid, has the expected
  -- identity and offers the required interfaces at accepted versions; doctor, schema and worker are
  -- advertised where required; and each operation that is advertised answers with status 0 and the
  -- right output, and an advertised worker is greeted, answers a ping, and shuts down.
  pub check_plugin_iff :
      (conforms lib (check_plugin lib host options path) ≡ true)
      ↔ ((is_file lib host options path ≡ true) × ((m : Manifest lib) × Reports m × Keeps m))
  unfolding check_plugin conforms
  check_plugin_iff = go (is_file lib host options path)
    where
      go :
          (b : Bool)
          → (conforms lib (
                if not b
                then report lib host options path none (
                    fail_with lib host options path (codes "executable.exists") (no_file path) ∷ [])
                else with_output lib host options path
                    (control_run lib host options path (codes "manifest")))
              ≡ true)
            ↔ ((b ≡ true) × ((m : Manifest lib) × Reports m × Keeps m))
      go false = (
        (λ g. absurd (alone (codes "executable.exists") (no_file path) g)),
        (λ (f, rest). cc (f)),
      )
      go true = (
        (λ g. (refl, (with_output_iff _ refl).0 g)),
        (λ (f, rest). (with_output_iff _ refl).1 rest),
      )
