-- ===== src/Testing/Controls.antt =====
-- When the checks of the control operations and of the worker are without a failure.
use outboard.Prelude.{
  Text, codes, ◌≡◌, ◌↔◌, refl, subst, Bool, true, false, not, ◌&&◌, ◌||◌, ◌==◌, nat_eq, List, [],
  ◌∷◌, all, Option, none, some, Result, ok, err, if◌then◌else◌, arith, Result-cases, Option-cases,
  Bool-cases, inl, inr, ==_iff, All,
}
use outboard.Crates.{Crates}
use outboard.Id.{PluginId, plugin_id_eq}
use outboard.Doctor.{DoctorCheck, DoctorReport, passed, failed, is_healthy}
use outboard.Manifest.{Manifest, ManifestError, InterfaceRequirement, worker}
use outboard.Manifest.Compatibility.{supports}
use outboard.Manifest.Compatibility
use outboard.Manifest.Validate.{validate}
use outboard.Process.{CapturedOutput, ProcessError}
use outboard.Worker.Client.{WorkerClient, WorkerClientError, ping_worker, shutdown_worker}
use outboard.Worker.Server.Laws.{Offered}
use outboard.Testing.{
  ConformanceOptions, Surroundings, is_good, control_run, check_run, judge_report, judge_schema,
  judge_ping, check_doctor, check_cli_schema, check_control_ping, check_valid, check_identity,
  check_interfaces, check_answer, check_spawned, started, check_worker,
}

module _ (lib : Crates) {J : Type 0} (host : Surroundings lib J) (options : ConformanceOptions lib)
    (path : Text) where
  open lib use {Value}

  -- The run of a control operation exits with status 0 and an output of which something holds.
  abbrev pub Answers : Text → (Text → Type 0) → Type 0
  Answers name P =
      (out : CapturedOutput) × (control_run lib host options path name ≡ ok out)
      × (out.status ≡ 0)
      × P out.stdout

  abbrev pub Healthy : Text → Type 0
  Healthy s = (r : DoctorReport) × (host.report_from s ≡ ok r) × (is_healthy r ≡ true)

  abbrev pub Object : Text → Type 0
  Object s = (v : Value) × (host.value_from s ≡ ok v) × (host.is_object v ≡ true)

  abbrev pub Yes : Text → Type 0
  Yes s = (v : Value) × (host.value_from s ≡ ok v) × (host.bool_at (codes "ok") v ≡ some true)

  check_run_iff :
      (name check : Text) (judge : Text → DoctorCheck) (P : Text → Type 0)
      → ((s : Text) → (is_good lib (judge s) ≡ true) ↔ P s)
      → (is_good lib
            (check_run lib host options path check judge (control_run lib host options path name))
          ≡ true)
        ↔ Answers name P
  unfolding passed failed
  check_run_iff name check judge P h = go (control_run lib host options path name) refl
    where
      go :
          (r : Result CapturedOutput ProcessError)
          → control_run lib host options path name ≡ r
          → (is_good lib (check_run lib host options path check judge r) ≡ true) ↔ Answers name P
      go (err x) e = (λ g. cc, λ g. cc)
      go (ok out) e = elim (Bool-cases (out.status == 0)) [
        | inl zero_status ↦ (
          λ g. (out, e, ground arith, (h out.stdout).0 (ground arith)),
          λ (o, f, z, p).
              let same : o ≡ out = ground arith in
              let good = (h out.stdout).1 (subst (λ x. P x.stdout) same p) in ground arith,
        )
        | inr other ↦ (λ g. ground arith, λ (o, f, z, p). ground arith)
      ]

  judge_report_iff :
      (s : Text)
      → (is_good lib (judge_report lib host options path (host.report_from s)) ≡ true) ↔ Healthy s
  unfolding passed failed
  judge_report_iff s = elim (Result-cases (host.report_from s)) [
    | inl (r, e) ↦ (λ g. (r, e, ground arith), λ (q, f, y). ground arith)
    | inr (x, e) ↦ (λ g. ground arith, λ (q, f, y). ground arith)
  ]

  judge_schema_iff :
      (s : Text)
      → (is_good lib (judge_schema lib host options path (host.value_from s)) ≡ true) ↔ Object s
  unfolding passed failed
  judge_schema_iff s = elim (Result-cases (host.value_from s)) [
    | inl (r, e) ↦ (λ g. (r, e, ground arith), λ (q, f, y). ground arith)
    | inr (x, e) ↦ (λ g. ground arith, λ (q, f, y). ground arith)
  ]

  judge_ping_iff :
      (s : Text)
      → (is_good lib (judge_ping lib host options path (host.value_from s)) ≡ true) ↔ Yes s
  unfolding passed failed
  judge_ping_iff s = elim (Result-cases (host.value_from s)) [
    | inl (r, e) ↦ (λ g. (r, e, ground arith), λ (q, f, y). ground arith)
    | inr (x, e) ↦ (λ g. ground arith, λ (q, f, y). ground arith)
  ]

  -- An operation is advertised where it is required, and answers where it is advertised.
  abbrev pub Serves : Bool → Bool → Type 0 → Type 0
  Serves required advertised P = (required ≡ true → advertised ≡ true) × (advertised ≡ true → P)

  abbrev Good : List DoctorCheck → Type 0
  Good cs = all (is_good lib) cs ≡ true

  -- An operation that is advertised is checked with `c`; one that is only required fails with `bad`.
  serves_iff :
      (required advertised : Bool) (bad c : DoctorCheck) (P : Type 0)
      → is_good lib bad ≡ false
      → (is_good lib c ≡ true) ↔ P
      → Good
          (if required && not advertised then bad ∷ [] else if not advertised then [] else c ∷ [])
        ↔ Serves required advertised P
  serves_iff true true bad c P b h = (
    (λ g. ((λ u. refl), (λ u. h.0 (ground arith)))),
    (λ (u, v). let good = h.1 (v refl) in ground arith),
  )
  serves_iff false true bad c P b h = (
    (λ g. ((λ u. refl), (λ u. h.0 (ground arith)))),
    (λ (u, v). let good = h.1 (v refl) in ground arith),
  )
  serves_iff true false bad c P b h =
      ((λ g. ground arith), (λ (u, v). let wrong = u refl in cc (wrong)))
  serves_iff false false bad c P b h = ((λ g. ((λ u. u), (λ u. cc (u)))), (λ s. refl))

  pub check_doctor_iff :
      (m : Manifest lib)
      → Good (check_doctor lib host options path m)
        ↔ Serves options.require_doctor m.control.doctor (Answers (codes "doctor") Healthy)
  unfolding check_doctor failed
  check_doctor_iff m = serves_iff options.require_doctor m.control.doctor _ _ _ refl (
      check_run_iff (codes "doctor") (codes "control.doctor")
        (λ s. judge_report lib host options path (host.report_from s)) Healthy judge_report_iff)

  pub check_cli_schema_iff :
      (m : Manifest lib)
      → Good (check_cli_schema lib host options path m)
        ↔ Serves options.require_cli_schema m.control.cli_schema
            (Answers (codes "cli-schema") Object)
  unfolding check_cli_schema failed
  check_cli_schema_iff m = serves_iff options.require_cli_schema m.control.cli_schema _ _ _ refl (
      check_run_iff (codes "cli-schema") (codes "control.cli-schema")
        (λ s. judge_schema lib host options path (host.value_from s)) Object judge_schema_iff)

  pub check_control_ping_iff :
      (m : Manifest lib)
      → Good (check_control_ping lib host options path m)
        ↔ Serves false m.control.ping (Answers (codes "ping") Yes)
  unfolding check_control_ping failed
  check_control_ping_iff m = serves_iff false m.control.ping (failed [] []) _ _ refl (
      check_run_iff (codes "ping") (codes "control.ping")
        (λ s. judge_ping lib host options path (host.value_from s)) Yes judge_ping_iff)

  -- The worker is greeted, answers a ping, and acknowledges a shutdown and exits.
  abbrev pub Works : Manifest lib → Type 0
  Works m =
      (c : WorkerClient lib J) × (started lib host options path m ≡ ok c)
      × ((ping_worker lib J c 0xBADF00D).0 ≡ ok tt)
      × ((shutdown_worker lib J host.exit (ping_worker lib J c 0xBADF00D).1).0 ≡ ok tt)

  check_answer_iff :
      (name good : Text) (r : Result (Unit {0}) (WorkerClientError lib J))
      → (is_good lib (check_answer lib host options path name good r) ≡ true) ↔ (r ≡ ok tt)
  unfolding passed failed
  check_answer_iff name good (ok tt) = ((λ g. refl), (λ g. refl))
  check_answer_iff name good (err e) = ((λ g. cc), (λ g. cc))

  check_spawned_iff :
      (m : Manifest lib)
      → Good (check_spawned lib host options path (started lib host options path m)) ↔ Works m
  unfolding passed failed
  check_spawned_iff m = go (started lib host options path m) refl
    where
      go :
          (r : Result (WorkerClient lib J) (WorkerClientError lib J))
          → started lib host options path m ≡ r
          → Good (check_spawned lib host options path r) ↔ Works m
      go (err x) e = ((λ g. cc), (λ (c, f, p, q). ground arith))
      go (ok c) e =
          let pinged =
            check_answer_iff (codes "worker.ping") (codes "pong received")
              (ping_worker lib J c 0xBADF00D).0 in
          let closed =
            check_answer_iff (codes "worker.shutdown") (codes "acknowledged and exited")
              (shutdown_worker lib J host.exit (ping_worker lib J c 0xBADF00D).1).0 in
          (
            (λ g. (c, e, pinged.0 (ground arith), closed.0 (ground arith))),
            (λ (d, f, p, q).
                let same : d ≡ c = ground arith in
                let good1 =
                  pinged.1 (subst (λ x. (ping_worker lib J x 0xBADF00D).0 ≡ ok tt) same p) in
                let good2 = closed.1 (
                  subst
                    (λ x.
                      (shutdown_worker lib J host.exit (ping_worker lib J x 0xBADF00D).1).0 ≡ ok tt)
                    same q) in
                ground arith),
          )

  pub check_worker_iff :
      (m : Manifest lib)
      → Good (check_worker lib host options path m)
        ↔ Serves options.require_worker (supports lib m worker) (Works m)
  unfolding check_worker failed
  check_worker_iff m = go options.require_worker (supports lib m worker) _ refl
    where
      go :
          (required advertised : Bool) (bad : DoctorCheck)
          → is_good lib bad ≡ false
          → Good (
              if required || advertised
              then (if not advertised
                  then bad ∷ []
                  else check_spawned lib host options path (started lib host options path m))
              else [])
            ↔ Serves required advertised (Works m)
      go true true bad b = (
        (λ g. ((λ u. refl), (λ u. (check_spawned_iff m).0 g))),
        (λ (u, v). (check_spawned_iff m).1 (v refl)),
      )
      go false true bad b = (
        (λ g. ((λ u. refl), (λ u. (check_spawned_iff m).0 g))),
        (λ (u, v). (check_spawned_iff m).1 (v refl)),
      )
      go true false bad b = ((λ g. ground arith), (λ (u, v). let wrong = u refl in cc (wrong)))
      go false false bad b = ((λ g. ((λ u. u), (λ u. cc (u)))), (λ s. refl))

  pub check_interfaces_iff :
      (m : Manifest lib) (rs : List (InterfaceRequirement lib))
      → Good (check_interfaces lib host options path m rs) ↔ All (Offered lib J m) rs
  unfolding passed failed
  check_interfaces_iff m [] = ((λ g. tt), (λ g. refl))
  check_interfaces_iff m (r ∷ rs) =
      let rest = check_interfaces_iff m rs in
      elim (Option-cases (Compatibility.interface lib m r.id)) [
        | inl e ↦ ((λ g. ground arith), (λ ((i, f, k), h). ground arith))
        | inr (i, e) ↦ (
          (λ g. ((i, e, ground arith), rest.0 (ground arith))),
          (λ ((j, f, k), h). let more = rest.1 h in ground arith),
        )
      ]

  pub check_valid_iff :
      (m : Manifest lib)
      → (is_good lib (check_valid lib host options path (validate lib m)) ≡ true)
        ↔ (validate lib m ≡ ok tt)
  unfolding passed failed
  check_valid_iff m = go (validate lib m)
    where
      go :
          (r : Result (Unit {0}) ManifestError)
          → (is_good lib (check_valid lib host options path r) ≡ true) ↔ (r ≡ ok tt)
      go (ok tt) = ((λ g. refl), (λ g. refl))
      go (err e) = ((λ g. cc), (λ g. cc))

  pub check_identity_iff :
      (declared : PluginId) (expected : Option PluginId)
      → Good (check_identity lib host options path declared expected)
        ↔ ((id : PluginId) → expected ≡ some id → declared ≡ id)
  unfolding passed failed
  check_identity_iff declared none = ((λ g. λ id e. cc), (λ h. refl))
  check_identity_iff declared (some id) = elim (Bool-cases (declared == id)) [
    | inl same ↦ ((λ g. λ i e. ground (arith, ==_iff declared id)), (λ h. ground arith))
    | inr other ↦
        ((λ g. ground arith), (λ h. let equal = h id refl in ground (arith, ==_iff declared id)))
  ]
