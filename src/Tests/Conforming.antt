-- ===== src/Tests/Conforming.antt =====
-- Examples for the conformance checks.
use outboard.Prelude.{ℕ, codes, ◌≡◌, refl, true, false, [], ◌∷◌, none, some, ok}
use outboard.Tests.{crates, tool, tool_id, tool_path, files}
use outboard.Tests.Resolving.{child}
use outboard.Tests.Workers.{hello}
use outboard.Doctor.{healthy}
use outboard.Manifest.{Manifest}
use outboard.Protocol.{PluginFrame, pong, shutdown_ack}
use outboard.Worker.Client.{arrived}
use outboard.Testing.{
  ConformanceOptions, Surroundings, conforms, check_plugin, is_file, check_doctor, check_cli_schema,
  check_control_ping, check_worker,
}
use outboard.Discovery.{explicit}
use outboard.Doctor.{passed, failed, is_healthy, from_checks}
use outboard.Id.{allowed, new_id, new_plugin_id, validate_identifier}
use outboard.Manifest.Validate.{validate, check_ids}
use outboard.Process.{run_capture_args, run_capture, wait_loop}
use outboard.Worker.{send}
use outboard.Worker.Client.{ping_worker, await_pong, shutdown_worker, await_ack}
use outboard.Worker.Client.Spawn.{spawn_worker}
use outboard.Testing.Conforms.{Reports, Keeps, check_plugin_iff}

abbrev surroundings : Surroundings crates ℕ
surroundings = record {
  fs = files;
  spawned = λ p args. ok child;
  manifest_from = λ s. ok tool;
  report_from = λ s. ok healthy;
  value_from = λ s. ok 1;
  is_object = λ v. true;
  bool_at = λ name v. some true;
  pipes = ok (record {
    incoming =
        arrived (PluginFrame.hello hello) ∷ arrived (pong 0xBADF00D) ∷ arrived shutdown_ack ∷ [];
    writer = record { sent = []; fault = none };
  });
  exit = ok tt;
  says = λ m. [];
}

abbrev options : ConformanceOptions crates
options = record {
  expected_id = some tool_id;
  required_interfaces = record { id = codes "x.y"; version = 3 } ∷ [];
  require_worker = true;
  require_doctor = true;
  require_cli_schema = false;
  timeout = 5000;
}

healthy_tool : conforms crates (check_plugin crates surroundings options tool_path) ≡ true
unfolding conforms check_plugin check_doctor check_cli_schema check_control_ping check_worker passed
    failed run_capture_args run_capture wait_loop is_healthy healthy from_checks validate check_ids
    new_id new_plugin_id validate_identifier spawn_worker send ping_worker await_pong
    shutdown_worker await_ack explicit allowed
healthy_tool = refl

check_plugin_iff_example :
    (is_file crates surroundings options tool_path ≡ true)
    × ((m : Manifest crates) × Reports crates surroundings options tool_path m
        × Keeps crates surroundings options tool_path m)
check_plugin_iff_example = (check_plugin_iff crates surroundings options tool_path).0 healthy_tool
