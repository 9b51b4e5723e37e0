-- ===== src/Tests.antt =====
-- The data of the tests: versions and requirements are numbers, and a requirement accepts its own.
pub mod Plugins
pub mod Finding
pub mod Wires
pub mod Keeping
pub mod Resolving
pub mod Workers
pub mod Managing
pub mod Overriding
pub mod Tasks
pub mod Calling
pub mod Meeting
pub mod Conforming
pub mod Deriving
use outboard.Prelude.{
  ℕ, Text, codes, ◌≡◌, refl, Bool, true, false, List, [], ◌∷◌, Option, none, some, ◌==◌, ◌||◌,
  nat_eq, list_eq, if◌then◌else◌, Result, ok, err,
}
use outboard.Crates.{Crates}
use outboard.Id.{PluginId}
use outboard.FileSystem.{FileSystem, Metadata, ReadDir, entries, failed, not_found, ErrorKind}
use outboard.Manifest.{
  Manifest, InterfaceManifest, PluginRequirement, InterfaceRequirement, ExecutionMode, one_shot,
  worker,
}

abbrev parse : Text → Option ℕ
parse t =
    if t == codes "0.1.0" || t == codes "^0.1.0"
    then some 1
    else if t == codes "1.0.0" || t == codes "^1.0"
    then some 10
    else none

abbrev pub crates : Crates
crates = record {
  Version = ℕ;
  VersionReq = ℕ;
  Value = ℕ;
  Float = ℕ;
  version_eq = nat_eq;
  req_eq = nat_eq;
  value_eq = nat_eq;
  parse_version = parse;
  parse_req = parse;
  matches = λ r v. r == v;
  framework_version = 1;
  framework_parses = refl;
  framework_req = 1;
  framework_req_parses = refl;
  protocol_version = 10;
  protocol_parses = refl;
  protocol_req = 10;
  protocol_req_parses = refl;
  framework_accepted = refl;
  protocol_accepted = refl;
}

abbrev pub tool_id : PluginId
tool_id = record { namespace = codes "lab"; kind = codes "tool"; name = codes "a-b" }

abbrev pub tool_interface : InterfaceManifest crates
tool_interface = record { id = codes "x.y"; version = 3 }

abbrev pub tool : Manifest crates
tool = record {
  version = 1;
  plugin = record { id = tool_id; version = 7; description = none; homepage = none };
  framework = 1;
  worker_protocol = 10;
  interfaces = tool_interface ∷ [];
  execution = one_shot ∷ worker ∷ [];
  capabilities = [];
  control = record { doctor = true; cli_schema = false; ping = true };
  metadata = [];
}

abbrev pub need : PluginRequirement crates
need = record {
  kind = codes "tool";
  name = some (codes "a-b");
  interface = some (record { id = codes "x.y"; version = 3 });
  capabilities = [];
  execution = some worker;
}

abbrev pub bin : Text
bin = codes "/bin"

abbrev pub tool_path : Text
tool_path = codes "/bin/lab-tool-a-b"

-- One directory, with one executable and an entry that is none.
abbrev pub files : FileSystem
files = record {
  canonicalize = λ p. some p;
  metadata = λ p.
      if p == tool_path
      then some (record { is_file = true; mode = 0o755; len = 9; modified = some 5 })
      else none;
  read_dir = λ p.
      if p == bin
      then entries (some (codes "notes") ∷ none ∷ some (codes "lab-tool-a-b") ∷ [])
      else failed not_found;
}

abbrev pub variables : Text → Option Text
variables name = if name == codes "PATH" then some (codes "/bin:/bin:/usr/bin") else none
