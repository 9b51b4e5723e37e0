-- ===== src/Management.antt =====
-- crates/outboard-clap/src/management.rs: what the management commands do, less what they print.
-- The text of an error of the registry, of a version or of a source is not modelled: a row holds
-- what it is made from.
pub mod Selectors
use outboard.Prelude.{
  ℕ, Text, codes, ◌≡◌, Bool, true, false, not, ◌&&◌, ◌||◌, ◌==◌, nat_eq, list_eq, is_empty, List,
  [], ◌∷◌, ◌++◌, Option, none, some, Result, ok, err, ◌>>=◌, map_err, if◌then◌else◌,
}
use outboard.BtreeMap.{get}
use outboard.Crates.{Crates}
use outboard.FileSystem.{ErrorKind}
use outboard.Id.{IdentifierError, PluginId, display_plugin_id, plugin_id_ord, new_plugin_name}
use outboard.Discovery.{PluginCandidate, DiscoverySet, DiscoverySource, selected_by_name, listed}
use outboard.Doctor.{DoctorReport}
use outboard.Manifest.{worker}
use outboard.Manifest.Compatibility.{supports}
use outboard.Process.{CapturedOutput, ProcessError, run_capture_args}
use outboard.Cache.Persist as Persist
use outboard.Registry.{Registry, InspectedPlugin, ResolvedPlugin, RegistryError, Host, discover}
use outboard.Registry.Inspect.{inspect, Inspection, with_store}
use outboard.Worker.Client.{WorkerClient, WorkerClientError, ping_worker, shutdown_worker}
use outboard.Worker.Client.Spawn.{Pipes, spawn_worker, default_control_timeout}

-- str::split_once, at the first colon
unfoldable pub split_once : Text → Option (Text × Text)
split_once [] = none
split_once (c ∷ s) =
    let rest = split_once s in
    if c == b':' then some ([], s) else elim rest [ none ↦ none | some p ↦ some (c ∷ p.0, p.1) ]

module _ (lib : Crates) (J : Type 0) where
  -- What ends a command: the source boxes these errors.
  pub data CommandError : Type 0 where
    bad_selector : CommandError
    not_discovered : (selector : Text) → CommandError
    bad_name : IdentifierError → CommandError
    registry : RegistryError lib → CommandError
    process : ProcessError → CommandError
    doctor_failed : (stderr : Text) → CommandError
    bad_report : (source : Text) → CommandError
    worker_failed : WorkerClientError lib J → CommandError

  abbrev checked : Option (Text × Text) → Result (Text × Text) CommandError
  checked none = err bad_selector
  checked (some (k, n)) = if is_empty k || is_empty n then err bad_selector else ok (k, n)

  unfoldable pub parse_selector : Text → Result (Text × Text) CommandError
  parse_selector s = checked (split_once s)

  pub record ListRow : Type 0 where
    pub id : Text
    pub path : Text
    pub source : DiscoverySource
    pub selected : Bool
    pub version : Option lib.Version
    pub inspect_error : Option (RegistryError lib)

  pub record DoctorOutput : Type 0 where
    pub plugin : Text
    pub report : DoctorReport
    pub worker_handshake : Option Text

  module _ (host : Host lib) where
    abbrev pub Selection : Type 0
    Selection = Result (PluginCandidate × InspectedPlugin lib) CommandError × Registry lib

    abbrev pub inspected : PluginCandidate → Inspection lib host → Selection
    inspected c (err e, r) = (err (registry e), r)
    inspected c (ok i, r) = (ok (c, i), r)

    abbrev pub found : Text → Registry lib → Option PluginCandidate → Selection
    found selector r none = (err (not_discovered selector), r)
    found selector r (some c) = inspected c (inspect lib host r c)

    -- The candidate that a selector names.
    abbrev pub looked_up : Registry lib → Text → Result (Option PluginCandidate) CommandError
    looked_up r selector = do
      p ← parse_selector selector
      d ← map_err registry (discover lib host r p.0)
      name ← map_err bad_name (new_plugin_name p.1)
      ok (selected_by_name d name)

    abbrev pub selecting :
        Text → Registry lib → Result (Option PluginCandidate) CommandError → Selection
    selecting selector r (err e) = (err e, r)
    selecting selector r (ok c) = found selector r c

    unfoldable pub select : Registry lib → Text → Selection
    select r selector = selecting selector r (looked_up r selector)

    abbrev pub row_of :
        PluginCandidate → Bool → Option lib.Version → Option (RegistryError lib) → ListRow
    row_of c selected version problem = record {
      id = display_plugin_id c.id;
      path = c.path;
      source = c.source;
      selected = selected;
      version = version;
      inspect_error = problem;
    }

    abbrev pub inspected_row : PluginCandidate → Bool → Inspection lib host → ListRow × Registry lib
    inspected_row c selected (ok i, r) =
        (row_of c selected (some i.manifest.plugin.version) none, r)
    inspected_row c selected (err e, r) = (row_of c selected none (some e), r)

    unfoldable pub row : Registry lib → PluginCandidate → Bool → Bool → ListRow × Registry lib
    row r c selected do_inspect =
        if do_inspect
        then inspected_row c selected (inspect lib host r c)
        else (row_of c selected none none, r)

    unfoldable pub rows :
        Registry lib → List (PluginCandidate × Bool) → Bool → List ListRow × Registry lib
    rows r [] do_inspect = ([], r)
    rows r ((c, selected) ∷ cs) do_inspect =
        let one = row r c selected do_inspect in
        let rest = rows one.1 cs do_inspect in (one.0 ∷ rest.0, rest.1)

    -- The candidates in the order of their rows: each selected one and, for `--all`, those it
    -- shadows, which are marked as not selected.
    abbrev pub marked : List PluginCandidate → List (PluginCandidate × Bool)
    marked [] = []
    marked (c ∷ cs) = (c, false) ∷ marked cs

    unfoldable pub listing :
        DiscoverySet → Bool → List PluginCandidate → List (PluginCandidate × Bool)
    listing d all [] = []
    listing d all (c ∷ cs) =
        (c, true)
        ∷ ((if all then marked (listed (get c.id d.shadowed)) else []) ++ listing d all cs)

    abbrev pub list_rows :
        Registry lib
        → Bool
        → Bool
        → Result DiscoverySet (RegistryError lib)
        → Result (List ListRow) CommandError × Registry lib
    list_rows r do_inspect all (err e) = (err (registry e), r)
    list_rows r do_inspect all (ok d) =
        let made = rows r (listing d all d.selected) do_inspect in (ok made.0, made.1)

    -- `list`, up to the print of its rows
    unfoldable pub list :
        Registry lib
        → (kind : Text) → (do_inspect all : Bool)
        → Result (List ListRow) CommandError × Registry lib
    list r kind do_inspect all = list_rows r do_inspect all (discover lib host r kind)

    -- `cache` with `clear`
    unfoldable pub clear_cache : Registry lib → Registry lib
    clear_cache r =
        with_store lib host r (Persist.clear lib host.codec host.digest host.fs host.faults r.store)

    -- The worker is started, answers a ping and shuts down. `pipes` is what its start gives, and
    -- `waited` what the wait for its end does.
    abbrev pub pinged :
        Result (Unit {0}) ErrorKind
        → Result (Unit {0}) (WorkerClientError lib J) × WorkerClient lib J
        → Result (Option Text) CommandError
    pinged waited (err e, w) = err (worker_failed e)
    pinged waited (ok u, w) = do
      ended ← map_err worker_failed (shutdown_worker lib J waited w).0
      ok (some (codes "pass"))

    unfoldable pub deep_check :
        ResolvedPlugin lib
        → Result (Pipes lib J) ErrorKind
        → Result (Unit {0}) ErrorKind
        → Result (Option Text) CommandError
    deep_check plugin pipes waited = do
      w ← map_err worker_failed (spawn_worker lib J plugin default_control_timeout [] pipes).0
      pinged waited (ping_worker lib J w 0xBADC0DE)

    abbrev pub reported :
        (Text → Result DoctorReport Text) → CapturedOutput → Result DoctorReport CommandError
    reported decode o =
        if not (o.status == 0)
        then err (doctor_failed o.stderr)
        else map_err bad_report (decode o.stdout)

    abbrev pub examined :
        (decode : Text → Result DoctorReport Text) (pipes : Text → Result (Pipes lib J) ErrorKind)
        (waited : Result (Unit {0}) ErrorKind) (deep : Bool) (limit : ℕ)
        → PluginCandidate × InspectedPlugin lib
        → Result DoctorOutput CommandError
    examined decode pipes waited deep limit (c, i) = do
      o ← map_err process (
          run_capture_args host.spawned c.path (codes "__outboard" ∷ codes "doctor" ∷ []) none
            limit)
      report ← reported decode o
      handshake ←
          if deep && supports lib i.manifest worker
          then deep_check (record { candidate = c; manifest = i.manifest }) (pipes c.path) waited
          else ok none
      ok (record {
        plugin = display_plugin_id i.manifest.plugin.id;
        report = report;
        worker_handshake = handshake;
      })

    -- `doctor`, up to the print of its report
    unfoldable pub doctor :
        (decode : Text → Result DoctorReport Text) (pipes : Text → Result (Pipes lib J) ErrorKind)
        (waited : Result (Unit {0}) ErrorKind)
        → Registry lib
        → (selector : Text) → (deep : Bool) → Result DoctorOutput CommandError × Registry lib
    doctor decode pipes waited r selector deep =
        let chosen = select r selector in
        (chosen.0 >>= examined decode pipes waited deep r.control_timeout, chosen.1)
