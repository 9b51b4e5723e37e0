-- ===== src/Tokio/Client/Control.antt =====
-- `WorkerClient::ping`, `WorkerClient::shutdown` and the handshake of `WorkerClient::spawn` of
-- crates/outboard-tokio/src/lib.rs.
use outboard.Prelude.{
  ℕ, ◌≡◌, Bool, true, false, not, ◌==◌, nat_eq, List, [], ◌∷◌, Option, none, some, Result, ok, err,
  ◌>>=◌, if◌then◌else◌, arith,
}
use outboard.Crates.{Crates}
use outboard.FileSystem.{ErrorKind}
use outboard.Manifest.{InterfaceRequirement, worker}
use outboard.Manifest.Compatibility.{supports}
use outboard.Manifest.Equality.{manifest_beq}
use outboard.Protocol.{
  PluginHello, HostFrame, PluginFrame, error, pong, shutdown_ack, ping, shutdown,
}
use outboard.Protocol.Framing.{FrameError}
use outboard.Registry.{ResolvedPlugin}
use outboard.Worker.{Writer, Written, send}
use outboard.Worker.Client.{Arrival, arrived, failed, pause}
use outboard.Worker.Client.Spawn
use outboard.Worker.Client.Spawn.{spawn_worker}
use outboard.Tokio.Client.{
  WorkerClientError, spawn, frame, expected_hello, manifest_changed, protocol, worker_not_supported,
  worker_error, channel_closed, timeout, wait, Client, connected, write_control,
}

module _ (lib : Crates) (J : Type 0) where
  open lib use {framework_version, protocol_version, protocol_req, matches}

  -- What a control operation hears on the global channel before its timeout.
  pub data Control : Type 0 where
    heard : PluginFrame lib → Control
    late : Control

  -- The loop of `ping` over what the global channel gives; at the channel's end it is closed.
  unfoldable pub ping_loop : ℕ → ℕ → List Control → Result (Unit {0}) (WorkerClientError lib J)
  ping_loop limit nonce [] = err (channel_closed 0)
  ping_loop limit nonce (late ∷ rest) = err (timeout limit)
  ping_loop limit nonce (heard (pong n) ∷ rest) =
      let later = ping_loop limit nonce rest in if n == nonce then ok tt else later
  ping_loop limit nonce (heard (error id e) ∷ rest) = err (worker_error e)
  ping_loop limit nonce (heard _ ∷ rest) = ping_loop limit nonce rest

  -- The loop of `shutdown`
  unfoldable pub shutdown_loop : ℕ → List Control → Result (Unit {0}) (WorkerClientError lib J)
  shutdown_loop limit [] = err (channel_closed 0)
  shutdown_loop limit (late ∷ rest) = err (timeout limit)
  shutdown_loop limit (heard shutdown_ack ∷ rest) = ok tt
  shutdown_loop limit (heard (error id e) ∷ rest) = err (worker_error e)
  shutdown_loop limit (heard _ ∷ rest) = shutdown_loop limit rest

  -- The end of the child within the timeout, or its kill.
  abbrev child_ended :
      ℕ → Option (Result (Unit {0}) ErrorKind) → Result (Unit {0}) (WorkerClientError lib J)
  child_ended limit none = err (timeout limit)
  child_ended limit (some (err e)) = err (wait e)
  child_ended limit (some (ok u)) = ok tt

  -- WorkerClient::ping
  unfoldable pub ping_async :
      ℕ
      → ℕ
      → List Control
      → Client lib J
      → Result (Unit {0}) (WorkerClientError lib J) × Client lib J
  ping_async limit nonce controls s =
      let wrote = write_control lib J (ping nonce) s in
      (wrote.0 >>= λ sent. ping_loop limit nonce controls, wrote.1)

  -- WorkerClient::shutdown, `exit` being what `child.wait` gives in time
  unfoldable pub shutdown_async :
      ℕ
      → List Control
      → Option (Result (Unit {0}) ErrorKind)
      → Client lib J
      → Result (Unit {0}) (WorkerClientError lib J) × Client lib J
  shutdown_async limit controls exit s =
      let wrote = write_control lib J shutdown s in
      (
        wrote.0 >>= λ sent. shutdown_loop limit controls >>= λ acknowledged. child_ended limit exit,
        wrote.1,
      )

  -- The pipes to a child that was started: the writer, and what the first read gives, if it gives
  -- anything before the control timeout.
  pub record Pipes : Type 0 where
    pub writer : Writer J (HostFrame lib)
    pub first : Option (Result (PluginFrame lib) (FrameError J))

  abbrev pub Spawned : Type 0
  Spawned = Result (Client lib J) (WorkerClientError lib J)

  abbrev pub host_hello : List (InterfaceRequirement lib) → HostFrame lib
  host_hello requested = HostFrame.hello (record {
    framework = framework_version;
    protocol = protocol_version;
    requested_interfaces = requested;
    metadata = [];
  })

  module _ (plugin : ResolvedPlugin lib) (limit : ℕ) where
    -- The checks of the worker's hello
    abbrev pub checked : Writer J (HostFrame lib) → PluginHello lib → Spawned
    checked w hello =
        if not (manifest_beq lib hello.manifest plugin.manifest)
        then err manifest_changed
        else if not (matches protocol_req hello.protocol)
        then err (protocol hello.protocol protocol_req)
        else ok (connected lib J w)

    abbrev pub hello_from : Writer J (HostFrame lib) → PluginFrame lib → Spawned
    hello_from w (PluginFrame.hello hello) = checked w hello
    hello_from w f = err (expected_hello f)

    -- The read of the first frame within the timeout
    abbrev pub first_read :
        Writer J (HostFrame lib) → Option (Result (PluginFrame lib) (FrameError J)) → Spawned
    first_read w none = err (timeout limit)
    first_read w (some (err e)) = err (frame e)
    first_read w (some (ok f)) = hello_from w f

    abbrev pub said_hello :
        Written J (HostFrame lib) → Option (Result (PluginFrame lib) (FrameError J)) → Spawned
    said_hello (err e, w) first = err (frame e)
    said_hello (ok u, w) first = first_read w first

    abbrev pub started_child : List (InterfaceRequirement lib) → Result Pipes ErrorKind → Spawned
    started_child requested (err e) = err (spawn e)
    started_child requested (ok p) = said_hello (send (host_hello requested) p.writer) p.first

    -- WorkerClient::spawn_with_interfaces_timeout, `pipes` being what the start of the child gives.
    -- The child is killed when its handle is dropped, which every error does.
    unfoldable pub spawn_async : List (InterfaceRequirement lib) → Result Pipes ErrorKind → Spawned
    spawn_async requested pipes =
        if not (supports lib plugin.manifest worker)
        then err worker_not_supported
        else started_child requested pipes

    -- The same start of a child, for the client of outboard.Worker.Client.Spawn.
    abbrev pub arrivals : Option (Result (PluginFrame lib) (FrameError J)) → List (Arrival lib J)
    arrivals none = pause ∷ []
    arrivals (some (err e)) = failed e ∷ []
    arrivals (some (ok f)) = arrived f ∷ []

    abbrev pub as_sync : Result Pipes ErrorKind → Result (Spawn.Pipes lib J) ErrorKind
    as_sync (err e) = err e
    as_sync (ok p) = ok (record { incoming = arrivals p.first; writer = p.writer })

    abbrev pub is_ok : {A : Type 0} {X : Type 0} → Result A X → Bool
    is_ok (ok a) = true
    is_ok (err e) = false

    -- The asynchronous client accepts exactly the workers that the synchronous one accepts, whatever
    -- fails on the way.
    pub spawn_agrees :
        (requested : List (InterfaceRequirement lib)) (pipes : Result Pipes ErrorKind)
        → is_ok (spawn_async requested pipes)
          ≡ is_ok (spawn_worker lib J plugin limit requested (as_sync pipes)).0
    unfolding spawn_async spawn_worker
    spawn_agrees requested (err e) = ground arith
    spawn_agrees requested (ok p) = ground arith
