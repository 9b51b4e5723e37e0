-- ===== src/Worker/Client/Spawn.antt =====
-- `spawn` of `WorkerClient` in crates/outboard/src/worker.rs: the handshake with a new worker.
use outboard.Prelude.{
  ℕ, ◌≡◌, refl, Bool, true, false, not, List, [], ◌∷◌, Result, ok, err, if◌then◌else◌, arith,
  Result-cases, inl, inr,
}
use outboard.Crates.{Crates}
use outboard.FileSystem.{ErrorKind}
use outboard.Manifest.{InterfaceRequirement, worker}
use outboard.Manifest.Compatibility.{supports}
use outboard.Manifest.Equality.{manifest_beq, manifest_beq_iff}
use outboard.Protocol.{
  PluginHello, HostFrame, PluginFrame, started, progress, output, finished, error, pong,
  shutdown_ack,
}
use outboard.Registry.{ResolvedPlugin}
use outboard.Worker.{Writer, Written, send}
use outboard.Worker.Client.{
  WorkerClient, WorkerClientError, Arrival, arrived, failed, pause, spawn, frame, timeout,
  channel_closed, expected_hello, manifest_changed, protocol, worker_not_supported,
}

-- DEFAULT_CONTROL_TIMEOUT, in milliseconds
abbrev pub default_control_timeout : ℕ
default_control_timeout = 10000

module _ (lib : Crates) (J : Type 0) where
  open lib use {framework_version, protocol_version, protocol_req, matches}

  -- The ends of the pipes to a child that was started.
  pub record Pipes : Type 0 where
    pub incoming : List (Arrival lib J)
    pub writer : Writer J (HostFrame lib)

  -- The client or an error, and whether the child was killed.
  abbrev pub Spawned : Type 0
  Spawned = Result (WorkerClient lib J) (WorkerClientError lib J) × Bool

  abbrev pub own_hello : List (InterfaceRequirement lib) → HostFrame lib
  own_hello requested = HostFrame.hello (record {
    framework = framework_version;
    protocol = protocol_version;
    requested_interfaces = requested;
    metadata = [];
  })

  module _ (plugin : ResolvedPlugin lib) (limit : ℕ) where
    -- The checks of the worker's hello.
    abbrev pub welcome : Writer J (HostFrame lib) → List (Arrival lib J) → PluginHello lib → Spawned
    welcome w rest hello =
        if not (manifest_beq lib hello.manifest plugin.manifest)
        then (err manifest_changed, true)
        else if not (matches protocol_req hello.protocol)
        then (err (protocol hello.protocol protocol_req), true)
        else (
          ok (record {
            incoming = rest;
            writer = w;
            next_id = 1;
            manifest = hello.manifest;
            control_timeout = limit;
          }),
          false,
        )

    abbrev pub first_frame :
        Writer J (HostFrame lib) → List (Arrival lib J) → PluginFrame lib → Spawned
    first_frame w rest (PluginFrame.hello hello) = welcome w rest hello
    first_frame w rest f = (err (expected_hello f), true)

    -- `recv_control`, and the kill where it fails
    abbrev pub greeted : Writer J (HostFrame lib) → List (Arrival lib J) → Spawned
    greeted w [] = (err channel_closed, true)
    greeted w (pause ∷ rest) = (err (timeout limit), true)
    greeted w (failed e ∷ rest) = (err (frame e), true)
    greeted w (arrived f ∷ rest) = first_frame w rest f

    -- A hello that cannot be written leaves the child running.
    abbrev pub after_hello : Written J (HostFrame lib) → List (Arrival lib J) → Spawned
    after_hello (err e, w) incoming = (err (frame e), false)
    after_hello (ok u, w) incoming = greeted w incoming

    abbrev pub handshake : List (InterfaceRequirement lib) → Result Pipes ErrorKind → Spawned
    handshake requested (err e) = (err (spawn e), false)
    handshake requested (ok p) = after_hello (send (own_hello requested) p.writer) p.incoming

    -- WorkerClient::spawn_with_interfaces_timeout, `pipes` being what the start of the child gives
    unfoldable pub spawn_worker : List (InterfaceRequirement lib) → Result Pipes ErrorKind → Spawned
    spawn_worker requested pipes =
        if not (supports lib plugin.manifest worker)
        then (err worker_not_supported, false)
        else handshake requested pipes

    greeted-ok :
        (w : Writer J (HostFrame lib)) (incoming : List (Arrival lib J)) {c : WorkerClient lib J}
        → (greeted w incoming).0 ≡ ok c
        → (hello : PluginHello lib) × (incoming ≡ arrived (PluginFrame.hello hello) ∷ c.incoming)
          × (hello.manifest ≡ plugin.manifest)
          × (matches protocol_req hello.protocol ≡ true)
          × (c.manifest ≡ plugin.manifest)
          × (c.next_id ≡ 1)
    greeted-ok w (arrived (PluginFrame.hello hello) ∷ rest) {c} h = (
      hello,
      ground arith,
      ground (arith, manifest_beq_iff lib hello.manifest plugin.manifest),
      ground arith,
      ground (arith, manifest_beq_iff lib hello.manifest plugin.manifest),
      ground arith,
    )
    greeted-ok w [] h = cc
    greeted-ok w (pause ∷ rest) h = cc
    greeted-ok w (failed e ∷ rest) h = cc
    greeted-ok w (arrived (started a) ∷ rest) h = cc
    greeted-ok w (arrived (progress a b d) ∷ rest) h = cc
    greeted-ok w (arrived (output a b) ∷ rest) h = cc
    greeted-ok w (arrived (finished a b) ∷ rest) h = cc
    greeted-ok w (arrived (error a b) ∷ rest) h = cc
    greeted-ok w (arrived (pong a) ∷ rest) h = cc
    greeted-ok w (arrived shutdown_ack ∷ rest) h = cc

    -- A client that is returned has met a worker whose first frame was a hello with the manifest of
    -- the resolved plugin, which supports workers, and a protocol that the host accepts. The frames
    -- after the hello are still to be read, and the first request is number 1.
    pub spawn_worker-ok :
        (requested : List (InterfaceRequirement lib)) (pipes : Result Pipes ErrorKind)
        {c : WorkerClient lib J}
        → (spawn_worker requested pipes).0 ≡ ok c
        → (supports lib plugin.manifest worker ≡ true)
          × ((p : Pipes) × (hello : PluginHello lib) × (pipes ≡ ok p)
              × (p.incoming ≡ arrived (PluginFrame.hello hello) ∷ c.incoming)
              × (hello.manifest ≡ plugin.manifest)
              × (matches protocol_req hello.protocol ≡ true)
              × (c.manifest ≡ plugin.manifest)
              × (c.next_id ≡ 1))
    unfolding spawn_worker
    spawn_worker-ok requested (err e) {c} h = ground arith
    spawn_worker-ok requested (ok p) {c} h =
        elim (Result-cases (send (own_hello requested) p.writer).0) [
          | inr (e, q) ↦ ground arith
          | inl (u, q) ↦
              let met =
                greeted-ok (send (own_hello requested) p.writer).1 p.incoming {c = c}
                  (ground arith) in
              (ground arith, (p, met.0, refl, met.1, met.2, met.3, met.4, met.5))
        ]

    -- The hello that a worker of this framework sends is welcome: the client is returned.
    pub spawn_worker-hello :
        (requested : List (InterfaceRequirement lib)) (p : Pipes) (rest : List (Arrival lib J))
        → supports lib plugin.manifest worker ≡ true
        → (send (own_hello requested) p.writer).0 ≡ ok tt
        → p.incoming
          ≡ arrived (
              PluginFrame.hello
                (record { protocol = protocol_version; manifest = plugin.manifest }))
            ∷ rest
        → (c : WorkerClient lib J) × ((spawn_worker requested (ok p)).0 ≡ ok c)
          × (c.incoming ≡ rest)
    unfolding spawn_worker
    spawn_worker-hello requested p rest runs written first = (
      record {
        incoming = rest;
        writer = (send (own_hello requested) p.writer).1;
        next_id = 1;
        manifest = plugin.manifest;
        control_timeout = limit;
      },
      ground (arith, manifest_beq_iff lib plugin.manifest plugin.manifest, lib.protocol_accepted),
      refl,
    )
