-- ===== src/Worker/Client.antt =====
-- `WorkerClient` of crates/outboard/src/worker.rs.
pub mod Laws
pub mod Meeting
pub mod Spawn
use outboard.Prelude.{
  ℕ, ◌+◌, ◌-◌, ◌^◌, Text, ◌≡◌, Bool, true, false, not, ◌==◌, nat_eq, list_eq, List, [], ◌∷◌, ◌++◌,
  map, Option, none, some, Result, ok, err, ◌>>=◌, if◌then◌else◌, ltb,
}
use outboard.Crates.{Crates}
use outboard.Id.{InterfaceId}
use outboard.FileSystem.{ErrorKind}
use outboard.Manifest.{Manifest, InterfaceRequirement, worker}
use outboard.Manifest.Compatibility.{supports}
use outboard.Protocol.{
  RequestId, HostHello, PluginHello, HostFrame, PluginFrame, InvokeRequest, InvocationResult,
  WorkerError, Payload, started, progress, output, finished, error, pong, shutdown_ack, invoke,
  cancel, ping, shutdown, from_os,
}
use outboard.Protocol.Framing.{FrameError, eof}
use outboard.Worker.{Writer, Written, send}

-- u64::MAX
abbrev pub u64_max : ℕ
u64_max = 2 ^ 64 - 1

-- u64::saturating_add(1)
abbrev pub next_request : RequestId → RequestId
next_request id = if ltb id u64_max then id + 1 else u64_max

module _ (lib : Crates) (J : Type 0) where
  open lib use {Version, VersionReq, matches, framework_version, protocol_version, protocol_req}

  pub data WorkerClientError : Type 0 where
    worker_not_supported : WorkerClientError
    spawn : ErrorKind → WorkerClientError
    frame : FrameError J → WorkerClientError
    expected_hello : PluginFrame lib → WorkerClientError
    manifest_changed : WorkerClientError
    protocol : (actual : Version) (accepted : VersionReq) → WorkerClientError
    worker_error : WorkerError lib → WorkerClientError
    incomplete : RequestId → WorkerClientError
    timeout : ℕ → WorkerClientError
    channel_closed : WorkerClientError
    wait : ErrorKind → WorkerClientError

  -- What the channel of the reader's thread holds: a frame, the error that ends the reader, or a
  -- pause as long as the control timeout. After the last of these the channel is closed.
  pub data Arrival : Type 0 where
    arrived : PluginFrame lib → Arrival
    failed : FrameError J → Arrival
    pause : Arrival

  pub record InvocationTranscript : Type 0 where
    pub id : RequestId
    pub events : List (PluginFrame lib)
    pub result : InvocationResult lib

  -- The state of a WorkerClient, without the handles of its child and thread.
  pub record WorkerClient : Type 0 where
    pub incoming : List Arrival
    pub writer : Writer J (HostFrame lib)
    pub next_id : RequestId
    pub manifest : Manifest lib
    pub control_timeout : ℕ

  abbrev pub Answer : Type 0 → Type 0
  Answer A = Result A WorkerClientError × WorkerClient

  -- The end of a read: `UnexpectedEof` and a closed channel leave the invocation incomplete.
  abbrev pub broken : RequestId → FrameError J → WorkerClientError
  broken id eof = incomplete id
  broken id e = frame e

  pub data Heard : Type 0 where
    last : InvocationResult lib → Heard
    refused : WorkerError lib → Heard
    event : Heard

  -- The match of the loop of `invoke` on a frame.
  abbrev pub heard : RequestId → PluginFrame lib → Heard
  heard id (finished i result) = if i == id then last result else event
  heard id (error (some i) e) = if i == id then refused e else event
  heard id _ = event

  abbrev pub Waited : Type 0
  Waited = Result InvocationTranscript WorkerClientError × List Arrival

  -- What the loop does with a frame, `later` being its next round.
  abbrev pub take_in : RequestId → List (PluginFrame lib) → List Arrival → Waited → Heard → Waited
  take_in id events rest later (last result) =
      (ok (record { id = id; events = events; result = result }), rest)
  take_in id events rest later (refused e) = (err (worker_error e), rest)
  take_in id events rest later event = later

  -- The loop of `invoke`, with the events so far.
  unfoldable pub await : RequestId → List (PluginFrame lib) → List Arrival → Waited
  await id events [] = (err (incomplete id), [])
  await id events (pause ∷ rest) = await id events rest
  await id events (failed e ∷ rest) = (err (broken id e), rest)
  await id events (arrived f ∷ rest) =
      let later = await id (events ++ f ∷ []) rest in
      take_in id (events ++ f ∷ []) rest later (heard id f)

  abbrev pub with_writer : WorkerClient → Writer J (HostFrame lib) → WorkerClient
  with_writer c w = record c { writer = w }

  -- `self.writer.write(..)?` and what follows it
  abbrev pub after_write :
      {A : Type 0} → WorkerClient → Written J (HostFrame lib) → (WorkerClient → Answer A) → Answer A
  after_write c (ok u, w) next = next (with_writer c w)
  after_write c (err e, w) next = (err (frame e), with_writer c w)

  abbrev pub request : RequestId → InterfaceId → Text → List Text → InvokeRequest lib
  request id interface command args = record {
    id = id;
    interface = interface;
    command = command;
    args = map from_os args;
    metadata = [];
  }

  abbrev pub awaited : RequestId → WorkerClient → Answer InvocationTranscript
  awaited id c = let answer = await id [] c.incoming in (answer.0, record c { incoming = answer.1 })

  -- WorkerClient::invoke
  unfoldable pub invoke_worker :
      WorkerClient → InterfaceId → Text → List Text → Answer InvocationTranscript
  invoke_worker c interface command args =
      after_write (record c { next_id = next_request c.next_id })
        (send (invoke (request c.next_id interface command args)) c.writer)
        (λ c1. awaited c.next_id c1)

  -- WorkerClient::cancel
  unfoldable pub cancel_request : WorkerClient → RequestId → Answer (Unit {0})
  cancel_request c id = after_write c (send (cancel id) c.writer) (λ c1. (ok tt, c1))

  -- `recv_control` followed by the match of `ping`
  unfoldable pub await_pong :
      ℕ → ℕ → List Arrival → Result (Unit {0}) WorkerClientError × List Arrival
  await_pong limit nonce [] = (err channel_closed, [])
  await_pong limit nonce (pause ∷ rest) = (err (timeout limit), rest)
  await_pong limit nonce (failed e ∷ rest) = (err (frame e), rest)
  await_pong limit nonce (arrived (pong n) ∷ rest) =
      let later = await_pong limit nonce rest in if n == nonce then (ok tt, rest) else later
  await_pong limit nonce (arrived (error id e) ∷ rest) = (err (worker_error e), rest)
  await_pong limit nonce (arrived _ ∷ rest) = await_pong limit nonce rest

  -- WorkerClient::ping
  unfoldable pub ping_worker : WorkerClient → ℕ → Answer (Unit {0})
  ping_worker c nonce = after_write c (send (ping nonce) c.writer) (λ c1.
      let answer = await_pong c1.control_timeout nonce c1.incoming in
      (answer.0, record c1 { incoming = answer.1 }))

  -- `recv_control` followed by the match of `shutdown`
  unfoldable pub await_ack : ℕ → List Arrival → Result (Unit {0}) WorkerClientError × List Arrival
  await_ack limit [] = (err channel_closed, [])
  await_ack limit (pause ∷ rest) = (err (timeout limit), rest)
  await_ack limit (failed e ∷ rest) = (err (frame e), rest)
  await_ack limit (arrived shutdown_ack ∷ rest) = (ok tt, rest)
  await_ack limit (arrived (error id e) ∷ rest) = (err (worker_error e), rest)
  await_ack limit (arrived _ ∷ rest) = await_ack limit rest

  -- WorkerClient::shutdown, `waited` being what `child.wait` gives
  unfoldable pub shutdown_worker : Result (Unit {0}) ErrorKind → WorkerClient → Answer (Unit {0})
  shutdown_worker waited c = after_write c (send shutdown c.writer) (λ c1.
      let answer = await_ack c1.control_timeout c1.incoming in
      (
        answer.0 >>= λ acknowledged. outboard.Prelude.map_err wait waited,
        record c1 { incoming = answer.1 },
      ))
