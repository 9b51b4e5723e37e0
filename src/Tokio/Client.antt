-- ===== src/Tokio/Client.antt =====
-- `WorkerClient`, its reader's task and `Invocation` of crates/outboard-tokio/src/lib.rs. What the
-- client, its invocations and the reader do is a sequence of acts in any order, each of them whole.
pub mod Control
pub mod Routing
pub mod Demux
pub mod Finishing
pub mod Invoking
pub mod Silence
use outboard.Prelude.{
  ℕ, ◌+◌, ◌%◌, ◌^◌, Text, ◌≡◌, Bool, true, false, ◌==◌, nat_eq, List, [], ◌∷◌, ◌++◌, map, Option,
  none, some, Result, ok, err, if◌then◌else◌,
}
use outboard.Crates.{Crates}
use outboard.Id.{InterfaceId}
use outboard.FileSystem.{ErrorKind}
use outboard.Protocol.{
  RequestId, HostFrame, PluginFrame, InvokeRequest, InvocationResult, WorkerError, finished, error,
  invoke, from_os, request_id,
}
use outboard.Protocol.Framing.{FrameError}
use outboard.Worker.{Writer, Written, send}
use outboard.Tokio.{RequestMap, entry_of, without}

-- AtomicU64::fetch_add(1), which wraps
abbrev pub id_after : RequestId → RequestId
id_after id = (id + 1) % 2 ^ 64

module _ (lib : Crates) (J : Type 0) where
  open lib use {Version, VersionReq}

  pub data WorkerClientError : Type 0 where
    worker_not_supported : WorkerClientError
    spawn : ErrorKind → WorkerClientError
    frame : FrameError J → WorkerClientError
    expected_hello : PluginFrame lib → WorkerClientError
    manifest_changed : WorkerClientError
    protocol : (actual : Version) (accepted : VersionReq) → WorkerClientError
    worker_error : WorkerError lib → WorkerClientError
    channel_closed : RequestId → WorkerClientError
    timeout : ℕ → WorkerClientError
    wait : ErrorKind → WorkerClientError

  -- The state of a WorkerClient with its ClientInner: the entries of the active requests, the frames
  -- that each channel and the global channel were sent, whether the reader's task still runs and
  -- whether the receiver of the global channel exists.
  pub record Client : Type 0 where
    pub pending : RequestMap
    pub channels : ℕ → List (PluginFrame lib)
    pub next_channel : ℕ
    pub next_id : RequestId
    pub writer : Writer J (HostFrame lib)
    pub reading : Bool
    pub global : List (PluginFrame lib)
    pub global_open : Bool

  pub record Invocation : Type 0 where
    pub id : RequestId
    pub channel : ℕ
    pub events : List (PluginFrame lib)

  abbrev pub pushed :
      ℕ → PluginFrame lib → (ℕ → List (PluginFrame lib)) → ℕ → List (PluginFrame lib)
  pushed c f channels d = if d == c then channels d ++ f ∷ [] else channels d

  -- `Finished` and `Error` end a request.
  abbrev pub is_terminal : PluginFrame lib → Bool
  is_terminal (finished _ _) = true
  is_terminal (error _ _) = true
  is_terminal _ = false

  -- `tx.send(frame)` on the channel that the map has
  abbrev pub delivered :
      Option ℕ → PluginFrame lib → (ℕ → List (PluginFrame lib)) → ℕ → List (PluginFrame lib)
  delivered none f channels = channels
  delivered (some c) f channels = pushed c f channels

  -- The end of the reader's task
  abbrev pub stopped : Client → Client
  stopped s = record s { reading = false; pending = [] }

  -- The branches of the reader's loop on a frame, by its request
  abbrev pub route : Option RequestId → PluginFrame lib → Client → Client
  route none f s = if s.global_open then record s { global = s.global ++ f ∷ [] } else stopped s
  route (some id) f s = record s {
    channels = delivered (entry_of id s.pending) f s.channels;
    pending = if is_terminal f then without id s.pending else s.pending;
  }

  abbrev pub taken_in : Result (PluginFrame lib) (FrameError J) → Client → Client
  taken_in (err e) s = stopped s
  taken_in (ok f) s = route (request_id lib f) f s

  -- A round of the reader's loop, `r` being what it reads. After its end it reads nothing.
  unfoldable pub read_frame : Result (PluginFrame lib) (FrameError J) → Client → Client
  read_frame r s = if s.reading then taken_in r s else s

  abbrev pub request : RequestId → InterfaceId → Text → List Text → InvokeRequest lib
  request id interface command args = record {
    id = id;
    interface = interface;
    command = command;
    args = map from_os args;
    metadata = [];
  }

  -- The entry and the channel of a new invocation
  abbrev pub registered : Client → Client
  registered s = record s {
    next_id = id_after s.next_id;
    next_channel = s.next_channel + 1;
    channels = λ d. if d == s.next_channel then [] else s.channels d;
    pending = (s.next_id, s.next_channel) ∷ without s.next_id s.pending;
  }

  abbrev pub invoked :
      Client → Written J (HostFrame lib) → Result Invocation WorkerClientError × Client
  invoked s (ok u, w) = (
    ok (record { id = s.next_id; channel = s.next_channel; events = [] }),
    record (registered s) { writer = w },
  )
  invoked s (err e, w) = (
    err (frame e),
    record (registered s) { writer = w; pending = without s.next_id (registered s).pending },
  )

  -- WorkerClient::invoke
  unfoldable pub invoke_async :
      InterfaceId → Text → List Text → Client → Result Invocation WorkerClientError × Client
  invoke_async interface command args s =
      invoked s (send (invoke (request s.next_id interface command args)) s.writer)

  abbrev write_result : Result (Unit {0}) (FrameError J) → Result (Unit {0}) WorkerClientError
  write_result (ok u) = ok tt
  write_result (err e) = err (frame e)

  -- `Invocation::cancel` and the writes that `ping` and `shutdown` begin with
  unfoldable pub write_control :
      HostFrame lib → Client → Result (Unit {0}) WorkerClientError × Client
  write_control f s =
      let wrote = send f s.writer in (write_result wrote.0, record s { writer = wrote.1 })

  -- What is done with a client: invocations, other writes, rounds of the reader, and the drop of
  -- the WorkerClient, which an Invocation can outlive.
  pub data Act : Type 0 where
    invokes : InterfaceId → Text → List Text → Act
    writes : HostFrame lib → Act
    reads : Result (PluginFrame lib) (FrameError J) → Act
    drops : Act

  unfoldable pub act : Act → Client → Client
  act (invokes interface command args) s = (invoke_async interface command args s).1
  act (writes f) s = (write_control f s).1
  act (reads r) s = read_frame r s
  act drops s = record s { global_open = false }

  unfoldable pub acts : List Act → Client → Client
  acts [] s = s
  acts (a ∷ rest) s = acts rest (act a s)

  -- The client that `spawn` returns, with the writer to its worker.
  abbrev pub connected : Writer J (HostFrame lib) → Client
  connected w = record {
    pending = [];
    channels = λ c. [];
    next_channel = 0;
    next_id = 1;
    writer = w;
    reading = true;
    global = [];
    global_open = true;
  }

  pub record AsyncInvocationTranscript : Type 0 where
    pub id : RequestId
    pub events : List (PluginFrame lib)
    pub result : InvocationResult lib

  -- A receive on a channel, given what is left in it and whether it has a sender.
  pub data Received : Type 0 where
    frame_in : PluginFrame lib → List (PluginFrame lib) → Received
    closed_empty : Received
    waiting : Received

  -- The receiver's end of `rx.recv()`
  abbrev pub receive : Bool → List (PluginFrame lib) → Received
  receive has_sender (f ∷ fs) = frame_in f fs
  receive has_sender [] = if has_sender then waiting else closed_empty

  -- A sender of the channel is in the map as long as the request is active.
  abbrev pub has_sender : ℕ → RequestMap → Bool
  has_sender c [] = false
  has_sender c (p ∷ ps) = if p.1 == c then true else has_sender c ps

  -- Where a poll of `Invocation::finish` leaves it: done, or waiting with the events so far.
  pub data Finish : Type 0 where
    done : Result AsyncInvocationTranscript WorkerClientError → Finish
    pending_with : List (PluginFrame lib) → Finish

  pub data Verdict : Type 0 where
    result_of : InvocationResult lib → Verdict
    error_of : WorkerError lib → Verdict
    event_of : Verdict

  -- The match of the loop of `finish` on a frame
  abbrev pub verdict : RequestId → PluginFrame lib → Verdict
  verdict id (finished i result) = if i == id then result_of result else event_of
  verdict id (error (some i) e) = if i == id then error_of e else event_of
  verdict id _ = event_of

  abbrev pub concluded :
      RequestId → List (PluginFrame lib) → PluginFrame lib → Finish → Verdict → Finish
  concluded id events f later (result_of r) =
      done (ok (record { id = id; events = events ++ f ∷ []; result = r }))
  concluded id events f later (error_of e) = done (err (worker_error e))
  concluded id events f later event_of = later

  -- A poll of the loop of `finish`: what is left in the channel, then its end or a wait.
  unfoldable pub poll_finish :
      RequestId → List (PluginFrame lib) → List (PluginFrame lib) → Bool → Finish
  poll_finish id events [] sender =
      if sender then pending_with events else done (err (channel_closed id))
  poll_finish id events (f ∷ fs) sender =
      let later = poll_finish id (events ++ f ∷ []) fs sender in
      concluded id events f later (verdict id f)

  -- Invocation::finish of an invocation that has taken no frame from its channel, as a client in a
  -- given state lets it go
  unfoldable pub finish : Invocation → Client → Finish
  finish i s = poll_finish i.id i.events (s.channels i.channel) (has_sender i.channel s.pending)
