-- ===== src/Tokio/Server.antt =====
-- `serve_worker` of crates/outboard-tokio/src/lib.rs: its main loop, the task of each invocation
-- and the task that writes, each of which takes one step at a time.
pub mod Tables
pub mod Ownership
pub mod Opening
pub mod Clones
pub mod Talk
pub mod Cancelling
pub mod History
pub mod Told
pub mod Close
pub mod MainTask
pub mod Jobs
pub mod Story
pub mod Outcome
pub mod Panic
pub mod Running
pub mod Progress
use outboard.Prelude.{
  ℕ, zero, suc, ◌+◌, Text, codes, ◌≡◌, Bool, true, false, not, List, [], ◌∷◌, ◌++◌, map, Option,
  none, some, Result, ok, err, ◌>>=◌, if◌then◌else◌, ◌==◌, nat_eq, any, and_then,
}
use outboard.Crates.{Crates}
use outboard.Id.{InterfaceId}
use outboard.Manifest.{Manifest, InterfaceManifest, InterfaceRequirement}
use outboard.Manifest.Compatibility
use outboard.Protocol.{
  RequestId, HostHello, PluginHello, HostFrame, PluginFrame, InvokeRequest, InvocationResult,
  WorkerError, new_worker_error, Payload, started, progress, output, finished, error, pong,
  shutdown_ack, invoke, cancel, ping, shutdown,
}
use outboard.Protocol.Framing.{FrameError}
use outboard.Worker.{Writer, Written, send}
use outboard.Tokio.{RequestMap, entry_of, without}
use outboard.Worker.Server.{InterfaceProblem, missing, other_version, closing}

-- A cancellation token, by its number: the clones of a token share it.
abbrev pub CancellationToken : Type 0
CancellationToken = ℕ

-- An item of a list, with what stands before and after it.
abbrev pub pick : {A : Type 0} → ℕ → List A → Option (List A × A × List A)
pick n [] = none
pick zero (x ∷ xs) = some ([], x, xs)
pick (suc n) (x ∷ xs) = elim (pick n xs) [ none ↦ none | some p ↦ some (x ∷ p.0, p.1, p.2) ]

-- `E` is what a handler learns from outside while it waits for something.
module _ (lib : Crates) (J E : Type 0) where
  open lib use {Version, VersionReq, Float, matches, protocol_version}

  pub data WorkerServerError : Type 0 where
    frame : FrameError J → WorkerServerError
    expected_hello : WorkerServerError
    framework : (host : Version) (accepted : VersionReq) → WorkerServerError
    protocol : (host : Version) (accepted : VersionReq) → WorkerServerError
    interface : InterfaceProblem lib J → WorkerServerError
    writer_join : WorkerServerError

  abbrev pub offered :
      InterfaceRequirement lib
      → Option (InterfaceManifest lib)
      → Result (Unit {0}) WorkerServerError
  offered r none = err (interface (missing r.id))
  offered r (some i) =
      if not (matches r.version i.version)
      then err (interface (other_version r.id r.version i.version))
      else ok tt

  -- The loop of `validate_hello`
  unfoldable pub check_requested :
      Manifest lib → List (InterfaceRequirement lib) → Result (Unit {0}) WorkerServerError
  check_requested m [] = ok tt
  check_requested m (r ∷ rs) = do
    found ← offered r (Compatibility.interface lib m r.id)
    check_requested m rs

  -- validate_hello
  unfoldable pub admit_hello : Manifest lib → HostHello lib → Result (Unit {0}) WorkerServerError
  admit_hello m hello =
      if not (matches m.framework hello.framework)
      then err (framework hello.framework m.framework)
      else if not (matches m.worker_protocol hello.protocol)
      then err (protocol hello.protocol m.worker_protocol)
      else check_requested m hello.requested_interfaces

  -- What an invocation of a handler still does: it uses its InvocationContext, gives a clone of it
  -- to something outside, waits for something, and returns or panics.
  pub data Task : Type 0 where
    returned : Result (InvocationResult lib) (WorkerError lib) → Task
    panicked : Task
    progressed : Option Float → Option Text → (Result (Unit {0}) (WorkerError lib) → Task) → Task
    put_out : Payload lib → (Result (Unit {0}) (WorkerError lib) → Task) → Task
    asked : (Bool → Task) → Task
    parked : Task → Task
    awaited : (E → Task) → Task
    shared : Task → Task

  pub record AsyncWorkerHandler : Type 0 where
    pub invoke : InvokeRequest lib → Task
    pub cancel : RequestId → E → Result (Unit {0}) (WorkerError lib)

  -- A spawned task: in the handler, or with its last frame sent and its entry still to remove.
  pub data Stage : Type 0 where
    running : Task → Stage
    closed : Stage

  pub record Job : Type 0 where
    pub id : RequestId
    pub token : CancellationToken
    pub stage : Stage

  -- The channel to the writer's task, the writer, and the error that ended that task, if one did.
  pub record Outbox : Type 0 where
    pub channel : List (PluginFrame lib)
    pub writer : Writer J (PluginFrame lib)
    pub broken : Option (FrameError J)

  -- `tx.send`, which has no effect once the receiver is gone
  unfoldable pub post : PluginFrame lib → Outbox → Outbox
  post f o = elim o.broken [ none ↦ record o { channel = o.channel ++ f ∷ [] } | some e ↦ o ]

  -- The result of `tx.send` for the methods of an InvocationContext
  unfoldable pub posted : Outbox → Result (Unit {0}) (WorkerError lib)
  posted o = elim o.broken [
    | none ↦ ok tt
    | some e ↦
        err (
          new_worker_error lib (codes "transport_closed") (codes "worker output channel is closed"))
  ]

  abbrev pub wrote : List (PluginFrame lib) → Outbox → Written J (PluginFrame lib) → Outbox
  wrote fs o (ok u, w) = record { channel = fs; writer = w; broken = none }
  wrote fs o (err e, w) = record { channel = []; writer = w; broken = some e }

  abbrev pub round : List (PluginFrame lib) → Outbox → Option (FrameError J) → Option Outbox
  round fs o (some e) = none
  round [] o none = none
  round (f ∷ fs) o none = some (wrote fs o (send f o.writer))

  -- A round of the writer's task; it waits while the channel is empty.
  unfoldable pub write_next : Outbox → Option Outbox
  write_next o = round o.channel o o.broken

  -- Where a step leaves a task.
  pub data Moved : Type 0 where
    blocked : Moved
    aborted : Moved
    moved : Stage → Outbox → Moved
    given : Stage → Moved

  abbrev pub is_cancelled : CancellationToken → List CancellationToken → Bool
  is_cancelled t ts = any (λ u. u == t) ts

  -- A step of the task that `tasks.spawn` starts, up to its last frame.
  unfoldable pub advance :
      E → List CancellationToken → Outbox → RequestId → CancellationToken → Task → Moved
  advance x ts o id token (returned r) = moved closed (post (closing lib J id r) o)
  advance x ts o id token panicked = aborted
  advance x ts o id token (progressed fraction message next) =
      moved (running (next (posted o))) (post (progress id fraction message) o)
  advance x ts o id token (put_out payload next) =
      moved (running (next (posted o))) (post (output id payload) o)
  advance x ts o id token (asked next) = moved (running (next (is_cancelled token ts))) o
  advance x ts o id token (parked next) =
      if is_cancelled token ts then moved (running next) o else blocked
  advance x ts o id token (awaited next) = moved (running (next x)) o
  advance x ts o id token (shared next) = given (running next)

  -- What is done with a clone of an InvocationContext outside its invocation.
  pub data CloneUse : Type 0 where
    clone_progress : Option Float → Option Text → CloneUse
    clone_output : Payload lib → CloneUse
    clone_again clone_drop : CloneUse

  -- The clones that are left, all of them being those before, the one used and those after.
  abbrev pub clones_left :
      CloneUse → List RequestId → List RequestId → RequestId → List RequestId → List RequestId
  clones_left clone_drop clones before id after = before ++ after
  clones_left clone_again clones before id after = id ∷ clones
  clones_left _ clones before id after = clones

  abbrev pub clone_sends : CloneUse → RequestId → Outbox → Outbox
  clone_sends (clone_progress fraction message) id o = post (progress id fraction message) o
  clone_sends (clone_output payload) id o = post (output id payload) o
  clone_sends _ id o = o

  -- Where the main task is: at its loop, in `handler.cancel`, in `tasks.join_next` of a shutdown,
  -- in `writer_task.await`, or at its end.
  pub data Phase : Type 0 where
    serving : Phase
    cancelling : RequestId → Phase
    joining : Phase
    draining : Phase
    ended : Result (Unit {0}) WorkerServerError → Phase

  -- The state of a worker: the frames still to come, the map of active requests, the tasks that
  -- have not ended, the tokens made and cancelled, the way out, and the clones of contexts outside
  -- their invocations, by their requests.
  pub record Server : Type 0 where
    pub incoming : List (HostFrame lib)
    pub pending : RequestMap
    pub tasks : List Job
    pub next_token : CancellationToken
    pub cancelled : List CancellationToken
    pub outbox : Outbox
    pub phase : Phase
    pub clones : List RequestId

  abbrev pub sends : PluginFrame lib → Server → Server
  sends f s = record s { outbox = post f s.outbox }

  abbrev pub hello_again : PluginFrame lib
  hello_again =
      error none
        (new_worker_error lib (codes "duplicate_hello") (codes "hello may only be sent once"))

  abbrev pub already_active : RequestId → PluginFrame lib
  already_active id =
      error (some id)
        (new_worker_error lib (codes "duplicate_request") (codes "request id is already active"))

  -- `token.cancel()` of the token that the map has
  abbrev pub cancel_token :
      Option CancellationToken → List CancellationToken → List CancellationToken
  cancel_token none ts = ts
  cancel_token (some t) ts = t ∷ ts

  module _ (handler : AsyncWorkerHandler) (ending : FrameError J) where
    -- The task of a request that is accepted.
    abbrev pub first_job : InvokeRequest lib → Server → Job
    first_job r s = record { id = r.id; token = s.next_token; stage = running (handler.invoke r) }

    -- The arm of the match on an invocation, `found` being what the map has for its id.
    abbrev pub admit : InvokeRequest lib → Server → Option CancellationToken → Server
    admit r s (some t) = sends (already_active r.id) s
    admit r s none = record s {
      pending = (r.id, s.next_token) ∷ s.pending;
      next_token = s.next_token + 1;
      outbox = post (started r.id) s.outbox;
      tasks = first_job r s ∷ s.tasks;
    }

    -- The match of the loop on a frame
    unfoldable pub handle : HostFrame lib → Server → Server
    handle (HostFrame.hello _) s = sends hello_again s
    handle (ping nonce) s = sends (pong nonce) s
    handle (cancel id) s = record s {
      cancelled = cancel_token (entry_of id s.pending) s.cancelled;
      phase = cancelling id;
    }
    handle shutdown s = record s {
      cancelled = map (λ p. p.1) s.pending ++ s.cancelled;
      phase = joining;
    }
    handle (invoke r) s = admit r s (entry_of r.id s.pending)

    -- A read of the loop. Its error drops the set of tasks, which ends them.
    abbrev pub read_frame : List (HostFrame lib) → Server → Server
    read_frame [] s = record s { phase = ended (err (frame ending)); tasks = [] }
    read_frame (f ∷ fs) s = handle f (record s { incoming = fs })

    abbrev pub answer_cancel : RequestId → Result (Unit {0}) (WorkerError lib) → Server → Server
    answer_cancel id (ok u) s = record s { phase = serving }
    answer_cancel id (err e) s = record (sends (error (some id) e) s) { phase = serving }

    -- `while tasks.join_next().await.is_some() {}` and what follows it
    abbrev pub join_all : List Job → Server → Option Server
    join_all [] s = some (record (sends shutdown_ack s) { phase = draining })
    join_all (j ∷ js) s = none

    -- The channel ends when no clone of a context holds a sender.
    abbrev pub writer_done : List RequestId → Server → Option Server
    writer_done [] s = some (record s { phase = ended (ok tt) })
    writer_done (i ∷ is) s = none

    -- `drop(tx); writer_task.await`
    abbrev pub join_writer : Option (FrameError J) → List (PluginFrame lib) → Server → Option Server
    join_writer (some e) fs s = some (record s { phase = ended (err (frame e)) })
    join_writer none [] s = writer_done s.clones s
    join_writer none (f ∷ fs) s = none

    -- A step of the main task
    abbrev pub proceed : E → Phase → Server → Option Server
    proceed x serving s = some (read_frame s.incoming s)
    proceed x (cancelling id) s = some (answer_cancel id (handler.cancel id x) s)
    proceed x joining s = join_all s.tasks s
    proceed x draining s = join_writer s.outbox.broken s.outbox.channel s
    proceed x (ended r) s = none

    -- A step of a task in the handler
    abbrev pub settle : Moved → List Job → Job → List Job → Server → Option Server
    settle blocked before j after s = none
    settle aborted before j after s = some (record s { tasks = before ++ after })
    settle (moved st o) before j after s =
        some (record s { tasks = before ++ record j { stage = st } ∷ after; outbox = o })
    settle (given st) before j after s =
        some
          (record s { tasks = before ++ record j { stage = st } ∷ after; clones = j.id ∷ s.clones })

    -- A use of a clone
    abbrev pub use_clone : CloneUse → List RequestId → RequestId → List RequestId → Server → Server
    use_clone u before id after s = record s {
      clones = clones_left u s.clones before id after;
      outbox = clone_sends u id s.outbox;
    }

    -- A step of a task; the last one removes the entry of its request.
    abbrev pub work : E → List Job → Job → List Job → Stage → Server → Option Server
    work x before j after (running t) s =
        settle (advance x s.cancelled s.outbox j.id j.token t) before j after s
    work x before j after closed s =
        some (record s { tasks = before ++ after; pending = without j.id s.pending })

    -- Which task takes the next step, and what it learns from outside; or which clone is used.
    pub data Turn : Type 0 where
      main : E → Turn
      job : ℕ → E → Turn
      writing : Turn
      outside : ℕ → CloneUse → Turn

    unfoldable pub step : Server → Turn → Option Server
    step s (main x) = proceed x s.phase s
    step s (job n x) = and_then (pick n s.tasks) (λ p. work x p.0 p.1 p.2 p.1.stage s)
    step s writing = and_then (write_next s.outbox) (λ o. some (record s { outbox = o }))
    step s (outside n u) = and_then (pick n s.clones) (λ p. some (use_clone u p.0 p.1 p.2 s))

    unfoldable pub run_turns : Server → List Turn → Option Server
    run_turns s [] = some s
    run_turns s (t ∷ ts) = and_then (step s t) (λ s1. run_turns s1 ts)

    -- The states that steps in any order lead to.
    pub data Reach (s : Server) : Server → Type 0 where
      start : Reach s s
      more : {t u : Server} → Reach s t → (turn : Turn) → step t turn ≡ some u → Reach s u

  -- The state in which the loop starts.
  abbrev pub opened : List (HostFrame lib) → Writer J (PluginFrame lib) → Server
  opened fs w = record {
    incoming = fs;
    pending = [];
    tasks = [];
    next_token = 0;
    cancelled = [];
    outbox = record { channel = []; writer = w; broken = none };
    phase = serving;
    clones = [];
  }

  abbrev greeted :
      List (HostFrame lib) → Written J (PluginFrame lib) → Result Server WorkerServerError
  greeted fs (err e, w) = err (frame e)
  greeted fs (ok u, w) = ok (opened fs w)

  abbrev pub own_hello : Manifest lib → PluginFrame lib
  own_hello m = PluginFrame.hello (record { protocol = protocol_version; manifest = m })

  -- `serve_worker` up to its loop, over the frames that the reader yields before it fails with
  -- `ending`.
  unfoldable pub open_session :
      FrameError J
      → Manifest lib
      → List (HostFrame lib)
      → Writer J (PluginFrame lib)
      → Result Server WorkerServerError
  open_session ending m [] w = err (frame ending)
  open_session ending m (HostFrame.hello hello ∷ fs) w = do
    admitted ← admit_hello m hello
    greeted fs (send (own_hello m) w)
  open_session ending m (_ ∷ fs) w = err expected_hello
