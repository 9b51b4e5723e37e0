-- ===== src/Worker/Server.antt =====
-- `serve_worker` of crates/outboard/src/worker.rs.
pub mod Laws
pub mod Session
pub mod Ending
use outboard.Prelude.{
  ℕ, Text, codes, ◌≡◌, Bool, true, false, not, List, [], ◌∷◌, ◌++◌, Option, none, some, Result, ok,
  err, ◌>>=◌, if◌then◌else◌, nat_eq, list_eq,
}
use outboard.Crates.{Crates}
use outboard.Id.{InterfaceId}
use outboard.Manifest.{Manifest, InterfaceManifest, InterfaceRequirement}
use outboard.Manifest.Compatibility
use outboard.Protocol.{
  RequestId, HostHello, HostFrame, PluginFrame, InvokeRequest, InvocationResult, WorkerError,
  new_worker_error, Payload, started, progress, output, finished, error, pong, shutdown_ack, invoke,
  cancel, ping, shutdown,
}
use outboard.Protocol.Framing.{FrameError}
use outboard.Worker.{Writer, Written, send}

module _ (lib : Crates) (J : Type 0) where
  open lib use {Version, VersionReq, Float, matches, protocol_version}

  -- What the text of `Interface` says.
  pub data InterfaceProblem : Type 0 where
    missing : InterfaceId → InterfaceProblem
    other_version :
        (id : InterfaceId) (required : VersionReq) (provided : Version) → InterfaceProblem

  pub data WorkerServerError : Type 0 where
    frame : FrameError J → WorkerServerError
    expected_hello : WorkerServerError
    framework : (host : Version) (accepted : VersionReq) → WorkerServerError
    protocol : (host : Version) (accepted : VersionReq) → WorkerServerError
    interface : InterfaceProblem → WorkerServerError

  abbrev pub provided :
      InterfaceRequirement lib
      → Option (InterfaceManifest lib)
      → Result (Unit {0}) WorkerServerError
  provided r none = err (interface (missing r.id))
  provided r (some i) =
      if not (matches r.version i.version)
      then err (interface (other_version r.id r.version i.version))
      else ok tt

  -- The loop over the requested interfaces.
  unfoldable pub check_interfaces :
      Manifest lib → List (InterfaceRequirement lib) → Result (Unit {0}) WorkerServerError
  check_interfaces m [] = ok tt
  check_interfaces m (r ∷ rs) = do
    found ← provided r (Compatibility.interface lib m r.id)
    check_interfaces m rs

  unfoldable pub validate_hello : Manifest lib → HostHello lib → Result (Unit {0}) WorkerServerError
  validate_hello m hello =
      if not (matches m.framework hello.framework)
      then err (framework hello.framework m.framework)
      else if not (matches m.worker_protocol hello.protocol)
      then err (protocol hello.protocol m.worker_protocol)
      else check_interfaces m hello.requested_interfaces

  abbrev pub Out : Type 0
  Out = Writer J (PluginFrame lib)

  -- What a handler's `invoke` does: calls of its responder, each of which it sees the result of,
  -- and in the end its own result, with the handler as it then is.
  pub data Run (H : Type 0) : Type 0 where
    returned : H → Result (InvocationResult lib) (WorkerError lib) → Run H
    progressed : Option Float → Option Text → (Result (Unit {0}) (FrameError J) → Run H) → Run H
    put_out : Payload lib → (Result (Unit {0}) (FrameError J) → Run H) → Run H

  -- WorkerHandler
  pub record WorkerHandler (H : Type 0) : Type 0 where
    pub invoke : H → InvokeRequest lib → Run H
    pub cancel : H → RequestId → Result (Unit {0}) (WorkerError lib) × H

  -- The run of a handler, with SyncResponder::progress and SyncResponder::output.
  unfoldable pub run_handler :
      {H : Type 0}
      → RequestId
      → Run H
      → Out
      → (H × Result (InvocationResult lib) (WorkerError lib)) × Out
  run_handler id (returned h r) w = ((h, r), w)
  run_handler id (progressed fraction message next) w =
      run_handler id (next (send (progress id fraction message) w).0)
        (send (progress id fraction message) w).1
  run_handler id (put_out payload next) w =
      run_handler id (next (send (output id payload) w).0) (send (output id payload) w).1

  abbrev pub Served : Type 0
  Served = Result (Unit {0}) WorkerServerError × Out

  -- What follows a `writer.write(..)?`
  abbrev pub after_write : Written J (PluginFrame lib) → (Out → Served) → Served
  after_write (ok u, w) next = next w
  after_write (err e, w) next = (err (frame e), w)

  -- The frame that ends an invocation.
  abbrev pub closing : RequestId → Result (InvocationResult lib) (WorkerError lib) → PluginFrame lib
  closing id (ok result) = finished id result
  closing id (err e) = error (some id) e

  abbrev pub after_cancel :
      RequestId → Result (Unit {0}) (WorkerError lib) → Out → (Out → Served) → Served
  after_cancel id (ok u) w next = next w
  after_cancel id (err e) w next = after_write (send (error (some id) e) w) next

  abbrev pub duplicate_hello : PluginFrame lib
  duplicate_hello =
      error none
        (new_worker_error lib (codes "duplicate_hello") (codes "host hello may only be sent once"))

  module _ {H : Type 0} (handler : WorkerHandler H) (ending : FrameError J) where
    -- The loop, over the frames that the reader yields before it fails with `ending`.
    unfoldable pub serve_loop : H → List (HostFrame lib) → Out → Served
    serve_loop h [] w = (err (frame ending), w)
    serve_loop h (HostFrame.hello _ ∷ fs) w =
        after_write (send duplicate_hello w) (λ w1. serve_loop h fs w1)
    serve_loop h (ping nonce ∷ fs) w = after_write (send (pong nonce) w) (λ w1. serve_loop h fs w1)
    serve_loop h (shutdown ∷ fs) w = after_write (send shutdown_ack w) (λ w1. (ok tt, w1))
    serve_loop h (cancel id ∷ fs) w =
        after_cancel id (handler.cancel h id).0 w (λ w1. serve_loop (handler.cancel h id).1 fs w1)
    serve_loop h (invoke request ∷ fs) w = after_write (send (started request.id) w) (λ w1.
        let ran = run_handler request.id (handler.invoke h request) w1 in
        after_write (send (closing request.id ran.0.1) ran.1) (λ w2. serve_loop ran.0.0 fs w2))

    abbrev pub after_check :
        Manifest lib → H → List (HostFrame lib) → Out → Result (Unit {0}) WorkerServerError → Served
    after_check m h fs w (err e) = (err e, w)
    after_check m h fs w (ok u) =
        after_write
          (send (PluginFrame.hello (record { protocol = protocol_version; manifest = m })) w)
          (λ w1. serve_loop h fs w1)

    unfoldable pub serve_worker : Manifest lib → H → List (HostFrame lib) → Out → Served
    serve_worker m h [] w = (err (frame ending), w)
    serve_worker m h (HostFrame.hello hello ∷ fs) w = after_check m h fs w (validate_hello m hello)
    serve_worker m h (_ ∷ fs) w = (err expected_hello, w)
