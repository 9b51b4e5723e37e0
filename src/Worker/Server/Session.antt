-- ===== src/Worker/Server/Session.antt =====
-- A worker's session as steps, each of which answers one frame of the host.
use mathlib.Core.List.{append_assoc}
use outboard.Prelude.{ℕ, ◌≡◌, ap, ◌∙◌, List, [], ◌∷◌, ◌++◌, some, Result, ok, err, All}
use outboard.Crates.{Crates}
use outboard.Manifest.{Manifest}
use outboard.Protocol.{
  RequestId, HostHello, HostFrame, PluginFrame, InvokeRequest, InvocationResult, WorkerError,
  started, error, pong, shutdown_ack, invoke, cancel, ping, shutdown,
}
use outboard.Worker.Server.{Out, WorkerHandler, run_handler, closing, duplicate_hello}
use outboard.Worker.Server.Laws.{IsEvent}

module _ (lib : Crates) (J : Type 0) {H : Type 0} (handler : WorkerHandler lib J H) where
  -- The handler's run of a request, when it writes to `w`: the handler after it, its result, and
  -- what is written.
  abbrev pub ran :
      H
      → InvokeRequest lib
      → Out lib J
      → (H × Result (InvocationResult lib) (WorkerError lib)) × Out lib J
  ran h request w = run_handler lib J request.id (handler.invoke h request) w

  -- The frames that answer one frame of the host, with the handler before and after.
  pub data Answers : H → HostFrame lib → H → List (PluginFrame lib) → Type 0 where
    hello_again :
        {h : H} (x : HostHello lib) → Answers h (HostFrame.hello x) h (duplicate_hello lib J ∷ [])
    ponged : {h : H} (nonce : ℕ) → Answers h (ping nonce) h (pong nonce ∷ [])
    cancelled :
        {h : H} (id : RequestId)
        → (handler.cancel h id).0 ≡ ok tt
        → Answers h (cancel id) (handler.cancel h id).1 []
    not_cancelled :
        {h : H} (id : RequestId) (e : WorkerError lib)
        → (handler.cancel h id).0 ≡ err e
        → Answers h (cancel id) (handler.cancel h id).1 (error (some id) e ∷ [])
    invoked :
        {h : H} (request : InvokeRequest lib) (w : Out lib J) (events : List (PluginFrame lib))
        → All (IsEvent lib J request.id) events
        → (ran h request w).1.sent ≡ w.sent ++ events
        → Answers h
            (invoke request)
            (ran h request w).0.0
            (started request.id ∷ (events ++ closing lib J request.id (ran h request w).0.1 ∷ []))

  -- The frames of a session: the answers up to a shutdown, which is acknowledged.
  pub data Session : H → List (HostFrame lib) → List (PluginFrame lib) → Type 0 where
    closed : {h : H} (rest : List (HostFrame lib)) → Session h (shutdown ∷ rest) (shutdown_ack ∷ [])
    answered :
        {h h' : H} {f : HostFrame lib} {fs : List (HostFrame lib)} {xs ys : List (PluginFrame lib)}
        → Answers h f h' xs
        → Session h' fs ys
        → Session h (f ∷ fs) (xs ++ ys)

  -- What a worker that starts with `w` sends in a session.
  abbrev Sends : H → List (HostFrame lib) → Out lib J → Out lib J → Type 0
  Sends h fs w w' = (ys : List (PluginFrame lib)) × Session h fs ys × (w'.sent ≡ w.sent ++ ys)

  step :
      {h h' : H} {f : HostFrame lib} {fs : List (HostFrame lib)} (w w1 w' : Out lib J)
      (xs : List (PluginFrame lib))
      → Answers h f h' xs
      → w1.sent ≡ w.sent ++ xs
      → Sends h' fs w1 w'
      → Sends h (f ∷ fs) w w'
  step w w1 w' xs a e (ys, s, t) =
      (xs ++ ys, answered a s, t ∙ ap (λ zs. zs ++ ys) e ∙ append_assoc w.sent xs ys)
