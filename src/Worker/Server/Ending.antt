-- ===== src/Worker/Server/Ending.antt =====
-- When a worker's session ends.
use outboard.Prelude.{◌≡◌, inl, inr, refl, List, [], ◌∷◌, none, Result, ok, err, Any, arith}
use outboard.Crates.{Crates}
use outboard.Manifest.{Manifest}
use outboard.Protocol.{
  RequestId, HostHello, HostFrame, PluginFrame, WorkerError, progress, output, invoke, cancel, ping,
  shutdown,
}
use outboard.Protocol.Framing.{FrameError}
use outboard.Worker.{Written, send}
use outboard.Worker.Server.{
  validate_hello, Out, Run, returned, progressed, put_out, WorkerHandler, run_handler, Served,
  after_write, after_cancel, serve_loop, serve_worker,
}

module _ (lib : Crates) (J : Type 0) where
  send-no_fault :
      (w : Out lib J) (f : PluginFrame lib)
      → w.fault ≡ none
      → ((send f w).0 ≡ ok tt) × ((send f w).1.fault ≡ none)
  unfolding send
  send-no_fault w f h = ground arith

  run_handler-no_fault :
      {H : Type 0} (id : RequestId) (run : Run lib J H) (w : Out lib J)
      → w.fault ≡ none
      → (run_handler lib J id run w).1.fault ≡ none
  unfolding run_handler
  run_handler-no_fault id (returned h r) w e = e
  run_handler-no_fault id (progressed fraction message next) w e =
      run_handler-no_fault id (next (send (progress id fraction message) w).0) _
        (send-no_fault w (progress id fraction message) e).1
  run_handler-no_fault id (put_out payload next) w e =
      run_handler-no_fault id (next (send (output id payload) w).0) _
        (send-no_fault w (output id payload) e).1

  after_write-no_fault :
      (w : Out lib J) (f : PluginFrame lib) (next : Out lib J → Served lib J)
      → w.fault ≡ none
      → ((w1 : Out lib J) → w1.fault ≡ none → (next w1).0 ≡ ok tt)
      → (after_write lib J (send f w) next).0 ≡ ok tt
  after_write-no_fault w f next e h = go (send f w) (send-no_fault w f e)
    where
      go :
          (r : Written J (PluginFrame lib))
          → (r.0 ≡ ok tt) × (r.1.fault ≡ none)
          → (after_write lib J r next).0 ≡ ok tt
      go (ok u, w1) p = h w1 p.1
      go (err x, w1) p = cc (p.0)

  module _ {H : Type 0} (handler : WorkerHandler lib J H) (ending : FrameError J) where
    serve_loop-shutdown :
        (h : H) (fs : List (HostFrame lib)) (w : Out lib J)
        → w.fault ≡ none
        → Any (λ f. f ≡ shutdown) fs
        → (serve_loop lib J handler ending h fs w).0 ≡ ok tt
    unfolding serve_loop
    serve_loop-shutdown h [] w e s = absurd s
    serve_loop-shutdown h (HostFrame.hello x ∷ fs) w e (inl s) = cc
    serve_loop-shutdown h (HostFrame.hello x ∷ fs) w e (inr s) =
        after_write-no_fault w _ _ e (λ w1 p. serve_loop-shutdown h fs w1 p s)
    serve_loop-shutdown h (ping n ∷ fs) w e (inl s) = cc
    serve_loop-shutdown h (ping n ∷ fs) w e (inr s) =
        after_write-no_fault w _ _ e (λ w1 p. serve_loop-shutdown h fs w1 p s)
    serve_loop-shutdown h (shutdown ∷ fs) w e s = after_write-no_fault w _ _ e (λ w1 p. refl)
    serve_loop-shutdown h (cancel id ∷ fs) w e (inl s) = cc
    serve_loop-shutdown h (cancel id ∷ fs) w e (inr s) =
        go (handler.cancel h id).0 (λ w1 p. serve_loop-shutdown (handler.cancel h id).1 fs w1 p s)
      where
        go :
            (c : Result (Unit {0}) (WorkerError lib))
            → ((w1 : Out lib J)
                → w1.fault ≡ none
                → (serve_loop lib J handler ending (handler.cancel h id).1 fs w1).0 ≡ ok tt)
            → (after_cancel lib J id c w
                (λ w1. serve_loop lib J handler ending (handler.cancel h id).1 fs w1)).0
              ≡ ok tt
        go (ok u) ih = ih w e
        go (err x) ih = after_write-no_fault w _ _ e ih
    serve_loop-shutdown h (invoke request ∷ fs) w e (inl s) = cc
    serve_loop-shutdown h (invoke request ∷ fs) w e (inr s) = after_write-no_fault w _ _ e (λ w1 p.
        after_write-no_fault _ _ _ (run_handler-no_fault request.id (handler.invoke h request) w1 p)
          (λ w2 q. serve_loop-shutdown _ fs w2 q s))

    -- A worker whose writer does not fail, which accepts the hello it is sent first, ends without an
    -- error when the host sends a shutdown, whatever is sent before it and whatever its handler does.
    pub serve_worker-shutdown :
        (m : Manifest lib) (h : H) (x : HostHello lib) (fs : List (HostFrame lib)) (w : Out lib J)
        → w.fault ≡ none
        → validate_hello lib J m x ≡ ok tt
        → Any (λ f. f ≡ shutdown) fs
        → (serve_worker lib J handler ending m h (HostFrame.hello x ∷ fs) w).0 ≡ ok tt
    unfolding serve_worker
    serve_worker-shutdown m h x fs w e accepted s =
        rw accepted (after_write-no_fault w _ _ e (λ w1 p. serve_loop-shutdown h fs w1 p s))
