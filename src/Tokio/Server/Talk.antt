-- ===== src/Tokio/Server/Talk.antt =====
-- What the frames of an asynchronous worker say of one request.
use outboard.Prelude.{◌≢◌, List, [], ◌∷◌, ◌++◌, some, Result}
use outboard.Crates.{Crates}
use outboard.Protocol.{
  RequestId, PluginFrame, InvocationResult, WorkerError, started, error, request_id,
}
use outboard.Worker.Server.{closing}
use outboard.Worker.Server.Laws.{IsEvent}

-- Whether a request was never started, has begun and not ended, or has ended.
pub data Stand : Type 0 where
  unheard active over : Stand

module _ (lib : Crates) (J : Type 0) (i : RequestId) where
  -- A frame, with where the request stands before it and after it. Behind the last frame of a
  -- request a clone of its context may still report, and the id may be used again. An error with
  -- the request's id also answers a second invocation or a cancellation that failed.
  pub data Says : Stand → PluginFrame lib → Stand → Type 0 where
    begins : {b : Stand} → b ≢ active → Says b (started i) active
    reports : {b : Stand} {f : PluginFrame lib} → b ≢ unheard → IsEvent lib J i f → Says b f b
    closes :
        (r : Result (InvocationResult lib) (WorkerError lib)) → Says active (closing lib J i r) over
    remarks : {b : Stand} (e : WorkerError lib) → Says b (error (some i) e) b
    other : {b : Stand} {f : PluginFrame lib} → request_id lib f ≢ some i → Says b f b

  -- The frames in their order.
  pub data Talk : Stand → List (PluginFrame lib) → Stand → Type 0 where
    nothing : {b : Stand} → Talk b [] b
    says :
        {b c d : Stand} {f : PluginFrame lib} {fs : List (PluginFrame lib)}
        → Says b f c
        → Talk c fs d
        → Talk b (f ∷ fs) d

  pub Talk-append :
      {b c d : Stand} (fs : List (PluginFrame lib)) {gs : List (PluginFrame lib)}
      → Talk b fs c
      → Talk c gs d
      → Talk b (fs ++ gs) d
  Talk-append [] nothing u = u
  Talk-append (f ∷ fs) (says s t) u = says s (Talk-append fs t u)

  pub Talk-prefix :
      {b d : Stand} (fs gs : List (PluginFrame lib))
      → Talk b (fs ++ gs) d
      → (c : Stand) × Talk b fs c
  Talk-prefix {b} [] gs t = (b, nothing)
  Talk-prefix (f ∷ fs) gs (says s t) = let (c, u) = Talk-prefix fs gs t in (c, says s u)
