-- ===== src/Worker/Client/Meeting.antt =====
-- How an invocation of `WorkerClient` meets the answers of a worker.

use outboard.Prelude.{
  Text, ◌≡◌, ◌⊎◌, inl, inr, refl, ap, ◌∙◌, List, [], ◌∷◌, ◌++◌, map, none, some, Result, ok, err,
  All, arith, ==_refl, nat_eq,
}
use outboard.Crates.{Crates}
use outboard.Id.{InterfaceId}
use outboard.Protocol.{
  RequestId, PluginFrame, HostFrame, InvocationResult, WorkerError, started, progress, output,
  finished, error, invoke, pong, shutdown_ack,
}
use outboard.Worker.{Writer, send}
use outboard.Worker.Server.{closing, WorkerHandler}
use outboard.Worker.Server.Laws.{IsEvent}
use outboard.Worker.Server.Session.{Answers, invoked, ran}
use outboard.Worker.Client.{
  WorkerClient, WorkerClientError, Answer, Arrival, arrived, InvocationTranscript, heard, event,
  await, invoke_worker, request, worker_error, next_request,
}
use outboard.Worker.Client.Laws.{GoesOn, frames_of, await-GoesOn}

module _ (lib : Crates) (J : Type 0) where
  abbrev pub arrivals : List (PluginFrame lib) → List (Arrival lib J)
  arrivals xs = map (λ f. arrived f) xs

  frames_of-arrivals : (xs : List (PluginFrame lib)) → frames_of lib J (arrivals xs) ≡ xs
  frames_of-arrivals [] = refl
  frames_of-arrivals (x ∷ xs) = ap (λ ys. x ∷ ys) (frames_of-arrivals xs)

  heard-IsEvent :
      (id : RequestId) (f : PluginFrame lib) → IsEvent lib J id f → heard lib J id f ≡ event
  heard-IsEvent id (progress i a b) h = refl
  heard-IsEvent id (output i a) h = refl
  heard-IsEvent id (PluginFrame.hello a) h = absurd h
  heard-IsEvent id (started a) h = absurd h
  heard-IsEvent id (finished i a) h = absurd h
  heard-IsEvent id (error i a) h = absurd h
  heard-IsEvent id (pong a) h = absurd h
  heard-IsEvent id shutdown_ack h = absurd h

  GoesOn-arrivals :
      (id : RequestId) (xs : List (PluginFrame lib))
      → All (IsEvent lib J id) xs
      → All (GoesOn lib J id) (arrivals xs)
  GoesOn-arrivals id [] h = tt
  GoesOn-arrivals id (x ∷ xs) h = (heard-IsEvent id x h.0, GoesOn-arrivals id xs h.1)

  -- The reply to an invocation, from the frames of its answer and the handler's result.
  abbrev reply :
      RequestId
      → List (PluginFrame lib)
      → Result (InvocationResult lib) (WorkerError lib)
      → Result (InvocationTranscript lib J) (WorkerClientError lib J)
  reply id xs (ok result) = ok (record { id = id; events = xs; result = result })
  reply id xs (err e) = err (worker_error e)

  await-closing :
      (id : RequestId) (events : List (PluginFrame lib))
      (result : Result (InvocationResult lib) (WorkerError lib)) (rest : List (Arrival lib J))
      → await lib J id events (arrived (closing lib J id result) ∷ rest)
        ≡ (reply id (events ++ closing lib J id result ∷ []) result, rest)
  unfolding await
  await-closing id events (ok result) rest = ground (arith, ==_refl id)
  await-closing id events (err e) rest = ground (arith, ==_refl id)

  arrivals-append :
      (xs : List (PluginFrame lib)) (f : PluginFrame lib) (rest : List (Arrival lib J))
      → arrivals (xs ++ f ∷ []) ++ rest ≡ arrivals xs ++ arrived f ∷ rest
  arrivals-append [] f rest = refl
  arrivals-append (x ∷ xs) f rest = ap (λ ys. arrived x ∷ ys) (arrivals-append xs f rest)

  await-answer :
      (id : RequestId) (events : List (PluginFrame lib))
      (result : Result (InvocationResult lib) (WorkerError lib)) (rest : List (Arrival lib J))
      → All (IsEvent lib J id) events
      → await lib J id [] (arrivals (started id ∷ (events ++ closing lib J id result ∷ [])) ++ rest)
        ≡ (reply id (started id ∷ (events ++ closing lib J id result ∷ [])) result, rest)
  await-answer id events result rest h =
      ap (λ xs. await lib J id [] (arrived (started id) ∷ xs))
        (arrivals-append events (closing lib J id result) rest)
      ∙ await-GoesOn lib J id [] (arrivals (started id ∷ events))
          (arrived (closing lib J id result) ∷ rest) (refl, GoesOn-arrivals id events h)
      ∙ ap (λ xs. await lib J id (started id ∷ xs) (arrived (closing lib J id result) ∷ rest))
          (frames_of-arrivals events)
      ∙ await-closing id (started id ∷ events) result rest

  send-no_fault :
      (w : Writer J (HostFrame lib)) (f : HostFrame lib)
      → w.fault ≡ none
      → send f w ≡ (ok tt, record w { sent = w.sent ++ f ∷ [] })
  unfolding send
  send-no_fault w f h = ground arith

  abbrev answer_of :
      RequestId
      → List (PluginFrame lib)
      → Result (InvocationResult lib) (WorkerError lib)
      → List (PluginFrame lib)
  answer_of id events result = started id ∷ (events ++ closing lib J id result ∷ [])

  -- The last of some frames
  abbrev pub EndsIn : List (PluginFrame lib) → PluginFrame lib → Type 0
  EndsIn xs f = (before : List (PluginFrame lib)) × (xs ≡ before ++ f ∷ [])

  -- An invocation has returned the frames with the request's number and the result that the last
  -- of them has, or the error that the last of them has, has left what followed them, and has
  -- counted the request.
  abbrev pub HasReturned :
      WorkerClient lib J
      → List (PluginFrame lib)
      → List (Arrival lib J)
      → Answer lib J (InvocationTranscript lib J)
      → Type 0
  HasReturned c xs rest answer =
      (((t : InvocationTranscript lib J) × (answer.0 ≡ ok t)
          × (t.id ≡ c.next_id)
          × (t.events ≡ xs)
          × EndsIn xs (finished c.next_id t.result))
        ⊎ ((e : WorkerError lib) × (answer.0 ≡ err (worker_error e))
            × EndsIn xs (error (some c.next_id) e)))
      × (answer.1.incoming ≡ rest)
      × (answer.1.next_id ≡ next_request c.next_id)

  has_returned :
      (c : WorkerClient lib J) (events : List (PluginFrame lib)) (rest : List (Arrival lib J))
      (result : Result (InvocationResult lib) (WorkerError lib))
      (answer : Answer lib J (InvocationTranscript lib J))
      → (answer.0 ≡ reply c.next_id (answer_of c.next_id events result) result)
      → (answer.1.incoming ≡ rest)
      → (answer.1.next_id ≡ next_request c.next_id)
      → HasReturned c (answer_of c.next_id events result) rest answer
  has_returned c events rest (ok v) answer e left next =
      (inl (_, e, refl, refl, (started c.next_id ∷ events, refl)), left, next)
  has_returned c events rest (err x) answer e left next =
      (inr (x, e, (started c.next_id ∷ events, refl)), left, next)

  module _ {H : Type 0} (handler : WorkerHandler lib J H) where
    -- When the request is written and the frames of a worker's answer to it are the next to arrive,
    -- the invocation returns these frames with the request's number and the result that the last of
    -- them has, or, when the last of them is an error, that error. It takes no frame of what
    -- follows, and the next request has the next number.
    pub invoke_worker-Answers :
        (c : WorkerClient lib J) (interface : InterfaceId) (command : Text) (args : List Text)
        (rest : List (Arrival lib J)) {h h' : H} {xs : List (PluginFrame lib)}
        → Answers lib J handler h (invoke (request lib J c.next_id interface command args)) h' xs
        → c.incoming ≡ arrivals xs ++ rest
        → c.writer.fault ≡ none
        → HasReturned c xs rest (invoke_worker lib J c interface command args)
    unfolding invoke_worker
    invoke_worker-Answers c interface command args rest {h = h} (invoked r w events all put) next
          writes =
        let result : Result (InvocationResult lib) (WorkerError lib) =
          (ran lib J handler h r w).0.1 in
        let written = send-no_fault c.writer (invoke r) writes in
        let heard_all =
          ap (await lib J c.next_id []) next ∙ await-answer c.next_id events result rest all in
        has_returned c events rest result (invoke_worker lib J c interface command args)
          (ground arith) (ground arith) (ground arith)
