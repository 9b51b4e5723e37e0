-- ===== src/Tokio/Meeting.antt =====
-- The asynchronous client and the asynchronous worker together: what the client's invocation gets
-- when its reader takes the frames that the worker writes.

use outboard.Prelude.{
  ◌+◌, ◌^◌, ◌<◌, Text, ◌≡◌, ◌≢◌, refl, sym, ap, ◌∙◌, subst, true, false, List, [], ◌∷◌, ◌++◌,
  Option, none, some, ok, err, All, arith, inl, inr, ==_refl, nat_eq,
}
use outboard.Crates.{Crates}
use outboard.Id.{InterfaceId}
use outboard.Manifest.{Manifest}
use outboard.Protocol.{
  RequestId, HostFrame, PluginFrame, InvocationResult, started, progress, output, finished, error,
  request_id,
}
use outboard.Protocol.Framing.{FrameError}
use outboard.Worker.{Writer}
use outboard.Worker.Server.Laws.{IsEvent}
use outboard.Tokio.Server.{AsyncWorkerHandler, Server, Reach, open_session}
use outboard.Tokio.Server.Talk.{
  Stand, unheard, active, Talk, begins, reports, closes, remarks, other, says,
}
use outboard.Tokio.Server.Outcome.{sent-Talk}
use outboard.Tokio.Client.{
  Client, Invocation, Act, acts, connected, invoke_async, AsyncInvocationTranscript, done, finish,
  is_terminal,
}
use outboard.Tokio.Client.Routing.{for_request, read_among, calls, goes_to}
use outboard.Tokio.Client.Finishing.{
  EndsWith, EndsWith-tail, EndsWith-nil, transcript, only, skip, stop,
}
use outboard.Tokio.Client.Invoking.{finish-transcript}

module _ (lib : Crates) (J : Type 0) (id : RequestId) where
  abbrev of_request : List (PluginFrame lib) → List (PluginFrame lib)
  of_request fs = for_request lib J id fs

  -- The frames of the request are events, then its result.
  abbrev pub Reported : List (PluginFrame lib) → InvocationResult lib → Type 0
  Reported fs r =
      (events : List (PluginFrame lib)) × All (IsEvent lib J id) events
      × (fs ≡ events ++ finished id r ∷ [])

  -- A frame that does not name the request
  of_other :
      (f : PluginFrame lib) (fs : List (PluginFrame lib))
      → request_id lib f ≢ some id
      → of_request (f ∷ fs) ≡ of_request fs
  of_other f fs ne = skip lib J id f fs (unnamed (request_id lib f) ne)
    where
      unnamed : (to : Option RequestId) → to ≢ some id → goes_to lib J id to ≡ false
      unnamed none ne = refl
      unnamed (some i) ne = ground arith

  of_event :
      (f : PluginFrame lib) (fs : List (PluginFrame lib))
      → IsEvent lib J id f
      → (of_request (f ∷ fs) ≡ f ∷ of_request fs) × (is_terminal lib J f ≡ false)
  unfolding request_id
  of_event (progress i a b) fs e = (ground (arith, ==_refl id), refl)
  of_event (output i a) fs e = (ground (arith, ==_refl id), refl)
  of_event (PluginFrame.hello x) fs e = elim e [ ]
  of_event (started i) fs e = elim e [ ]
  of_event (finished i r) fs e = elim e [ ]
  of_event (error i r) fs e = elim e [ ]
  of_event (PluginFrame.pong n) fs e = elim e [ ]
  of_event PluginFrame.shutdown_ack fs e = elim e [ ]

  -- A request that has begun
  Talk-Reported :
      (fs : List (PluginFrame lib)) (b : Stand) (r : InvocationResult lib)
      → Talk lib J id active fs b
      → EndsWith lib J id (of_request fs) r
      → Reported (of_request fs) r
  Talk-Reported [] b r t ends = elim (EndsWith-nil lib J id r ends) [ ]
  Talk-Reported (f ∷ fs) b r (says (reports ne ev) t) ends =
      let (e, on) = of_event f fs ev in
      let (events, all, eq) = Talk-Reported fs b r t (
        EndsWith-tail lib J id f (of_request fs) r on
          (subst (λ xs. EndsWith lib J id xs r) e ends)) in
      (f ∷ events, (ev, all), e ∙ ap (λ xs. f ∷ xs) eq)
  Talk-Reported (f ∷ fs) b r (says (begins ne) t) ends = elim (ne refl) [ ]
  Talk-Reported (f ∷ fs) b r (says (closes (ok v)) t) ends =
      let last = stop lib J id (finished id v) fs (inl (v, refl)) in
      let same = only lib J id (finished id v) r (subst (λ xs. EndsWith lib J id xs r) last ends) in
      ([], tt, last ∙ ap (λ g. g ∷ []) same)
  Talk-Reported (f ∷ fs) b r (says (closes (err v)) t) ends =
      let last = stop lib J id (error (some id) v) fs (inr (v, refl)) in
      let same =
        only lib J id (error (some id) v) r (subst (λ xs. EndsWith lib J id xs r) last ends) in
      cc (same)
  Talk-Reported (f ∷ fs) b r (says (remarks v) t) ends =
      let last = stop lib J id (error (some id) v) fs (inr (v, refl)) in
      let same =
        only lib J id (error (some id) v) r (subst (λ xs. EndsWith lib J id xs r) last ends) in
      cc (same)
  Talk-Reported (f ∷ fs) b r (says (other ne) t) ends =
      let e = of_other f fs ne in
      subst (λ xs. Reported xs r) (sym e)
        (Talk-Reported fs b r t (subst (λ xs. EndsWith lib J id xs r) e ends))

  of_started :
      (fs : List (PluginFrame lib)) → of_request (started id ∷ fs) ≡ started id ∷ of_request fs
  unfolding request_id
  of_started fs = ground (arith, ==_refl id)

  -- A request that has not begun begins with `started`, or its result never comes.
  Talk-started :
      (fs : List (PluginFrame lib)) (b : Stand) (r : InvocationResult lib)
      → Talk lib J id unheard fs b
      → EndsWith lib J id (of_request fs) r
      → (rest : List (PluginFrame lib)) × (of_request fs ≡ started id ∷ rest) × Reported rest r
  Talk-started [] b r t ends = elim (EndsWith-nil lib J id r ends) [ ]
  Talk-started (f ∷ fs) b r (says (begins ne) t) ends =
      let e = of_started fs in
      (
        of_request fs,
        e,
        Talk-Reported fs b r t (
            EndsWith-tail lib J id (started id) (of_request fs) r refl
              (subst (λ xs. EndsWith lib J id xs r) e ends)),
      )
  Talk-started (f ∷ fs) b r (says (reports ne ev) t) ends = elim (ne refl) [ ]
  Talk-started (f ∷ fs) b r (says (remarks v) t) ends =
      let last = stop lib J id (error (some id) v) fs (inr (v, refl)) in
      let same =
        only lib J id (error (some id) v) r (subst (λ xs. EndsWith lib J id xs r) last ends) in
      cc (same)
  Talk-started (f ∷ fs) b r (says (other ne) t) ends =
      let e = of_other f fs ne in
      let (rest, eq, rep) = Talk-started fs b r t (subst (λ xs. EndsWith lib J id xs r) e ends) in
      (rest, e ∙ eq, rep)

  -- Frames that do not name the request leave it not begun.
  Talk-behind :
      (before fs : List (PluginFrame lib)) (b : Stand)
      → All (λ f. request_id lib f ≢ some id) before
      → Talk lib J id unheard (before ++ fs) b
      → Talk lib J id unheard fs b
  unfolding request_id
  Talk-behind [] fs b h t = t
  Talk-behind (f ∷ before) fs b (ne, h) (says (other x) t) = Talk-behind before fs b h t
  Talk-behind (f ∷ before) fs b (ne, h) (says (remarks v) t) = elim (ne refl) [ ]
  Talk-behind (f ∷ before) fs b (ne, h) (says (begins x) t) = elim (ne refl) [ ]
  Talk-behind (f ∷ before) fs b (ne, h) (says (reports x ev) t) = elim (x refl) [ ]

module _ (lib : Crates) (J E : Type 0) (handler : AsyncWorkerHandler lib J E)
    (ending : FrameError J) where
  -- When the frames that a client's reader takes behind an invocation are those that a session of a
  -- worker has written behind frames that do not name the invocation's request, and `finish` returns
  -- a transcript, then its events are `started`, then progress and outputs of the request, then
  -- `finished` with the transcript's result, whatever else is done with the client and in whatever
  -- order the tasks of the worker run.
  pub finish-Reported :
      (m : Manifest lib) (fs : List (HostFrame lib)) (pw : Writer J (PluginFrame lib))
      (p q : Server lib J E) (earlier : List (PluginFrame lib)) (w : Writer J (HostFrame lib))
      (before after : List (Act lib J)) (interface : InterfaceId) (command : Text)
      (args : List Text) (s t : Client lib J) (i : Invocation lib J)
      (tr : AsyncInvocationTranscript lib J)
      → pw.sent ≡ []
      → open_session lib J E ending m fs pw ≡ ok p
      → Reach lib J E handler ending p q
      → acts lib J before (connected lib J w) ≡ s
      → s.reading ≡ true
      → s.next_id + 1 + calls lib J after < 2 ^ 64
      → invoke_async lib J interface command args s ≡ (ok i, t)
      → q.outbox.writer.sent ≡ earlier ++ read_among lib J s.global_open after
      → All (λ f. request_id lib f ≢ some s.next_id) earlier
      → finish lib J i (acts lib J after t) ≡ done (ok tr)
      → (events : List (PluginFrame lib)) × All (IsEvent lib J s.next_id) events
        × (tr
            ≡ transcript lib J s.next_id
                (started s.next_id ∷ events ++ finished s.next_id tr.result ∷ [])
                tr.result)
  finish-Reported m fs pw p q earlier w before after interface command args s t i tr fresh opened
        reach from on room h sent others result_given =
      let (shape, ends) =
        (finish-transcript lib J w before after interface command args s t i tr from on room h).0
          result_given in
      let (b, talk) = sent-Talk lib J E handler ending m fs pw p q fresh opened reach s.next_id in
      let (rest, e, (events, all, eq)) =
        Talk-started lib J s.next_id (read_among lib J s.global_open after) b tr.result
          (Talk-behind lib J s.next_id earlier _ b others
            (subst (λ xs. Talk lib J s.next_id unheard xs b) sent talk))
          ends in
      (
        events,
        all,
        shape
            ∙ ap (λ xs. transcript lib J s.next_id xs tr.result)
                (e ∙ ap (λ xs. started s.next_id ∷ xs) eq),
      )
