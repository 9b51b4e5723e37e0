-- ===== src/Tokio/Server/Progress.antt =====
-- The asynchronous worker does not block itself: until its session has ended one of its tasks has a
-- step to take, whatever its handler waits for.

use outboard.Prelude.{
  ◌≡◌, ◌≢◌, refl, sym, ap, ◌∙◌, subst, true, List, [], ◌∷◌, ◌++◌, Option, none, some, Result, ok,
  err, All, ◌⊎◌, inl, inr, arith, if◌then◌else◌, and_then,
}
use outboard.Crates.{Crates}
use outboard.Protocol.{
  RequestId, HostFrame, PluginFrame, WorkerError, invoke, cancel, ping, shutdown,
}
use outboard.Protocol.Framing.{FrameError}
use outboard.Tokio.{entry_of}
use outboard.Tokio.Server.{
  CancellationToken, pick, AsyncWorkerHandler, Task, returned, panicked, progressed, put_out, asked,
  parked, awaited, shared, Stage, running, closed, Job, Phase, serving, cancelling, joining,
  draining, ended, Moved, blocked, aborted, moved, given, advance, is_cancelled, Server, admit,
  handle, step, read_frame, answer_cancel, join_all, join_writer, proceed, settle, work, Turn, main,
  job, writing, outside, writer_done, Reach, start, more, write_next,
}
use outboard.Tokio.Server.Tables.{
  pick-split, Whenever, whenever, Whenever-and_then, All-split, All-put,
}
use outboard.Tokio.Server.Ownership.{InOrder, Reach-InOrder}
use outboard.Manifest.{Manifest}
use outboard.Worker.{Writer}
use outboard.Tokio.Server.{open_session, WorkerServerError, round}
use outboard.Tokio.Server.Opening.{open_session-ok}
use outboard.Tokio.Server.Ownership.{nobody}
use outboard.Tokio.Server.Cancelling.{cancelled-All}
use outboard.Tokio.Server.Clones.{writer_done-Whenever}

module _ (lib : Crates) (J E : Type 0) where
  -- While a shutdown waits for the tasks, each of them is cancelled.
  abbrev Stopped : Phase lib J E → List (Job lib J E) → List CancellationToken → Type 0
  Stopped joining tasks ts = All (λ j. is_cancelled lib J E j.token ts ≡ true) tasks
  Stopped _ tasks ts = Unit

  abbrev IsStopped : Server lib J E → Type 0
  IsStopped s = Stopped s.phase s.tasks s.cancelled

  Stopped-serving :
      (p : Phase lib J E) (tasks : List (Job lib J E)) (ts : List CancellationToken)
      → p ≡ serving
      → Stopped p tasks ts
  Stopped-serving p tasks ts e = subst (λ q. Stopped q tasks ts) (sym e) tt

  module _ (handler : AsyncWorkerHandler lib J E) (ending : FrameError J) where
    handle-IsStopped :
        (f : HostFrame lib) (s : Server lib J E)
        → InOrder lib J E s
        → s.phase ≡ serving
        → IsStopped (handle lib J E handler ending f s)
    unfolding handle
    handle-IsStopped (HostFrame.hello _) s o p = Stopped-serving _ s.tasks s.cancelled p
    handle-IsStopped (ping nonce) s o p = Stopped-serving _ s.tasks s.cancelled p
    handle-IsStopped (cancel id) s o p = tt
    handle-IsStopped shutdown s o p = cancelled-All lib J E s.pending s.cancelled s.tasks o.own
    handle-IsStopped (invoke r) s o p = go (entry_of r.id s.pending)
      where
        go : (found : Option CancellationToken) → IsStopped (admit lib J E handler ending r s found)
        go (some t) = Stopped-serving _ s.tasks s.cancelled p
        go none = Stopped-serving _ (admit lib J E handler ending r s none).tasks s.cancelled p

    proceed-IsStopped :
        (x : E) (p : Phase lib J E) (s : Server lib J E)
        → InOrder lib J E s
        → s.phase ≡ p
        → Whenever IsStopped (proceed lib J E handler ending x p s)
    proceed-IsStopped x serving s o p = go s.incoming
      where
        go : (fs : List (HostFrame lib)) → IsStopped (read_frame lib J E handler ending fs s)
        go [] = tt
        go (f ∷ fs) = handle-IsStopped f (record s { incoming = fs }) o p
    proceed-IsStopped x (cancelling id) s o p = go (handler.cancel id x)
      where
        go :
            (r : Result (Unit {0}) (WorkerError lib))
            → IsStopped (answer_cancel lib J E handler ending id r s)
        go (ok u) = tt
        go (err e) = tt
    proceed-IsStopped x joining s o p = go s.tasks
      where
        go : (js : List (Job lib J E)) → Whenever IsStopped (join_all lib J E handler ending js s)
        go [] = tt
        go (j ∷ js) = tt
    proceed-IsStopped x draining s o p = go s.outbox.broken s.outbox.channel
      where
        go :
            (broken : Option (FrameError J)) (fs : List (PluginFrame lib))
            → Whenever IsStopped (join_writer lib J E handler ending broken fs s)
        go (some e) fs = tt
        go none [] = writer_done-Whenever lib J E handler ending IsStopped s s.clones (λ e. tt)
        go none (f ∷ fs) = tt
    proceed-IsStopped x (ended r) s o p = tt

    module _ (before : List (Job lib J E)) (j : Job lib J E) (after : List (Job lib J E))
        (s : Server lib J E) where
      abbrev AreStopped : List (Job lib J E) → Type 0
      AreStopped js = Stopped s.phase js s.cancelled

      kept :
          (st : Stage lib J E) (p : Phase lib J E)
          → Stopped p (before ++ j ∷ after) s.cancelled
          → Stopped p (before ++ record j { stage = st } ∷ after) s.cancelled
            × Stopped p (before ++ after) s.cancelled
      kept st joining h =
          let (mine, rest) =
            All-split (λ k. is_cancelled lib J E k.token s.cancelled ≡ true) before j after h in
          (
            All-put (λ k. is_cancelled lib J E k.token s.cancelled ≡ true) before
                (record j { stage = st }) after mine rest,
            rest,
          )
      kept st serving h = (tt, tt)
      kept st (cancelling id) h = (tt, tt)
      kept st draining h = (tt, tt)
      kept st (ended r) h = (tt, tt)

      work-IsStopped :
          (x : E)
          → AreStopped (before ++ j ∷ after)
          → Whenever IsStopped (work lib J E handler ending x before j after j.stage s)
      work-IsStopped x h = go j.stage
        where
          settled :
              (m : Moved lib J E)
              → Whenever IsStopped (settle lib J E handler ending m before j after s)
          settled blocked = tt
          settled aborted = (kept closed s.phase h).1
          settled (moved st out) = (kept st s.phase h).0
          settled (given st) = (kept st s.phase h).0

          go :
              (st : Stage lib J E)
              → Whenever IsStopped (work lib J E handler ending x before j after st s)
          go (running t) = settled (advance lib J E x s.cancelled s.outbox j.id j.token t)
          go closed = (kept closed s.phase h).1

    step-IsStopped :
        (s : Server lib J E) (turn : Turn lib J E handler ending)
        → InOrder lib J E s
        → IsStopped s
        → Whenever IsStopped (step lib J E handler ending s turn)
    unfolding step
    step-IsStopped s (main x) o h = proceed-IsStopped x s.phase s o refl
    step-IsStopped s (job n x) o h = Whenever-and_then IsStopped (pick n s.tasks) _ (λ p found.
        work-IsStopped p.0 p.1 p.2 s x
          (subst (λ js. Stopped s.phase js s.cancelled) (pick-split n s.tasks p.0 p.1 p.2 found) h))
    step-IsStopped s writing o h =
        Whenever-and_then IsStopped (write_next lib J E s.outbox) _ (λ out found. h)
    step-IsStopped s (outside n u) o h =
        Whenever-and_then IsStopped (pick n s.clones) _ (λ p found. h)

    Reach-IsStopped :
        {s u : Server lib J E}
        → Reach lib J E handler ending s u
        → InOrder lib J E s
        → IsStopped s
        → IsStopped u
    Reach-IsStopped start o h = h
    Reach-IsStopped (more {t} {u} r turn e) o h =
        whenever IsStopped
          (step-IsStopped t turn (Reach-InOrder lib J E handler ending r o) (Reach-IsStopped r o h))
          e

    -- A turn of one of the worker's own tasks
    abbrev pub IsOwn : Turn lib J E handler ending → Type 0
    IsOwn (outside n u) = ⊥
    IsOwn _ = Unit

    abbrev pub CanStep : Server lib J E → Type 0
    CanStep s =
        (turn : Turn lib J E handler ending) × (u : Server lib J E) × IsOwn turn
        × (step lib J E handler ending s turn ≡ some u)

    -- All is written, and the main task waits for the clones of contexts to be dropped.
    abbrev pub AwaitsClones : Server lib J E → Type 0
    AwaitsClones s =
        (s.phase ≡ draining) × (s.outbox.channel ≡ []) × (s.outbox.broken ≡ none) × (s.clones ≢ [])

    -- A task that is cancelled does not wait.
    advance-unblocked :
        (x : E) (j : Job lib J E) (js : List (Job lib J E)) (s : Server lib J E) (t : Task lib J E)
        → is_cancelled lib J E j.token s.cancelled ≡ true
        → (u : Server lib J E) × (settle lib J E handler ending
              (advance lib J E x s.cancelled s.outbox j.id j.token t)
              []
              j
              js
              s
            ≡ some u)
    unfolding advance
    advance-unblocked x j js s (returned r) e = (_, refl)
    advance-unblocked x j js s panicked e = (_, refl)
    advance-unblocked x j js s (progressed fraction message next) e = (_, refl)
    advance-unblocked x j js s (put_out payload next) e = (_, refl)
    advance-unblocked x j js s (asked next) e = (_, refl)
    advance-unblocked x j js s (parked next) e = (
      record s { tasks = record j { stage = running next } ∷ js },
      ap
          (λ b.
            settle lib J E handler ending (if b then moved (running next) s.outbox else blocked) []
              j js s)
          e,
    )
    advance-unblocked x j js s (awaited next) e = (_, refl)
    advance-unblocked x j js s (shared next) e = (_, refl)

    enabled :
        (s : Server lib J E) (p : Phase lib J E) (x : E)
        → s.phase ≡ p
        → ((r : Result (Unit {0}) (WorkerServerError lib J E)) → p ≢ ended r)
        → Stopped p s.tasks s.cancelled
        → CanStep s ⊎ AwaitsClones s
    unfolding step write_next
    enabled s serving x e live h =
        inl (main x, _, tt, ap (λ q. proceed lib J E handler ending x q s) e)
    enabled s (cancelling id) x e live h =
        inl (main x, _, tt, ap (λ q. proceed lib J E handler ending x q s) e)
    enabled s (ended r) x e live h = elim (live r refl) [ ]
    enabled s joining x e live h = inl (go s.tasks refl h)
      where
        go : (js : List (Job lib J E)) → s.tasks ≡ js → Stopped joining js s.cancelled → CanStep s
        go [] none_left _ = (
          main x,
          _,
          tt,
          ap (λ q. proceed lib J E handler ending x q s) e
              ∙ ap (λ js. join_all lib J E handler ending js s) none_left,
        )
        go (j ∷ js) some_left (cancelled_now, rest) =
            let (u, found) = stage j.stage in
            (
              job 0 x,
              u,
              tt,
              ap
                    (λ ks.
                      and_then (pick 0 ks)
                        (λ p. work lib J E handler ending x p.0 p.1 p.2 p.1.stage s))
                    some_left
                  ∙ found,
            )
          where
            stage :
                (st : Stage lib J E)
                → (u : Server lib J E) × (work lib J E handler ending x [] j js st s ≡ some u)
            stage (running t) = advance-unblocked x j js s t cancelled_now
            stage closed = (_, refl)
    enabled s draining x e live h = go s.outbox.broken refl s.outbox.channel refl
      where
        go :
            (broken : Option (FrameError J))
            → s.outbox.broken ≡ broken
            → (fs : List (PluginFrame lib)) → s.outbox.channel ≡ fs
            → CanStep s ⊎ AwaitsClones s
        go (some x1) b fs ch = inl (
          main x,
          _,
          tt,
          ap (λ q. proceed lib J E handler ending x q s) e
              ∙ ap (λ k. join_writer lib J E handler ending k s.outbox.channel s) b,
        )
        go none b [] ch = clones_of s.clones refl
          where
            clones_of : (is : List RequestId) → s.clones ≡ is → CanStep s ⊎ AwaitsClones s
            clones_of [] unused = inl (
              main x,
              _,
              tt,
              ap (λ q. proceed lib J E handler ending x q s) e
                  ∙ ap (λ k. join_writer lib J E handler ending k s.outbox.channel s) b
                  ∙ ap (λ k. join_writer lib J E handler ending none k s) ch
                  ∙ ap (λ is. writer_done lib J E handler ending is s) unused,
            )
            clones_of (i ∷ is) used = inr (e, ch, b, λ unused. ground arith)
        go none b (f ∷ fs) ch = inl (
          writing,
          _,
          tt,
          ap
                (λ k.
                  and_then (round lib J E s.outbox.channel s.outbox k)
                    (λ o. some (record s { outbox = o })))
                b
              ∙ ap
                  (λ k.
                    and_then (round lib J E k s.outbox none) (λ o. some (record s { outbox = o })))
                  ch,
        )

    -- In every state that a session reaches and that is not its end, one of the worker's own tasks
    -- can take a step, whatever the handler learns from outside, or everything is written and the
    -- main task waits for clones of contexts that are still held: a shutdown that waits for tasks
    -- is never held up by a task that waits to be cancelled.
    pub step-CanStep :
        (m : Manifest lib) (fs : List (HostFrame lib)) (w : Writer J (PluginFrame lib))
        (s t : Server lib J E)
        → open_session lib J E ending m fs w ≡ ok s
        → Reach lib J E handler ending s t
        → ((r : Result (Unit {0}) (WorkerServerError lib J E)) → t.phase ≢ ended r)
        → E
        → CanStep t ⊎ AwaitsClones t
    step-CanStep m fs w s t opened_with r live x =
        let (hello, rest, w1, e, welcome, same, sent) =
          open_session-ok lib J E ending m fs w s opened_with in
        let o : InOrder lib J E s = subst (InOrder lib J E) (sym same) (nobody lib J E 0) in
        let h : IsStopped s = subst IsStopped (sym same) tt in
        enabled t t.phase x refl live (Reach-IsStopped r o h)
