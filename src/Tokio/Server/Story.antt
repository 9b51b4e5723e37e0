-- ===== src/Tokio/Server/Story.antt =====
-- The whole course of an asynchronous worker's session: an invariant of every state that it
-- reaches, in whatever order its tasks take their steps.

use outboard.Prelude.{◌≡◌, refl, subst, List, [], ◌∷◌, ◌++◌, some}
use outboard.Crates.{Crates}
use outboard.Protocol.Framing.{FrameError}
use outboard.Tokio.Server.{
  pick, AsyncWorkerHandler, Job, Server, step, Turn, main, job, writing, outside, CloneUse,
  clone_progress, clone_output, clone_again, clone_drop, clones_left, use_clone, post, Reach, start,
  more, write_next,
}
use outboard.Tokio.Server.Tables.{pick-split, Whenever, whenever, Whenever-and_then}
use outboard.Tokio.Server.Ownership.{Owned, InOrder, Reach-InOrder}
use outboard.Tokio.Server.History.{Kept, Kept-post, Kept-write_next}
use outboard.Tokio.Server.Close.{
  NotAck, Course, Story, Close, Close-written, Close-reported, Close-passed,
}
use outboard.Tokio.Server.Told.{Told-reported, Told-passed}
use outboard.Worker.Server.Laws.{IsEvent}
use outboard.Protocol.{RequestId, PluginFrame, progress, output, request_id}
use outboard.Tokio.Server.MainTask.{proceed-Story}
use outboard.Tokio.Server.Jobs.{work-Story}

module _ (lib : Crates) (J E : Type 0) where
  module _ (handler : AsyncWorkerHandler lib J E) (ending : FrameError J) where
    abbrev with_tasks : Server lib J E → List (Job lib J E) → Server lib J E
    with_tasks s js = record s { tasks = js }

    step-Story :
        (s : Server lib J E) (turn : Turn lib J E handler ending)
        → InOrder lib J E s
        → Story lib J E s
        → Whenever (Story lib J E) (step lib J E handler ending s turn)
    unfolding step request_id
    step-Story s (main x) o (hs, c, close) =
        proceed-Story lib J E handler ending x s.phase s hs o c refl close
    step-Story s (job n x) o (hs, c, close) =
        Whenever-and_then (Story lib J E) (pick n s.tasks) _ (λ p found.
          let split = pick-split n s.tasks p.0 p.1 p.2 found in
          work-Story lib J E handler ending p.0 p.1 p.2 s hs
            (subst (λ js. Owned lib J E s.pending js s.next_token) split o)
            (subst (λ js. Course lib J E (with_tasks s js) hs) split
              (record { kept = c.kept; told = c.told }))
            (subst (λ js. Close lib J E s.phase hs js s.clones s.outbox) split close) x)
    step-Story s writing o (hs, c, close) =
        Whenever-and_then (Story lib J E) (write_next lib J E s.outbox) _ (λ out found. (
          hs,
          record {
            kept = whenever (Kept lib J E hs) (Kept-write_next lib J E s.outbox c.kept) found;
            told = c.told;
          },
          Close-written lib J E s hs out s.phase found close,
        ))
    step-Story s (outside n u) o (hs, c, close) =
        Whenever-and_then (Story lib J E) (pick n s.clones) _
          (λ p found. used u p.0 p.1 p.2 (pick-split n s.clones p.0 p.1 p.2 found))
      where
        reported :
            (u : CloneUse lib J E) (before : List RequestId) (i : RequestId)
            (after : List RequestId) (f : PluginFrame lib)
            → s.clones ≡ before ++ i ∷ after
            → IsEvent lib J i f
            → request_id lib f ≡ some i
            → NotAck lib J E f
            → Story lib J E (record s {
              clones = clones_left lib J E u s.clones before i after;
              outbox = post lib J E f s.outbox;
            })
        reported u before i after f e event names n = (
          hs ++ f ∷ [],
          record {
            kept = Kept-post lib J E f c.kept;
            told = λ k. Told-reported lib J E u before i after f k e event names (c.told k);
          },
          Close-reported lib J E before i after hs f s.phase s.tasks s.clones _ s.outbox _ e event n
              close,
        )

        passed :
            (u : CloneUse lib J E) (before : List RequestId) (i : RequestId)
            (after : List RequestId)
            → s.clones ≡ before ++ i ∷ after
            → Story lib J E (record s { clones = clones_left lib J E u s.clones before i after })
        passed u before i after e = (
          hs,
          record { kept = c.kept; told = λ k. Told-passed lib J E u before i after k e (c.told k) },
          Close-passed lib J E before i after hs s.phase s.tasks s.clones _ s.outbox e close,
        )

        used :
            (u : CloneUse lib J E) (before : List RequestId) (i : RequestId)
            (after : List RequestId)
            → s.clones ≡ before ++ i ∷ after
            → Story lib J E (use_clone lib J E handler ending u before i after s)
        used (clone_progress x m) before i after e =
            reported (clone_progress x m) before i after (progress i x m) e refl refl (λ h. cc (h))
        used (clone_output v) before i after e =
            reported (clone_output v) before i after (output i v) e refl refl (λ h. cc (h))
        used clone_again before i after e = passed clone_again before i after e
        used clone_drop before i after e = passed clone_drop before i after e

    pub Reach-Story :
        {s u : Server lib J E}
        → Reach lib J E handler ending s u
        → InOrder lib J E s
        → Story lib J E s
        → Story lib J E u
    Reach-Story start o y = y
    Reach-Story (more {t} {u} r turn e) o y =
        whenever (Story lib J E)
          (step-Story t turn (Reach-InOrder lib J E handler ending r o) (Reach-Story r o y)) e
