-- ===== src/Tokio/Server/Jobs.antt =====
-- The steps of the task of an invocation keep the course of the session.

use outboard.Prelude.{
  ◌≡◌, refl, sym, ap, ◌∙◌, Bool, true, false, List, [], ◌∷◌, ◌++◌, some, Result, ok, err,
  if◌then◌else◌,
}
use outboard.Crates.{Crates}
use outboard.Protocol.{PluginFrame, InvocationResult, WorkerError, progress, output, request_id}
use outboard.Protocol.Framing.{FrameError}
use outboard.Worker.Server.{closing}
use outboard.Tokio.{without}
use outboard.Tokio.Server.{
  AsyncWorkerHandler, Task, returned, panicked, progressed, put_out, asked, parked, awaited, shared,
  Stage, running, closed, Job, blocked, moved, advance, is_cancelled, Server, settle, work, post,
  posted,
}
use outboard.Tokio.Server.Tables.{Whenever, All-split}
use outboard.Tokio.Server.Ownership.{Owns, Owned, Apart-split}
use outboard.Tokio.Server.Talk.{active, over, Says, closes, reports}
use outboard.Tokio.Server.History.{Kept-post}
use outboard.Tokio.Server.Told.{
  Shows, Told-given, Told-moved, Told-sent, Told-dropped, Told-released, in_handler,
}
use outboard.Tokio.Server.Close.{Course, Story, Close, NotAck, one_more, Close-while}

module _ (lib : Crates) (J E : Type 0) where
  module _ (handler : AsyncWorkerHandler lib J E) (ending : FrameError J) where
    module _ (before : List (Job lib J E)) (j : Job lib J E) (after : List (Job lib J E))
        (s : Server lib J E) (hs : List (PluginFrame lib))
        (o : Owned lib J E s.pending (before ++ j ∷ after) s.next_token)
        (c : Course lib J E (record s { tasks = before ++ j ∷ after }) hs)
        (close : Close lib J E s.phase hs (before ++ j ∷ after) s.clones s.outbox) where
      -- A task in the handler goes on without a frame.
      quiet :
          (st : Stage lib J E)
          → in_handler lib J E j.stage ≡ in_handler lib J E st
          → Story lib J E (record s { tasks = before ++ record j { stage = st } ∷ after })
      quiet st e = (
        hs,
        record { kept = c.kept; told = λ i. Told-moved lib J E before j after st i e (c.told i) },
        Close-while lib J E before j after hs hs s.phase _ s.clones _ s.outbox _ close (λ n. n),
      )

      -- It sends a frame of its request.
      speaks :
          (st : Stage lib J E) (f : PluginFrame lib)
          → in_handler lib J E j.stage ≡ active
          → Says lib J j.id active f (in_handler lib J E st)
          → request_id lib f ≡ some j.id
          → NotAck lib J E f
          → Story lib J E (record s {
            tasks = before ++ record j { stage = st } ∷ after;
            outbox = post lib J E f s.outbox;
          })
      speaks st f e says names ne = (
        hs ++ f ∷ [],
        record {
          kept = Kept-post lib J E f c.kept;
          told = λ i.
              Told-sent lib J E before j after st f i e says names
                (All-split (Owns lib J E s.pending) before j after o.own).0
                (Apart-split lib J E before j after o.apart).0 (c.told i);
        },
        Close-while lib J E before j after hs (hs ++ f ∷ []) s.phase _ s.clones _ s.outbox _ close
            (λ n. one_more lib J E hs f n ne),
      )

      -- It gives a clone of its context away.
      gives :
          (st : Stage lib J E)
          → in_handler lib J E j.stage ≡ active
          → in_handler lib J E st ≡ active
          → Story lib J E (record s {
            tasks = before ++ record j { stage = st } ∷ after;
            clones = j.id ∷ s.clones;
          })
      gives st e e1 = (
        hs,
        record {
          kept = c.kept;
          told = λ i. Told-moved lib J E before j after st i (e ∙ sym e1) (
              Told-given lib J E j.id i (c.told i) (λ at.
                (All-split (Shows lib J E i (c.told i).begun) before j after (c.told i).shown).0 at
                ∙ e));
        },
        Close-while lib J E before j after hs hs s.phase _ s.clones _ s.outbox _ close (λ n. n),
      )

      leaves :
          in_handler lib J E j.stage ≡ over
          → Story lib J E (record s { tasks = before ++ after; pending = without j.id s.pending })
      leaves e = (
        hs,
        record { kept = c.kept; told = λ i. Told-released lib J E before j after i e (c.told i) },
        Close-while lib J E before j after hs hs s.phase _ s.clones _ s.outbox _ close (λ n. n),
      )

      breaks : Story lib J E (record s { tasks = before ++ after })
      breaks = (
        hs,
        record { kept = c.kept; told = λ i. Told-dropped lib J E before j after i (c.told i) },
        Close-while lib J E before j after hs hs s.phase _ s.clones _ s.outbox _ close (λ n. n),
      )

      advance-Story :
          (x : E) (t : Task lib J E)
          → in_handler lib J E j.stage ≡ active
          → Whenever (Story lib J E) (
              settle lib J E handler ending
                (advance lib J E x s.cancelled s.outbox j.id j.token t)
                before
                j
                after
                s)
      unfolding advance request_id
      advance-Story x (returned r) e = go r
        where
          go :
              (r : Result (InvocationResult lib) (WorkerError lib))
              → Story lib J E (record s {
                tasks = before ++ record j { stage = closed } ∷ after;
                outbox = post lib J E (closing lib J j.id r) s.outbox;
              })
          go (ok v) = speaks closed (closing lib J j.id (ok v)) e (closes (ok v)) refl (λ h. cc)
          go (err v) = speaks closed (closing lib J j.id (err v)) e (closes (err v)) refl (λ h. cc)
      advance-Story x panicked e = breaks
      advance-Story x (progressed fraction message next) e =
          speaks (running (next (posted lib J E s.outbox))) (progress j.id fraction message) e
            (reports (λ h. cc (h)) refl) refl (λ h. cc)
      advance-Story x (put_out payload next) e =
          speaks (running (next (posted lib J E s.outbox))) (output j.id payload) e
            (reports (λ h. cc (h)) refl) refl (λ h. cc)
      advance-Story x (asked next) e =
          quiet (running (next (is_cancelled lib J E j.token s.cancelled))) e
      advance-Story x (parked next) e = go (is_cancelled lib J E j.token s.cancelled)
        where
          go :
              (b : Bool)
              → Whenever (Story lib J E) (
                  settle lib J E handler ending
                    (if b then moved (running next) s.outbox else blocked)
                    before
                    j
                    after
                    s)
          go true = quiet (running next) e
          go false = tt
      advance-Story x (awaited next) e = quiet (running (next x)) e
      advance-Story x (shared next) e = gives (running next) e refl

      pub work-Story :
          (x : E)
          → Whenever (Story lib J E) (work lib J E handler ending x before j after j.stage s)
      work-Story x = go j.stage refl
        where
          go :
              (st : Stage lib J E)
              → j.stage ≡ st
              → Whenever (Story lib J E) (work lib J E handler ending x before j after st s)
          go (running t) e = advance-Story x t (ap (in_handler lib J E) e)
          go closed e = leaves (ap (in_handler lib J E) e)
