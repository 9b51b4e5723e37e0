-- ===== src/Tokio/Server/Panic.antt =====
-- What a handler that panics leaves behind: the entry of its request, for ever.

use outboard.Prelude.{
  ◌≡◌, ◌≢◌, refl, sym, ap, ◌∙◌, subst, List, [], ◌∷◌, ◌++◌, Option, none, some, Result, ok, err,
  All, and_then, ℕ, arith,
}
use outboard.Crates.{Crates}
use outboard.Protocol.{
  RequestId, HostFrame, InvokeRequest, PluginFrame, WorkerError, invoke, cancel, ping, shutdown,
}
use outboard.Protocol.Framing.{FrameError}
use outboard.Tokio.{entry_of}
use outboard.Tokio.Server.{
  CancellationToken, pick, AsyncWorkerHandler, panicked, Stage, running, closed, Job, Phase,
  serving, cancelling, joining, draining, ended, Moved, blocked, aborted, moved, given, advance,
  Server, admit, handle, step, read_frame, answer_cancel, join_all, join_writer, proceed, settle,
  work, Turn, main, job, writing, outside, Reach, start, more, write_next, already_active, sends,
}
use outboard.Tokio.Server.Tables.{
  pick-split, Whenever, whenever, Whenever-and_then, All-split, All-put,
}
use outboard.Tokio.Server.Ownership.{Owns, Owned, InOrder, Reach-InOrder, Apart-split}
use outboard.Manifest.{Manifest}
use outboard.Worker.{Writer}
use outboard.Tokio.Server.{open_session}
use outboard.Tokio.Server.Opening.{open_session-ok}
use outboard.Tokio.Server.Ownership.{nobody}
use outboard.Tokio.Server.Tables.{entry_of-without_other}
use outboard.Tokio.Server.Clones.{writer_done-Whenever}

module _ (lib : Crates) (J E : Type 0) (id : RequestId) (token : CancellationToken) where
  -- The map has an entry for a request that no task serves.
  abbrev pub Abandoned : Server lib J E → Type 0
  Abandoned s = (entry_of id s.pending ≡ some token) × All (λ j. j.id ≢ id) s.tasks

  module _ (handler : AsyncWorkerHandler lib J E) (ending : FrameError J) where
    handle-Abandoned :
        (f : HostFrame lib) (s : Server lib J E)
        → Abandoned s
        → Abandoned (handle lib J E handler ending f s)
    unfolding handle
    handle-Abandoned (invoke r) s (held, far) = go (entry_of r.id s.pending) refl
      where
        go :
            (found : Option CancellationToken)
            → entry_of r.id s.pending ≡ found
            → Abandoned (admit lib J E handler ending r s found)
        go (some t) e = (held, far)
        go none e = (ground arith, ((λ same. ground arith), far))
    handle-Abandoned (HostFrame.hello _) s a = a
    handle-Abandoned (ping nonce) s a = a
    handle-Abandoned (cancel i) s a = a
    handle-Abandoned shutdown s a = a

    proceed-Abandoned :
        (x : E) (p : Phase lib J E) (s : Server lib J E)
        → Abandoned s
        → Whenever Abandoned (proceed lib J E handler ending x p s)
    proceed-Abandoned x serving s (held, far) = go s.incoming
      where
        go : (fs : List (HostFrame lib)) → Abandoned (read_frame lib J E handler ending fs s)
        go [] = (held, tt)
        go (f ∷ fs) = handle-Abandoned f (record s { incoming = fs }) (held, far)
    proceed-Abandoned x (cancelling i) s a = go (handler.cancel i x)
      where
        go :
            (r : Result (Unit {0}) (WorkerError lib))
            → Abandoned (answer_cancel lib J E handler ending i r s)
        go (ok u) = a
        go (err e) = a
    proceed-Abandoned x joining s a = go s.tasks
      where
        go : (js : List (Job lib J E)) → Whenever Abandoned (join_all lib J E handler ending js s)
        go [] = a
        go (j ∷ js) = tt
    proceed-Abandoned x draining s a = go s.outbox.broken s.outbox.channel
      where
        go :
            (broken : Option (FrameError J)) (fs : List (PluginFrame lib))
            → Whenever Abandoned (join_writer lib J E handler ending broken fs s)
        go (some e) fs = a
        go none [] = writer_done-Whenever lib J E handler ending Abandoned s s.clones (λ e. a)
        go none (f ∷ fs) = tt
    proceed-Abandoned x (ended r) s a = tt

    work-Abandoned :
        (x : E) (before : List (Job lib J E)) (j : Job lib J E) (after : List (Job lib J E))
        (s : Server lib J E)
        → entry_of id s.pending ≡ some token
        → All (λ k. k.id ≢ id) (before ++ j ∷ after)
        → Whenever Abandoned (work lib J E handler ending x before j after j.stage s)
    work-Abandoned x before j after s held far =
        let (ne, others) = All-split (λ k. k.id ≢ id) before j after far in go ne others j.stage
      where
        settled :
            j.id ≢ id
            → All (λ k. k.id ≢ id) (before ++ after)
            → (m : Moved lib J E)
            → Whenever Abandoned (settle lib J E handler ending m before j after s)
        settled ne others blocked = tt
        settled ne others aborted = (held, others)
        settled ne others (moved st out) =
            (held, All-put (λ k. k.id ≢ id) before (record j { stage = st }) after ne others)
        settled ne others (given st) =
            (held, All-put (λ k. k.id ≢ id) before (record j { stage = st }) after ne others)

        go :
            j.id ≢ id
            → All (λ k. k.id ≢ id) (before ++ after)
            → (st : Stage lib J E)
            → Whenever Abandoned (work lib J E handler ending x before j after st s)
        go ne others (running t) =
            settled ne others (advance lib J E x s.cancelled s.outbox j.id j.token t)
        go ne others closed =
            (entry_of-without_other id j.id s.pending (λ e. ne (sym e)) ∙ held, others)

    step-Abandoned :
        (s : Server lib J E) (turn : Turn lib J E handler ending)
        → Abandoned s
        → Whenever Abandoned (step lib J E handler ending s turn)
    unfolding step
    step-Abandoned s (main x) a = proceed-Abandoned x s.phase s a
    step-Abandoned s (job n x) (held, far) =
        Whenever-and_then Abandoned (pick n s.tasks) _ (λ p found.
          work-Abandoned x p.0 p.1 p.2 s held
            (subst (All (λ j. j.id ≢ id)) (pick-split n s.tasks p.0 p.1 p.2 found) far))
    step-Abandoned s writing a =
        Whenever-and_then Abandoned (write_next lib J E s.outbox) _ (λ out found. a)
    step-Abandoned s (outside n u) a =
        Whenever-and_then Abandoned (pick n s.clones) _ (λ p found. a)

    pub Reach-Abandoned :
        {s u : Server lib J E} → Reach lib J E handler ending s u → Abandoned s → Abandoned u
    Reach-Abandoned start a = a
    Reach-Abandoned (more {t} {u} r turn e) a =
        whenever Abandoned (step-Abandoned t turn (Reach-Abandoned r a)) e

module _ (lib : Crates) (J E : Type 0) (handler : AsyncWorkerHandler lib J E)
    (ending : FrameError J) where
  -- When the handler of a request panics in a session, then in every later state no task serves
  -- the request, and an invocation with its id gets only the answer that the id is still active.
  pub panicked-refused :
      (m : Manifest lib) (fs : List (HostFrame lib)) (w : Writer J (PluginFrame lib))
      (s0 s t u : Server lib J E)
      → open_session lib J E ending m fs w ≡ ok s0
      → Reach lib J E handler ending s0 s
      → (n : ℕ) (before : List (Job lib J E)) (j : Job lib J E) (after : List (Job lib J E)) (x : E)
      → pick n s.tasks ≡ some (before, j, after)
      → j.stage ≡ running panicked
      → step lib J E handler ending s (job n x) ≡ some t
      → Reach lib J E handler ending t u
      → (r : InvokeRequest lib) → r.id ≡ j.id
      → All (λ k. k.id ≢ j.id) u.tasks
        × (handle lib J E handler ending (invoke r) u
            ≡ sends lib J E (already_active lib J E r.id) u)
  unfolding step handle advance
  panicked-refused m fs w s0 s t u opened_with before_it n before j after x found stage e later r
        at =
      let (hello, rest, w1, e1, welcome, same, sent) =
        open_session-ok lib J E ending m fs w s0 opened_with in
      let o =
        Reach-InOrder lib J E handler ending before_it
          (subst (InOrder lib J E) (sym same) (nobody lib J E 0)) in
      let o1 : Owned lib J E s.pending (before ++ j ∷ after) s.next_token =
        subst (λ js. Owned lib J E s.pending js s.next_token)
          (pick-split n s.tasks before j after found) o in
      let mine = (All-split (Owns lib J E s.pending) before j after o1.own).0 in
      let far = (Apart-split lib J E before j after o1.apart).0 in
      let dropped : some (record s { tasks = before ++ after }) ≡ some t =
        sym (
          ap (λ p. and_then p (λ q. work lib J E handler ending x q.0 q.1 q.2 q.1.stage s)) found
          ∙ ap (λ st. work lib J E handler ending x before j after st s) stage)
        ∙ e in
      let left : Abandoned lib J E j.id j.token t =
        whenever (Abandoned lib J E j.id j.token) (mine, far) dropped in
      let (held, gone) = Reach-Abandoned lib J E j.id j.token handler ending later left in
      (gone, ap (admit lib J E handler ending r u) (ap (λ i. entry_of i u.pending) at ∙ held))
