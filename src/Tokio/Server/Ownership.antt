-- ===== src/Tokio/Server/Ownership.antt =====
-- Who owns a request of the asynchronous worker: its one task, its entry in the map of active
-- requests, and a token that no other request has.
use outboard.Prelude.{
  ℕ, ◌+◌, ◌<◌, ◌≡◌, ◌≢◌, refl, sym, subst, List, [], ◌∷◌, ◌++◌, Option, none, some, All, All-map,
  nat_eq, arith, Result, ok, err,
}
use outboard.Crates.{Crates}
use outboard.Protocol.{HostFrame, PluginFrame, WorkerError, invoke, cancel, ping, shutdown}
use outboard.Protocol.Framing.{FrameError}
use outboard.Tokio.{RequestMap, entry_of, without}
use outboard.Tokio.Server.{
  CancellationToken, pick, AsyncWorkerHandler, Job, Server, Stage, running, closed, Phase, serving,
  cancelling, joining, draining, ended, Moved, blocked, aborted, moved, given, advance, admit,
  first_job, handle, step, read_frame, answer_cancel, join_all, join_writer, proceed, settle, work,
  Turn, main, job, writing, outside, Reach, start, more, write_next,
}
use outboard.Tokio.Server.Tables.{
  entry_of-without_same, entry_of-without_other, pick-split, All-split, All-put, Whenever, whenever,
  Whenever-and_then,
}
use outboard.Tokio.Server.Clones.{writer_done-Whenever}

module _ (lib : Crates) (J E : Type 0) where
  -- No two tasks have the same request.
  abbrev pub Apart : List (Job lib J E) → Type 0
  Apart [] = Unit
  Apart (j ∷ js) = All (λ k. k.id ≢ j.id) js × Apart js

  pub Apart-split :
      (before : List (Job lib J E)) (j : Job lib J E) (after : List (Job lib J E))
      → Apart (before ++ j ∷ after)
      → All (λ k. k.id ≢ j.id) (before ++ after) × Apart (before ++ after)
  Apart-split [] j after h = h
  Apart-split (i ∷ before) j after (far, h) =
      let (others, apart) = Apart-split before j after h in
      let (here, rest) = All-split (λ k. k.id ≢ i.id) before j after far in
      (((λ e. here (sym e)), others), (rest, apart))

  Apart-put :
      (before : List (Job lib J E)) (j : Job lib J E) (after : List (Job lib J E))
      → All (λ k. k.id ≢ j.id) (before ++ after)
      → Apart (before ++ after)
      → Apart (before ++ j ∷ after)
  Apart-put [] j after far h = (far, h)
  Apart-put (i ∷ before) j after (ne, far) (away, h) = (
    All-put (λ k. k.id ≢ i.id) before j after (λ e. ne (sym e)) away,
    Apart-put before j after far h,
  )

  abbrev pub Owns : RequestMap → Job lib J E → Type 0
  Owns pending j = entry_of j.id pending ≡ some j.token

  pub record Owned (pending : RequestMap) (tasks : List (Job lib J E)) (next : CancellationToken)
      : Type 0 where
    pub own : All (Owns pending) tasks
    pub apart : Apart tasks
    pub fresh : (i t : ℕ) → entry_of i pending ≡ some t → t < next
    pub single : (i j t : ℕ) → entry_of i pending ≡ some t → entry_of j pending ≡ some t → i ≡ j

  pub nobody : (next : ℕ) → Owned [] [] next
  nobody next = record { own = tt; apart = tt; fresh = λ i t e. cc; single = λ i j t e e2. cc }

  -- A task of its request goes on.
  Owned-replaced :
      {pending : RequestMap} {next : ℕ} (before : List (Job lib J E)) (j k : Job lib J E)
      (after : List (Job lib J E))
      → k.id ≡ j.id
      → k.token ≡ j.token
      → Owned pending (before ++ j ∷ after) next
      → Owned pending (before ++ k ∷ after) next
  Owned-replaced {pending} before j k after same_id same_token o =
      let (mine, others) = All-split (Owns pending) before j after o.own in
      let (far, rest) = Apart-split before j after o.apart in
      record {
        own = All-put (Owns pending) before k after (ground arith) others;
        apart =
            Apart-put before k after
              (All-map (λ i. i.id ≢ j.id) (λ i. i.id ≢ k.id) (λ i ne. ground arith)
                (before ++ after) far)
              rest;
        fresh = o.fresh;
        single = o.single;
      }

  Owned-dropped :
      {pending : RequestMap} {next : ℕ} (before : List (Job lib J E)) (j : Job lib J E)
      (after : List (Job lib J E))
      → Owned pending (before ++ j ∷ after) next
      → Owned pending (before ++ after) next
  Owned-dropped {pending} before j after o = record {
    own = (All-split (Owns pending) before j after o.own).1;
    apart = (Apart-split before j after o.apart).1;
    fresh = o.fresh;
    single = o.single;
  }

  found_before :
      (pending : RequestMap) (id i t : ℕ)
      → entry_of i (without id pending) ≡ some t
      → entry_of i pending ≡ some t
  found_before pending id i t e =
      ground (arith, entry_of-without_same id pending, entry_of-without_other i id pending)

  Owned-released :
      {pending : RequestMap} {next : ℕ} (before : List (Job lib J E)) (j : Job lib J E)
      (after : List (Job lib J E))
      → Owned pending (before ++ j ∷ after) next
      → Owned (without j.id pending) (before ++ after) next
  Owned-released {pending} before j after o =
      let (far, rest) = Apart-split before j after o.apart in
      let others = (All-split (Owns pending) before j after o.own).1 in
      record {
        own = kept (before ++ after) far others;
        apart = rest;
        fresh = λ i t e. o.fresh i t (found_before pending j.id i t e);
        single = λ i k t e e2.
            o.single i k t (found_before pending j.id i t e) (found_before pending j.id k t e2);
      }
    where
      kept :
          (js : List (Job lib J E))
          → All (λ k. k.id ≢ j.id) js
          → All (Owns pending) js
          → All (Owns (without j.id pending)) js
      kept [] _ _ = tt
      kept (k ∷ js) (ne, far) (own, h) =
          (ground (arith, entry_of-without_other k.id j.id pending ne), kept js far h)

  Owned-accepted :
      {pending : RequestMap} {tasks : List (Job lib J E)} {next : ℕ} (j : Job lib J E)
      → j.token ≡ next
      → entry_of j.id pending ≡ none
      → Owned pending tasks next
      → Owned ((j.id, next) ∷ pending) (j ∷ tasks) (next + 1)
  Owned-accepted {pending} {tasks} {next} j e absent o = record {
    own = (ground arith, kept tasks o.own);
    apart = (apart tasks o.own, o.apart);
    fresh = λ i t f. ground (arith, o.fresh i t);
    single = λ i k t f g. ground (arith, o.single i k t, o.fresh i t, o.fresh k t);
  }
    where
      kept :
          (js : List (Job lib J E)) → All (Owns pending) js → All (Owns ((j.id, next) ∷ pending)) js
      kept [] _ = tt
      kept (k ∷ js) (own, h) = (ground arith, kept js h)

      apart : (js : List (Job lib J E)) → All (Owns pending) js → All (λ k. k.id ≢ j.id) js
      apart [] _ = tt
      apart (k ∷ js) (own, h) = ((λ same. ground arith), apart js h)

  abbrev pub InOrder : Server lib J E → Type 0
  InOrder s = Owned s.pending s.tasks s.next_token

  module _ (handler : AsyncWorkerHandler lib J E) (ending : FrameError J) where
    handle-InOrder :
        (f : HostFrame lib) (s : Server lib J E)
        → InOrder s
        → InOrder (handle lib J E handler ending f s)
    unfolding handle
    handle-InOrder (HostFrame.hello _) s o = o
    handle-InOrder (ping nonce) s o = o
    handle-InOrder (cancel id) s o = o
    handle-InOrder shutdown s o = o
    handle-InOrder (invoke r) s o = go (entry_of r.id s.pending) refl
      where
        go :
            (found : Option CancellationToken)
            → entry_of r.id s.pending ≡ found
            → InOrder (admit lib J E handler ending r s found)
        go none e = Owned-accepted (first_job lib J E handler ending r s) refl e o
        go (some t) e = o

    proceed-InOrder :
        (x : E) (p : Phase lib J E) (s : Server lib J E)
        → InOrder s
        → Whenever InOrder (proceed lib J E handler ending x p s)
    proceed-InOrder x serving s o = go s.incoming
      where
        go : (fs : List (HostFrame lib)) → InOrder (read_frame lib J E handler ending fs s)
        go [] = record { own = tt; apart = tt; fresh = o.fresh; single = o.single }
        go (f ∷ fs) = handle-InOrder f (record s { incoming = fs }) o
    proceed-InOrder x (cancelling id) s o = go (handler.cancel id x)
      where
        go :
            (r : Result (Unit {0}) (WorkerError lib))
            → InOrder (answer_cancel lib J E handler ending id r s)
        go (ok u) = o
        go (err e) = o
    proceed-InOrder x joining s o = go s.tasks
      where
        go : (js : List (Job lib J E)) → Whenever InOrder (join_all lib J E handler ending js s)
        go [] = o
        go (j ∷ js) = tt
    proceed-InOrder x draining s o = go s.outbox.broken s.outbox.channel
      where
        go :
            (broken : Option (FrameError J)) (fs : List (PluginFrame lib))
            → Whenever InOrder (join_writer lib J E handler ending broken fs s)
        go (some e) fs = o
        go none [] = writer_done-Whenever lib J E handler ending InOrder s s.clones (λ e. o)
        go none (f ∷ fs) = tt
    proceed-InOrder x (ended r) s o = tt

    work-InOrder :
        (x : E) (before : List (Job lib J E)) (j : Job lib J E) (after : List (Job lib J E))
        (s : Server lib J E)
        → Owned s.pending (before ++ j ∷ after) s.next_token
        → Whenever InOrder (work lib J E handler ending x before j after j.stage s)
    work-InOrder x before j after s o = go j.stage
      where
        settled :
            (m : Moved lib J E)
            → Whenever InOrder (settle lib J E handler ending m before j after s)
        settled blocked = tt
        settled aborted = Owned-dropped before j after o
        settled (moved st out) = Owned-replaced before j (record j { stage = st }) after refl refl o
        settled (given st) = Owned-replaced before j (record j { stage = st }) after refl refl o

        go :
            (st : Stage lib J E)
            → Whenever InOrder (work lib J E handler ending x before j after st s)
        go (running t) = settled (advance lib J E x s.cancelled s.outbox j.id j.token t)
        go closed = Owned-released before j after o

    step-InOrder :
        (s : Server lib J E) (turn : Turn lib J E handler ending)
        → InOrder s
        → Whenever InOrder (step lib J E handler ending s turn)
    unfolding step
    step-InOrder s (main x) o = proceed-InOrder x s.phase s o
    step-InOrder s (job n x) o = Whenever-and_then InOrder (pick n s.tasks) _ (λ p found.
        work-InOrder x p.0 p.1 p.2 s (
          subst (λ js. Owned s.pending js s.next_token) (pick-split n s.tasks p.0 p.1 p.2 found) o))
    step-InOrder s writing o =
        Whenever-and_then InOrder (write_next lib J E s.outbox) _ (λ out found. o)
    step-InOrder s (outside n u) o = Whenever-and_then InOrder (pick n s.clones) _ (λ p found. o)

    pub Reach-InOrder :
        {s u : Server lib J E} → Reach lib J E handler ending s u → InOrder s → InOrder u
    Reach-InOrder start o = o
    Reach-InOrder (more {t} {u} r turn e) o =
        whenever InOrder (step-InOrder t turn (Reach-InOrder r o)) e
