-- ===== src/Tokio/Server/MainTask.antt =====
-- The steps of the main task of the asynchronous worker keep the course of its session.
use mathlib.Core.List.{append-nil}
use outboard.Prelude.{
  ◌≡◌, refl, sym, ap, ◌∙◌, subst, List, [], ◌∷◌, ◌++◌, Option, none, some, Result, ok, err, All,
}
use outboard.Crates.{Crates}
use outboard.Protocol.{
  RequestId, HostFrame, PluginFrame, WorkerError, started, error, pong, shutdown_ack, request_id,
  invoke, cancel, ping, shutdown,
}
use outboard.Protocol.Framing.{FrameError}
use outboard.Tokio.{entry_of}
use outboard.Tokio.Server.{
  CancellationToken, AsyncWorkerHandler, Job, Phase, serving, cancelling, joining, draining, ended,
  Server, admit, first_job, handle, read_frame, answer_cancel, join_all, join_writer, proceed,
  hello_again, already_active,
}
use outboard.Tokio.Server.Tables.{Whenever}
use outboard.Tokio.Server.Ownership.{InOrder}
use outboard.Tokio.Server.Clones.{writer_done-Whenever}
use outboard.Tokio.Server.History.{Kept-post}
use outboard.Tokio.Server.Told.{Told, Told-accepted, silent, remark}
use outboard.Tokio.Server.Close.{Course, Story, Close, NotAck, one_more, said, answered}

module _ (lib : Crates) (J E : Type 0) where
  module _ (handler : AsyncWorkerHandler lib J E) (ending : FrameError J) where
    handle-Story :
        (f : HostFrame lib) (s : Server lib J E) (hs : List (PluginFrame lib))
        → InOrder lib J E s
        → Course lib J E s hs
        → All (NotAck lib J E) hs
        → s.phase ≡ serving
        → Story lib J E (handle lib J E handler ending f s)
    unfolding handle request_id
    handle-Story (HostFrame.hello _) s hs o c n p =
        answered lib J E s hs (hello_again lib J E) c n p (silent lib J E _ refl) (λ e. cc)
    handle-Story (ping nonce) s hs o c n p =
        answered lib J E s hs (pong nonce) c n p (silent lib J E _ refl) (λ e. cc)
    handle-Story (cancel id) s hs o c n p = (hs, record { kept = c.kept; told = c.told }, n)
    handle-Story shutdown s hs o c n p = (hs, record { kept = c.kept; told = c.told }, n)
    handle-Story (invoke r) s hs o c n p = go (entry_of r.id s.pending) refl
      where
        go :
            (found : Option CancellationToken)
            → entry_of r.id s.pending ≡ found
            → Story lib J E (admit lib J E handler ending r s found)
        go (some t) e =
            answered lib J E s hs (already_active lib J E r.id) c n p (remark lib J E r.id _)
              (λ x. cc)
        go none e = (
          hs ++ started r.id ∷ [],
          record {
            kept = Kept-post lib J E (started r.id) c.kept;
            told = λ i.
                Told-accepted lib J E s.tasks (first_job lib J E handler ending r s) i refl e o.own
                  (c.told i);
          },
          subst
              (λ q.
                Close lib J E q (hs ++ started r.id ∷ [])
                  (admit lib J E handler ending r s none).tasks s.clones
                  (admit lib J E handler ending r s none).outbox)
              (sym p) (one_more lib J E hs _ n (λ x. cc)),
        )

    pub proceed-Story :
        (x : E) (p : Phase lib J E) (s : Server lib J E) (hs : List (PluginFrame lib))
        → InOrder lib J E s
        → Course lib J E s hs
        → s.phase ≡ p
        → Close lib J E p hs s.tasks s.clones s.outbox
        → Whenever (Story lib J E) (proceed lib J E handler ending x p s)
    unfolding request_id
    proceed-Story x serving s hs o c p n = go s.incoming
      where
        go : (fs : List (HostFrame lib)) → Story lib J E (read_frame lib J E handler ending fs s)
        go [] = (hs, record { kept = c.kept; told = λ i. ended_all i }, refl)
          where
            ended_all : (i : RequestId) → Told lib J E s.pending [] s.clones hs i
            ended_all i = record {
              begun = (c.told i).begun;
              talk = (c.told i).talk;
              held = (c.told i).held;
              shown = tt;
              heard = (c.told i).heard;
            }
        go (f ∷ fs) =
            handle-Story f (record s { incoming = fs }) hs o
              (record { kept = c.kept; told = c.told }) n p
    proceed-Story x (cancelling id) s hs o c p n = go (handler.cancel id x)
      where
        go :
            (r : Result (Unit {0}) (WorkerError lib))
            → Story lib J E (answer_cancel lib J E handler ending id r s)
        go (ok u) = (hs, record { kept = c.kept; told = c.told }, n)
        go (err e) =
            said lib J E s hs (error (some id) e) serving c (remark lib J E id e)
              (one_more lib J E hs _ n (λ h. cc))
    proceed-Story x joining s hs o c p n = go s.tasks refl
      where
        go :
            (js : List (Job lib J E))
            → s.tasks ≡ js
            → Whenever (Story lib J E) (join_all lib J E handler ending js s)
        go [] none_left =
            said lib J E s hs shutdown_ack draining c (silent lib J E _ refl)
              ((hs, [], refl, n, tt), none_left)
        go (j ∷ js) e = tt
    proceed-Story x draining s hs o c p (acked, none_left) =
        go s.outbox.broken refl s.outbox.channel refl
      where
        go :
            (broken : Option (FrameError J))
            → s.outbox.broken ≡ broken
            → (fs : List (PluginFrame lib)) → s.outbox.channel ≡ fs
            → Whenever (Story lib J E) (join_writer lib J E handler ending broken fs s)
        go (some e) b fs ch = (hs, record { kept = c.kept; told = c.told }, none_left)
        go none b [] ch =
            writer_done-Whenever lib J E handler ending (Story lib J E) s s.clones (λ unused. (
              hs,
              record { kept = c.kept; told = c.told },
              (
                acked,
                none_left,
                unused,
                c.kept.all
                    ∙ ap (λ xs. s.outbox.writer.sent ++ xs) (c.kept.live b ∙ ch)
                    ∙ append-nil s.outbox.writer.sent,
                b,
                ch,
              ),
            ))
        go none b (f ∷ fs) ch = tt
    proceed-Story x (ended r) s hs o c p n = tt
