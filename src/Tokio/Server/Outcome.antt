-- ===== src/Tokio/Server/Outcome.antt =====
-- What the host of an asynchronous worker can rely on, whatever order the worker's tasks run in.
use mathlib.Core.List.{append-nil}
use outboard.Prelude.{◌≡◌, refl, sym, ap, ◌∙◌, ◌≢◌, subst, List, [], ◌∷◌, ◌++◌, none, ok, All}
use outboard.Crates.{Crates}
use outboard.Manifest.{Manifest}
use outboard.Protocol.{RequestId, HostFrame, PluginFrame, request_id}
use outboard.Protocol.Framing.{FrameError}
use outboard.Worker.{Writer}
use outboard.Tokio.{entry_of}
use outboard.Tokio.Server.{
  AsyncWorkerHandler, Server, Reach, open_session, opened, own_hello, ended,
}
use outboard.Tokio.Server.Opening.{open_session-ok}
use outboard.Tokio.Server.Ownership.{Owns, InOrder, nobody, Apart, Reach-InOrder}
use outboard.Tokio.Server.Talk.{Stand, unheard, active, Talk, Talk-prefix, says, nothing, other}
use outboard.Tokio.Server.Close.{Close, Acked, Story}
use outboard.Tokio.Server.Story.{Reach-Story}

module _ (lib : Crates) (J E : Type 0) where
  started-Story :
      (m : Manifest lib) (fs : List (HostFrame lib)) (w : Writer J (PluginFrame lib))
      → w.sent ≡ own_hello lib J E m ∷ []
      → Story lib J E (opened lib J E fs w)
  unfolding request_id
  started-Story m fs w e = (
    own_hello lib J E m ∷ [],
    record {
      kept = record { waiting = []; all = sym e ∙ sym (append-nil w.sent); live = λ u. refl };
      told = λ i. record {
        begun = unheard;
        talk = says (other (λ h. cc)) nothing;
        held = λ h. cc;
        shown = tt;
        heard = tt;
      };
    },
    ((λ h. cc), tt),
  )

  module _ (handler : AsyncWorkerHandler lib J E) (ending : FrameError J) where
    module _ (m : Manifest lib) (fs : List (HostFrame lib)) (w : Writer J (PluginFrame lib))
        (s t : Server lib J E) (fresh : w.sent ≡ [])
        (opened_with : open_session lib J E ending m fs w ≡ ok s)
        (r : Reach lib J E handler ending s t) where
      reached : InOrder lib J E t × Story lib J E t
      reached =
          let (hello, rest, w1, e, welcome, same, sent) =
            open_session-ok lib J E ending m fs w s opened_with in
          let o : InOrder lib J E s = subst (InOrder lib J E) (sym same) (nobody lib J E 0) in
          let y : Story lib J E s =
            subst (Story lib J E) (sym same)
              (started-Story m rest w1 (sent ∙ ap (λ xs. xs ++ own_hello lib J E m ∷ []) fresh)) in
          (Reach-InOrder lib J E handler ending r o, Reach-Story lib J E handler ending r o y)

      -- In every state that a session reaches, no two tasks serve the same request, and the map of
      -- active requests has the token of each task under the task's request.
      pub tasks-Apart : Apart lib J E t.tasks × All (Owns lib J E t.pending) t.tasks
      tasks-Apart = (reached.0.apart, reached.0.own)

      -- At every time, the frames written speak of each request in order: `started` first and only
      -- while the request is not active, progress and output never before it, the last frame only
      -- while the request is active, which it ends, and else only errors. What comes behind the last
      -- frame, until the id is started again, are thus progress and outputs of clones of a context,
      -- and errors.
      pub sent-Talk : (i : RequestId) → (b : Stand) × Talk lib J i unheard t.outbox.writer.sent b
      sent-Talk i =
          let (hs, c, close) = reached.1 in
          Talk-prefix lib J i t.outbox.writer.sent c.kept.waiting
            (subst (λ xs. Talk lib J i unheard xs (c.told i).begun) c.kept.all (c.told i).talk)

      -- When a session has ended without an error, no task is left and no clone of a context, the
      -- frames written have exactly one acknowledgement of the shutdown, only progress and outputs
      -- stand behind it, and every request whose entry is gone from the map has had its last frame if
      -- it was started.
      pub ended-Acked :
          t.phase ≡ ended (ok tt)
          → (t.tasks ≡ [])
            × (t.clones ≡ [])
            × Acked lib J E t.outbox.writer.sent
            × ((i : RequestId)
                → entry_of i t.pending ≡ none
                → (b : Stand) × Talk lib J i unheard t.outbox.writer.sent b × (b ≢ active))
      ended-Acked p =
          let (hs, c, close) = reached.1 in
          let (acked, none_left, unused, all, live, drained) =
            subst (λ q. Close lib J E q hs t.tasks t.clones t.outbox) p close in
          (
            none_left,
            unused,
            subst (Acked lib J E) all acked,
            λ i gone. (
              (c.told i).begun,
              subst (λ xs. Talk lib J i unheard xs (c.told i).begun) all (c.told i).talk,
              λ y. (c.told i).held y gone,
            ),
          )
