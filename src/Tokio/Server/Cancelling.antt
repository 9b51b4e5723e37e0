-- ===== src/Tokio/Server/Cancelling.antt =====
-- Which tasks of an asynchronous worker a cancellation and a shutdown reach.
use outboard.Prelude.{
  ◌≡◌, Bool, true, ◌||◌, List, [], ◌∷◌, ◌++◌, map, some, ok, All, ◌==◌, nat_eq, arith, inl, inr,
  Option-cases, subst, sym,
}
use outboard.Crates.{Crates}
use outboard.Manifest.{Manifest}
use outboard.Protocol.{RequestId, HostFrame, PluginFrame, cancel, shutdown}
use outboard.Protocol.Framing.{FrameError}
use outboard.Worker.{Writer}
use outboard.Tokio.{RequestMap, entry_of}
use outboard.Tokio.Server.{
  CancellationToken, AsyncWorkerHandler, Job, Server, is_cancelled, handle, Reach, open_session,
  cancel_token,
}
use outboard.Tokio.Server.Ownership.{Owns, Owned, InOrder, nobody, Reach-InOrder}
use outboard.Tokio.Server.Opening.{open_session-ok}

module _ (lib : Crates) (J E : Type 0) where
  cancelled-one :
      {pending : RequestMap} {all : List (Job lib J E)} {next : CancellationToken} (id : RequestId)
      (ts : List CancellationToken) (js : List (Job lib J E))
      → Owned lib J E pending all next
      → All (Owns lib J E pending) js
      → All
          (λ j.
            is_cancelled lib J E j.token (cancel_token lib J E (entry_of id pending) ts)
            ≡ (j.id == id || is_cancelled lib J E j.token ts))
          js
  cancelled-one id ts [] o _ = tt
  cancelled-one {pending} id ts (j ∷ js) o (own, rest) = (
    elim (Option-cases (entry_of id pending)) [
      | inl absent ↦ ground arith
      | inr (t, found) ↦ ground (arith, o.single j.id id j.token)
    ],
    cancelled-one id ts js o rest,
  )

  pub cancelled-All :
      (pending : RequestMap) (ts : List CancellationToken) (js : List (Job lib J E))
      → All (Owns lib J E pending) js
      → All (λ j. is_cancelled lib J E j.token (map (λ p. p.1) pending ++ ts) ≡ true) js
  cancelled-All pending ts [] _ = tt
  cancelled-All pending ts (j ∷ js) (own, rest) =
      (here pending own, cancelled-All pending ts js rest)
    where
      here :
          (p : RequestMap)
          → entry_of j.id p ≡ some j.token
          → is_cancelled lib J E j.token (map (λ q. q.1) p ++ ts) ≡ true
      here [] e = cc
      here (q ∷ p) e = ground (arith, here p)

  module _ (handler : AsyncWorkerHandler lib J E) (ending : FrameError J) where
    abbrev pub then_cancelled : HostFrame lib → Server lib J E → Job lib J E → Bool
    then_cancelled f s j =
        is_cancelled lib J E j.token (handle lib J E handler ending f s).cancelled

    -- In every state that a session reaches, a cancellation cancels the task of its request and no
    -- other, and a shutdown cancels every task.
    pub cancel-reaches :
        (m : Manifest lib) (fs : List (HostFrame lib)) (w : Writer J (PluginFrame lib))
        (s t : Server lib J E)
        → open_session lib J E ending m fs w ≡ ok s
        → Reach lib J E handler ending s t
        → (id : RequestId)
        → All
            (λ j.
              then_cancelled (cancel id) t j
              ≡ (j.id == id || is_cancelled lib J E j.token t.cancelled))
            t.tasks
          × All (λ j. then_cancelled shutdown t j ≡ true) t.tasks
    unfolding handle
    cancel-reaches m fs w s t opened_with r id =
        let (hello, rest, w1, e, welcome, same, sent) =
          open_session-ok lib J E ending m fs w s opened_with in
        let o =
          Reach-InOrder lib J E handler ending r
            (subst (InOrder lib J E) (sym same) (nobody lib J E 0)) in
        (
          cancelled-one id t.cancelled t.tasks o o.own,
          cancelled-All t.pending t.cancelled t.tasks o.own,
        )
