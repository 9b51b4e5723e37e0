-- ===== src/Tokio/Server/Clones.antt =====
-- The clones of an InvocationContext that are outside their invocations, and the end of the
-- asynchronous worker's writer, which waits for them.
use outboard.Prelude.{◌≡◌, ◌≢◌, refl, List, [], ◌∷◌, ◌++◌, ok, All, All-append, arith}
use outboard.Crates.{Crates}
use outboard.Protocol.{RequestId}
use outboard.Protocol.Framing.{FrameError}
use outboard.Tokio.Server.{
  AsyncWorkerHandler, Server, ended, writer_done, CloneUse, clone_progress, clone_output,
  clone_again, clone_drop, clones_left,
}
use outboard.Tokio.Server.Tables.{Whenever, All-split}

module _ (lib : Crates) (J E : Type 0) where
  -- What holds at the end of a session, and where the session waits for the clones.
  pub writer_done-Whenever :
      (handler : AsyncWorkerHandler lib J E) (ending : FrameError J) (P : Server lib J E → Type 0)
      (s : Server lib J E) (is : List RequestId)
      → (is ≡ [] → P (record s { phase = ended (ok tt) }))
      → Whenever P (writer_done lib J E handler ending is s)
  writer_done-Whenever handler ending P s [] h = h refl
  writer_done-Whenever handler ending P s (i ∷ is) h = tt

  -- What all clones have is left by a use of one of them.
  pub clones_left-All :
      (P : RequestId → Type 0) (u : CloneUse lib J E) (before : List RequestId) (i : RequestId)
      (after clones : List RequestId)
      → clones ≡ before ++ i ∷ after
      → All P clones
      → P i × All P (clones_left lib J E u clones before i after)
  clones_left-All P u before i after clones e h =
      let (mine, rest) = All-split P before i after (outboard.Prelude.subst (All P) e h) in
      (mine, left u mine rest)
    where
      left :
          (u : CloneUse lib J E)
          → P i
          → All P (before ++ after)
          → All P (clones_left lib J E u clones before i after)
      left clone_drop mine rest = rest
      left clone_again mine rest = (mine, h)
      left (clone_progress f m) mine rest = h
      left (clone_output p) mine rest = h
