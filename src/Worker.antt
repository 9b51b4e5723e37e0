-- ===== src/Worker.antt =====
-- crates/outboard/src/worker.rs: the synchronous worker. Its frames are those of
-- outboard.Protocol; what the framed reader and writer do with a frame is in
-- outboard.Protocol.Framing.
pub mod Server
pub mod Client
use outboard.Prelude.{ℕ, zero, suc, ◌≡◌, List, [], ◌∷◌, ◌++◌, Option, none, some, Result, ok, err}
use outboard.Protocol.Framing.{FrameError}

-- A framed writer: the frames written, and after how many more of them it fails, if it does.
pub record Writer (J : Type 0) (F : Type 0) : Type 0 where
  pub sent : List F
  pub fault : Option (ℕ × FrameError J)

abbrev pub Written : Type 0 → Type 0 → Type 0
Written J F = Result (Unit {0}) (FrameError J) × Writer J F

module _ {J : Type 0} {F : Type 0} where
  abbrev appended : F → Writer J F → Writer J F
  appended f w = record w { sent = w.sent ++ f ∷ [] }

  abbrev sent_within : F → Writer J F → ℕ × FrameError J → Written J F
  sent_within f w (zero, e) = (err e, w)
  sent_within f w (suc n, e) = (ok tt, record (appended f w) { fault = some (n, e) })

  unfoldable pub send : F → Writer J F → Written J F
  send f w = elim w.fault [ none ↦ (ok tt, appended f w) | some x ↦ sent_within f w x ]
