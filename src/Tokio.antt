-- ===== src/Tokio.antt =====
-- crates/outboard-tokio/src/lib.rs: the asynchronous worker and its client. Tasks that run at the
-- same time are the steps of a relation, taken in any order.
pub mod Framing
pub mod Server
pub mod Client
pub mod Meeting
use outboard.Prelude.{ℕ, List, [], ◌∷◌, Option, none, some, if◌then◌else◌, ◌==◌, nat_eq}
use outboard.Protocol.{RequestId}

-- The map from the active requests to their tokens, or to their channels, which have numbers.
abbrev pub RequestMap : Type 0
RequestMap = List (RequestId × ℕ)

-- HashMap::get
abbrev pub entry_of : RequestId → RequestMap → Option ℕ
entry_of id [] = none
entry_of id (p ∷ ps) = if p.0 == id then some p.1 else entry_of id ps

-- HashMap::remove
abbrev pub without : RequestId → RequestMap → RequestMap
without id [] = []
without id (p ∷ ps) = let rest = without id ps in if p.0 == id then rest else p ∷ rest
