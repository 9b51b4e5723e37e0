-- ===== src/Tokio/Server/Running.antt =====
-- A list of turns of the asynchronous worker, taken one after the other, is a run of its steps.
use outboard.Prelude.{
  ◌≡◌, refl, List, [], ◌∷◌, Option, none, some, Option-cases, inl, inr, arith, subst,
}
use outboard.Crates.{Crates}
use outboard.Protocol.Framing.{FrameError}
use outboard.Tokio.Server.{AsyncWorkerHandler, Server, Turn, step, run_turns, Reach, start, more}

module _ (lib : Crates) (J E : Type 0) (handler : AsyncWorkerHandler lib J E)
    (ending : FrameError J) where
  run_from :
      (s t u : Server lib J E) (turns : List (Turn lib J E handler ending))
      → Reach lib J E handler ending s t
      → run_turns lib J E handler ending t turns ≡ some u
      → Reach lib J E handler ending s u
  unfolding run_turns
  run_from s t u [] r e = subst (Reach lib J E handler ending s) (cc (e)) r
  run_from s t u (turn ∷ turns) r e = elim (Option-cases (step lib J E handler ending t turn)) [
    | inl none_left ↦ ground arith
    | inr (v, found) ↦ run_from s v u turns (more r turn found) (ground arith)
  ]

  pub run_turns-Reach :
      (s u : Server lib J E) (turns : List (Turn lib J E handler ending))
      → run_turns lib J E handler ending s turns ≡ some u
      → Reach lib J E handler ending s u
  run_turns-Reach s u turns e = run_from s s u turns start e

  -- The state that turns lead to, or the first one where a turn cannot be taken.
  abbrev pub state_after : Server lib J E → List (Turn lib J E handler ending) → Server lib J E
  state_after s turns = elim (run_turns lib J E handler ending s turns) [ none ↦ s | some u ↦ u ]

  pub state_after-Reach :
      (s : Server lib J E) (turns : List (Turn lib J E handler ending))
      → Reach lib J E handler ending s (state_after s turns)
  state_after-Reach s turns = go (run_turns lib J E handler ending s turns) refl
    where
      go :
          (o : Option (Server lib J E))
          → run_turns lib J E handler ending s turns ≡ o
          → Reach lib J E handler ending s (elim o [ none ↦ s | some u ↦ u ])
      go none e = start
      go (some u) e = run_turns-Reach s u turns e
