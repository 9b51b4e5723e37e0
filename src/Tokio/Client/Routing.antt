-- ===== src/Tokio/Client/Routing.antt =====
-- Which frames reach the channel of an invocation of the asynchronous client.

use outboard.Prelude.{
  ℕ, ◌+◌, ◌<◌, ◌≡◌, ◌≢◌, refl, sym, ◌∙◌, subst, Bool, true, false, ◌==◌, nat_eq, option_eq, List,
  [], ◌∷◌, Option, none, some, Result, ok, err, if◌then◌else◌, arith, Bool-cases, Option-cases, inl,
  inr,
}
use outboard.Crates.{Crates}
use outboard.Protocol.{RequestId, HostFrame, PluginFrame, request_id, invoke}
use outboard.Protocol.Framing.{FrameError}
use outboard.Worker.{Written, send}
use outboard.Tokio.{RequestMap, entry_of, without}
use outboard.Tokio.Server.Tables.{entry_of-without_same, entry_of-without_other}
use outboard.Tokio.Client.{
  Client, is_terminal, route, taken_in, read_frame, request, invoked, invoke_async, write_control,
  Act, invokes, writes, reads, drops, act, acts,
}

module _ (lib : Crates) (J : Type 0) where
  abbrev pub goes_to : RequestId → Option RequestId → Bool
  goes_to id none = false
  goes_to id (some i) = i == id

  -- The frames of a request among others, up to the first one that ends it.
  abbrev pub for_request : RequestId → List (PluginFrame lib) → List (PluginFrame lib)
  for_request id [] = []
  for_request id (f ∷ fs) =
      let rest = for_request id fs in
      if goes_to id (request_id lib f)
      then (if is_terminal lib J f then f ∷ [] else f ∷ rest)
      else rest

  abbrev pub is_none : Option RequestId → Bool
  is_none none = true
  is_none (some i) = false

  -- The frames that the reader takes: up to an error, or to a frame without a request once the
  -- global channel has no receiver.
  abbrev pub read_among : Bool → List (Act lib J) → List (PluginFrame lib)
  read_among open_now [] = []
  read_among open_now (reads (err e) ∷ as_rest) = []
  read_among true (reads (ok f) ∷ as_rest) = f ∷ read_among true as_rest
  read_among false (reads (ok f) ∷ as_rest) =
      let rest = read_among false as_rest in if is_none (request_id lib f) then [] else f ∷ rest
  read_among open_now (drops ∷ as_rest) = read_among false as_rest
  read_among open_now (invokes i c a ∷ as_rest) = read_among open_now as_rest
  read_among open_now (writes f ∷ as_rest) = read_among open_now as_rest

  -- How many invocations there are among some acts.
  abbrev pub calls : List (Act lib J) → ℕ
  calls [] = 0
  calls (invokes i c a ∷ as_rest) = 1 + calls as_rest
  calls (_ ∷ as_rest) = calls as_rest

  -- No two requests share a channel, and the channels so far have smaller numbers than the next.
  pub record Routed (pending : RequestMap) (next : ℕ) : Type 0 where
    pub made : (i c : ℕ) → entry_of i pending ≡ some c → c < next
    pub single : (i j c : ℕ) → entry_of i pending ≡ some c → entry_of j pending ≡ some c → i ≡ j

  pub entry_before :
      (pending : RequestMap) (id i c : ℕ)
      → entry_of i (without id pending) ≡ some c
      → entry_of i pending ≡ some c
  entry_before pending id i c e =
      ground (arith, entry_of-without_same id pending, entry_of-without_other i id pending)

  pub Routed-without :
      {pending : RequestMap} {next : ℕ} (id : RequestId)
      → Routed pending next
      → Routed (without id pending) next
  Routed-without {pending} id r = record {
    made = λ i c e. r.made i c (entry_before pending id i c e);
    single = λ i j c e e2.
        r.single i j c (entry_before pending id i c e) (entry_before pending id j c e2);
  }

  pub Routed-with :
      {pending : RequestMap} {next : ℕ} (id : RequestId)
      → Routed pending next
      → Routed ((id, next) ∷ without id pending) (next + 1)
  Routed-with {pending} {next} id r = record {
    made = λ i c e. ground (arith, r.made i c, entry_before pending id i c);
    single = λ i j c e e2. ground (
      arith,
      r.made i c,
      r.made j c,
      r.single i j c,
      entry_before pending id i c,
      entry_before pending id j c,
    );
  }

  abbrev pub IsRouted : Client lib J → Type 0
  IsRouted s = Routed s.pending s.next_channel

  -- The channel has no sender, and will not get one.
  abbrev pub IsIdle : ℕ → Client lib J → Type 0
  IsIdle c s = ((i : RequestId) → entry_of i s.pending ≢ some c) × (c < s.next_channel)

  -- An act that leaves a channel alone.
  abbrev Leaves : ℕ → Client lib J → Client lib J → Type 0
  Leaves c s t = IsIdle c t × (t.channels c ≡ s.channels c)

  idle_route :
      (c : ℕ) (f : PluginFrame lib) (s : Client lib J) (to : Option RequestId)
      → IsIdle c s
      → Leaves c s (route lib J to f s)
  idle_route c f s none (away, made) = elim (Bool-cases s.global_open) [
    | inl o ↦ ground (arith, away)
    | inr o ↦ ground (arith, away)
  ]
  idle_route c f s (some id) (away, made) = (
    (
      (λ i e. elim (Bool-cases (is_terminal lib J f)) [
        | inl t ↦ ground (arith, away i, entry_before s.pending id i c)
        | inr t ↦ ground (arith, away i)
      ]),
      made,
    ),
    elim (Option-cases (entry_of id s.pending)) [
      | inl absent ↦ ground arith
      | inr (d, found) ↦ ground (arith, away id)
    ],
  )

  idle_invoked :
      (c : ℕ) (s : Client lib J) (r : Written J (HostFrame lib))
      → IsIdle c s
      → Leaves c s (invoked lib J s r).1
  idle_invoked c s (ok u, w) (away, made) = (
    ((λ i e. ground (arith, away i, entry_before s.pending s.next_id i c)), omega arith),
    ground arith,
  )
  idle_invoked c s (err e, w) (away, made) = (
    (
      (λ i x. ground (
        arith,
        away i,
        entry_before s.pending s.next_id i c,
        entry_before (without s.next_id s.pending) s.next_id i c,
      )),
      omega arith,
    ),
    ground arith,
  )

  idle_taken :
      (c : ℕ) (s : Client lib J) (r : Result (PluginFrame lib) (FrameError J))
      → IsIdle c s
      → Leaves c s (taken_in lib J r s)
  idle_taken c s (ok f) idle = idle_route c f s (request_id lib f) idle
  idle_taken c s (err e) (away, made) = (((λ i x. cc), made), refl)

  act-Leaves : (c : ℕ) (a : Act lib J) (s : Client lib J) → IsIdle c s → Leaves c s (act lib J a s)
  unfolding act read_frame invoke_async write_control
  act-Leaves c (invokes i command args) s idle =
      idle_invoked c s (send (invoke (request lib J s.next_id i command args)) s.writer) idle
  act-Leaves c (writes f) s idle = (idle, refl)
  act-Leaves c (reads r) s idle = elim (Bool-cases s.reading) [
    | inl on ↦
        subst (λ b. Leaves c s (if b then taken_in lib J r s else s)) (sym on)
          (idle_taken c s r idle)
    | inr off ↦ subst (λ b. Leaves c s (if b then taken_in lib J r s else s)) (sym off) (idle, refl)
  ]
  act-Leaves c drops s idle = (idle, refl)

  pub idle_acts :
      (c : ℕ) (as_rest : List (Act lib J)) (s : Client lib J)
      → IsIdle c s
      → (acts lib J as_rest s).channels c ≡ s.channels c
  unfolding acts
  idle_acts c [] s idle = refl
  idle_acts c (a ∷ as_rest) s idle =
      let (still, same) = act-Leaves c a s idle in idle_acts c as_rest (act lib J a s) still ∙ same
