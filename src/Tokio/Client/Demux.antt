-- ===== src/Tokio/Client/Demux.antt =====
-- The reader of the asynchronous client gives each invocation the frames of its request.
use mathlib.Core.List.{append-nil, append_assoc}
use outboard.Prelude.{
  ℕ, ◌+◌, ◌^◌, ◌<◌, ◌≡◌, refl, sym, ap, ◌∙◌, subst, Bool, true, false, ◌==◌, nat_eq, List, [], ◌∷◌,
  ◌++◌, Option, none, some, Result, ok, err, if◌then◌else◌, arith, Bool-cases, Option-cases, ◌⊎◌,
  inl, inr, nat_beq_iff,
}
use outboard.Crates.{Crates}
use outboard.Protocol.{RequestId, HostFrame, PluginFrame, request_id, invoke}
use outboard.Protocol.Framing.{FrameError}
use outboard.Worker.{Written, send}
use outboard.Tokio.{entry_of, without}
use outboard.Tokio.Server.Tables.{entry_of-without_same, entry_of-without_other}
use outboard.Tokio.Client.{
  Client, is_terminal, stopped, route, taken_in, read_frame, request, invoked, invoke_async,
  write_control, Act, invokes, writes, reads, drops, act, acts,
}
use outboard.Tokio.Client.Routing.{
  for_request, read_among, calls, Routed, Routed-without, Routed-with, IsRouted, IsIdle, idle_acts,
  entry_before,
}

module _ (lib : Crates) (J : Type 0) (id : RequestId) (c : ℕ) where
  -- An invocation that waits for frames, with the reader still on or not.
  pub record Active (on_now : Bool) (s : Client lib J) : Type 0 where
    pub entry : entry_of id s.pending ≡ some c
    pub on : s.reading ≡ on_now
    pub older : id < s.next_id
    pub routed : IsRouted lib J s

  IsIdle-stopped : (s : Client lib J) → Active true s → IsIdle lib J c (stopped lib J s)
  IsIdle-stopped s a = ((λ i e. cc), a.routed.made id c a.entry)

  -- An invocation of another request
  pub Active-invoked :
      (on_now : Bool) (s : Client lib J) (r : Written J (HostFrame lib))
      → Active on_now s
      → s.next_id + 1 < 2 ^ 64
      → Active on_now (invoked lib J s r).1
        × ((invoked lib J s r).1.channels c ≡ s.channels c)
        × ((invoked lib J s r).1.next_id ≡ s.next_id + 1)
        × ((invoked lib J s r).1.global_open ≡ s.global_open)
  Active-invoked on_now s (ok u, w) a room = (
    record {
      entry = ground (arith, a.older, entry_of-without_other id s.next_id s.pending, a.entry);
      on = a.on;
      older = ground (arith, a.older);
      routed = Routed-with lib J s.next_id a.routed;
    },
    ground (arith, a.routed.made id c a.entry),
    ground arith,
    refl,
  )
  Active-invoked on_now s (err e, w) a room = (
    record {
      entry = ground (
        arith,
        a.older,
        entry_of-without_other id s.next_id s.pending,
        entry_of-without_other id s.next_id (without s.next_id s.pending),
        a.entry,
      );
      on = a.on;
      older = ground (arith, a.older);
      routed = Routed-without lib J s.next_id (Routed-with lib J s.next_id a.routed);
    },
    ground (arith, a.routed.made id c a.entry),
    ground arith,
    refl,
  )

  -- What the acts put into the channel.
  abbrev Gets : Client lib J → Client lib J → List (PluginFrame lib) → Type 0
  Gets s t fs = t.channels c ≡ s.channels c ++ fs

  -- A frame of some request: of another one, of this one, or the last of this one.
  abbrev Passes : Client lib J → Client lib J → Bool → Type 0
  Passes s t mine = (mine ≡ false) × Active true t × Gets s t []

  abbrev Stays : Client lib J → Client lib J → Bool → PluginFrame lib → Type 0
  Stays s t mine f =
      (mine ≡ true) × (is_terminal lib J f ≡ false) × Active true t × Gets s t (f ∷ [])

  abbrev Ends : Client lib J → Client lib J → Bool → PluginFrame lib → Type 0
  Ends s t mine f =
      (mine ≡ true) × (is_terminal lib J f ≡ true) × IsIdle lib J c t × Gets s t (f ∷ [])

  routed_to :
      (s : Client lib J) (i : RequestId) (f : PluginFrame lib)
      → Active true s
      → Passes s (route lib J (some i) f s) (i == id)
        ⊎ (Stays s (route lib J (some i) f s) (i == id) f
            ⊎ Ends s (route lib J (some i) f s) (i == id) f)
  routed_to s i f a = elim (Bool-cases (i == id)) [
    | inr other ↦ inl (
      other,
      record {
        entry = elim (Bool-cases (is_terminal lib J f)) [
          | inl t ↦ ground (arith, entry_of-without_other id i s.pending, a.entry)
          | inr t ↦ ground (arith, a.entry)
        ];
        on = a.on;
        older = a.older;
        routed = elim (Bool-cases (is_terminal lib J f)) [
          | inl t ↦
              subst
                (λ b. Routed lib J (if b then without i s.pending else s.pending) s.next_channel)
                (sym t) (Routed-without lib J i a.routed)
          | inr t ↦
              subst
                (λ b. Routed lib J (if b then without i s.pending else s.pending) s.next_channel)
                (sym t) a.routed
        ];
      },
      elim (Option-cases (entry_of i s.pending)) [
        | inl absent ↦ ground (arith, append-nil (s.channels c))
        | inr (d, found) ↦
            ground (arith, append-nil (s.channels c), a.routed.single i id c, a.entry)
      ],
    )
    | inl same ↦
        let at : i ≡ id = (nat_beq_iff i id).0 same in
        let found : entry_of i s.pending ≡ some c = ap (λ k. entry_of k s.pending) at ∙ a.entry in
        elim (Bool-cases (is_terminal lib J f)) [
          | inl t ↦ inr (
              inr (
                same,
                t,
                (
                  (λ k e. ground (
                    arith,
                    a.routed.single k id c,
                    a.entry,
                    entry_before lib J s.pending i k c,
                    entry_of-without_same i s.pending,
                  )),
                  a.routed.made id c a.entry,
                ),
                ground arith,
              ))
          | inr t ↦ inr (
              inl (
                same,
                t,
                record {
                  entry = ground (arith, a.entry);
                  on = a.on;
                  older = a.older;
                  routed =
                      subst
                        (λ b.
                          Routed lib J (if b then without i s.pending else s.pending)
                            s.next_channel)
                        (sym t) a.routed;
                },
                ground arith,
              ))
        ]
  ]

  -- What the rest of the acts gives the channel, from any state in which the request is active.
  abbrev Later : List (Act lib J) → Type 0
  Later as_rest =
      (s : Client lib J)
      → Active true s
      → s.next_id + calls lib J as_rest < 2 ^ 64
      → Gets s (acts lib J as_rest s)
          (for_request lib J id (read_among lib J s.global_open as_rest))

  module _ (as_rest : List (Act lib J)) (later : Later as_rest) (s : Client lib J)
      (a : Active true s) (room : s.next_id + calls lib J as_rest < 2 ^ 64) where
    rest_of : Bool → List (PluginFrame lib)
    rest_of b = read_among lib J b as_rest

    stops : (acts lib J as_rest (stopped lib J s)).channels c ≡ s.channels c
    stops = idle_acts lib J c as_rest (stopped lib J s) (IsIdle-stopped s a)

    with_request :
        (b : Bool) (f : PluginFrame lib) (i : RequestId)
        → request_id lib f ≡ some i
        → for_request lib J id (read_among lib J b (reads (ok f) ∷ as_rest)) ≡ (
            if i == id
            then (if is_terminal lib J f
                then f ∷ []
                else f ∷ for_request lib J id (read_among lib J b as_rest))
            else for_request lib J id (read_among lib J b as_rest))
    with_request true f i e = ground arith
    with_request false f i e = ground arith

    joined :
        (now : List (PluginFrame lib)) (s1 : Client lib J) (after all : List (PluginFrame lib))
        → Gets s1 (acts lib J as_rest s1) after
        → Gets s s1 now
        → now ++ after ≡ all
        → Gets s (acts lib J as_rest s1) all
    joined now s1 after all g got e =
        g
        ∙ ap (λ xs. xs ++ after) got
        ∙ append_assoc (s.channels c) now after
        ∙ ap (λ xs. s.channels c ++ xs) e

    takes :
        (b : Bool) (f : PluginFrame lib) (to : Option RequestId)
        → s.global_open ≡ b
        → request_id lib f ≡ to
        → Gets s
            (acts lib J as_rest (route lib J to f s))
            (for_request lib J id (read_among lib J b (reads (ok f) ∷ as_rest)))
    takes true f none o e =
        ap
          (λ q.
            (acts lib J as_rest
                (if q then record s { global = s.global ++ f ∷ [] } else stopped lib J s)).channels
              c)
          o
        ∙ later (record s { global = s.global ++ f ∷ [] })
            (record { entry = a.entry; on = a.on; older = a.older; routed = a.routed }) room
        ∙ ap (λ xs. s.channels c ++ xs) (ground arith)
    takes false f none o e =
        ap
          (λ q.
            (acts lib J as_rest
                (if q then record s { global = s.global ++ f ∷ [] } else stopped lib J s)).channels
              c)
          o
        ∙ stops
        ∙ sym (append-nil (s.channels c))
        ∙ ap (λ xs. s.channels c ++ xs) (ground arith)
    takes b f (some i) o e =
        let named = with_request b f i e in
        let s1 = route lib J (some i) f s in
        elim (routed_to s i f a) [
          | inl (other, a1, got) ↦ joined [] s1 _ _ (later s1 a1 room) got (ground arith)
          | inr (inl (mine, on, a1, got)) ↦
              joined (f ∷ []) s1 _ _ (later s1 a1 room) got (ground arith)
          | inr (inr (mine, over, idle, got)) ↦
              idle_acts lib J c as_rest s1 idle ∙ got ∙ ap (λ xs. s.channels c ++ xs) (ground arith)
        ]

    after_read :
        (r : Result (PluginFrame lib) (FrameError J))
        → Gets s
            (acts lib J as_rest (taken_in lib J r s))
            (for_request lib J id (read_among lib J s.global_open (reads r ∷ as_rest)))
    after_read (err e) = stops ∙ sym (append-nil (s.channels c))
    after_read (ok f) = takes s.global_open f (request_id lib f) refl refl

  -- While a request is active, its channel gets just its frames among those that the reader takes,
  -- up to the first one that ends the request.
  pub acts-for_request :
      (as_rest : List (Act lib J)) (s : Client lib J)
      → Active true s
      → s.next_id + calls lib J as_rest < 2 ^ 64
      → Gets s
          (acts lib J as_rest s)
          (for_request lib J id (read_among lib J s.global_open as_rest))
  unfolding acts act read_frame invoke_async write_control
  acts-for_request [] s a room = sym (append-nil (s.channels c))
  acts-for_request (invokes i command args ∷ as_rest) s a room =
      let sent = send (invoke (request lib J s.next_id i command args)) s.writer in
      let (a1, same, next, kept_open) = Active-invoked true s sent a (omega arith) in
      acts-for_request as_rest (invoked lib J s sent).1 a1 (ground arith)
      ∙ ap
          (λ xs.
            xs
            ++ for_request lib J id (read_among lib J (invoked lib J s sent).1.global_open as_rest))
          same
      ∙ ap (λ b. s.channels c ++ for_request lib J id (read_among lib J b as_rest)) kept_open
  acts-for_request (writes f ∷ as_rest) s a room =
      acts-for_request as_rest _
        (record { entry = a.entry; on = a.on; older = a.older; routed = a.routed }) room
  acts-for_request (drops ∷ as_rest) s a room =
      acts-for_request as_rest _
        (record { entry = a.entry; on = a.on; older = a.older; routed = a.routed }) room
  acts-for_request (reads r ∷ as_rest) s a room =
      ap (λ b. (acts lib J as_rest (if b then taken_in lib J r s else s)).channels c) a.on
      ∙ after_read as_rest (λ s1 a1 room1. acts-for_request as_rest s1 a1 room1) s a room r
