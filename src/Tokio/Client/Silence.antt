-- ===== src/Tokio/Client/Silence.antt =====
-- What an invocation of the asynchronous client gets once the task of its reader has ended.
use outboard.Prelude.{
  ℕ, ◌+◌, ◌^◌, ◌<◌, Text, ◌≡◌, refl, sym, ap, ◌∙◌, subst, true, false, nat_eq, List, [], ◌∷◌, some,
  ok, if◌then◌else◌, arith,
}
use outboard.Crates.{Crates}
use outboard.Id.{InterfaceId}
use outboard.Protocol.{RequestId, HostFrame, invoke}
use outboard.Worker.{Writer, send}
use outboard.Tokio.{RequestMap, entry_of}
use outboard.Tokio.Client.{
  Client, Invocation, request, invoked, taken_in, read_frame, invoke_async, write_control, Act,
  invokes, writes, reads, drops, act, acts, connected, pending_with, has_sender, finish,
  poll_finish,
}
use outboard.Tokio.Client.Routing.{calls, IsRouted}
use outboard.Tokio.Client.Demux.{Active, Active-invoked}
use outboard.Tokio.Client.Invoking.{acts-IsRouted, connected-IsRouted, invoke_async-ok}

has_sender-entry :
    (lib : Crates) (J : Type 0) (id : RequestId) (c : ℕ) (p : RequestMap)
    → entry_of id p ≡ some c
    → has_sender lib J c p ≡ true
has_sender-entry lib J id c [] e = cc
has_sender-entry lib J id c (q ∷ p) e = ground (arith, has_sender-entry lib J id c p)

module _ (lib : Crates) (J : Type 0) (id : RequestId) (c : ℕ) where
  -- The invocation still has its entry and nothing new in its channel.
  abbrev Unheard : Client lib J → Client lib J → Type 0
  Unheard s t = Active lib J id c false t × (t.channels c ≡ s.channels c)

  acts-Unheard :
      (as_all : List (Act lib J)) (s : Client lib J)
      → Active lib J id c false s
      → s.next_id + calls lib J as_all < 2 ^ 64
      → Unheard s (acts lib J as_all s)
  unfolding acts act read_frame invoke_async write_control
  acts-Unheard [] s a room = (a, refl)
  acts-Unheard (invokes interface command args ∷ as_rest) s a room =
      let sent = send (invoke (request lib J s.next_id interface command args)) s.writer in
      let (a1, same, next, kept_open) = Active-invoked lib J id c false s sent a (omega arith) in
      let (a2, later) = acts-Unheard as_rest (invoked lib J s sent).1 a1 (ground arith) in
      (a2, later ∙ same)
  acts-Unheard (writes f ∷ as_rest) s a room =
      acts-Unheard as_rest _
        (record { entry = a.entry; on = a.on; older = a.older; routed = a.routed }) room
  acts-Unheard (drops ∷ as_rest) s a room =
      acts-Unheard as_rest _
        (record { entry = a.entry; on = a.on; older = a.older; routed = a.routed }) room
  acts-Unheard (reads r ∷ as_rest) s a room =
      subst (λ b. Unheard s (acts lib J as_rest (if b then taken_in lib J r s else s))) (sym a.on)
        (acts-Unheard as_rest s a room)

module _ (lib : Crates) (J : Type 0) where
  -- An invocation that is written to the worker after the reader's task has ended is never done:
  -- whatever further acts there are, as long as fewer than 2^64 ids are used, `finish` goes on
  -- waiting, with no frame and no error.
  pub finish-waits :
      (w : Writer J (HostFrame lib)) (before after : List (Act lib J)) (interface : InterfaceId)
      (command : Text) (args : List Text) (s t : Client lib J) (i : Invocation lib J)
      → acts lib J before (connected lib J w) ≡ s
      → s.reading ≡ false
      → s.next_id + 1 + calls lib J after < 2 ^ 64
      → invoke_async lib J interface command args s ≡ (ok i, t)
      → finish lib J i (acts lib J after t) ≡ pending_with []
  unfolding finish poll_finish
  finish-waits w before after interface command args s t i from off room h =
      let r : IsRouted lib J s =
        subst (IsRouted lib J) from (acts-IsRouted lib J before _ (connected-IsRouted lib J w)) in
      let (shape, active, empty, next, kept_open) =
        invoke_async-ok lib J interface command args s t i r (omega arith) h in
      let (still, same) =
        acts-Unheard lib J s.next_id s.next_channel after t
          (subst (λ b. Active lib J s.next_id s.next_channel b t) off active)
          (subst (λ n. n + calls lib J after < 2 ^ 64) (sym next) room) in
      let sender = has_sender-entry lib J s.next_id s.next_channel _ still.entry in
      ap (λ j. finish lib J j (acts lib J after t)) shape
      ∙ ap
          (λ fs.
            poll_finish lib J s.next_id [] fs
              (has_sender lib J s.next_channel (acts lib J after t).pending))
          (same ∙ empty)
      ∙ ap (λ b. poll_finish lib J s.next_id [] [] b) sender
