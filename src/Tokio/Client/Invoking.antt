-- ===== src/Tokio/Client/Invoking.antt =====
-- An invocation of the asynchronous client, from `invoke` to `finish`, among whatever else is done
-- with the client.
use outboard.Prelude.{
  ◌+◌, ◌^◌, ◌<◌, Text, ◌≡◌, ◌↔◌, refl, sym, ap, ◌∙◌, subst, Bool, true, false, List, [], ◌∷◌, ◌++◌,
  Option, none, some, Result, ok, err, if◌then◌else◌, arith,
}
use outboard.Crates.{Crates}
use outboard.Id.{InterfaceId}
use outboard.Protocol.{RequestId, HostFrame, PluginFrame, request_id, invoke}
use outboard.Protocol.Framing.{FrameError}
use outboard.Worker.{Writer, Written, send}
use outboard.Tokio.{without}
use outboard.Tokio.Client.{
  Client, Invocation, is_terminal, stopped, route, taken_in, read_frame, request, registered,
  invoked, invoke_async, write_control, Act, invokes, writes, reads, drops, act, acts, connected,
  AsyncInvocationTranscript, done, finish, has_sender,
}
use outboard.Tokio.Client.Routing.{
  for_request, read_among, calls, Routed, Routed-without, Routed-with, IsRouted,
}
use outboard.Tokio.Client.Demux.{Active, acts-for_request}
use outboard.Tokio.Client.Finishing.{Is, SaysOk, poll_finish-ok}

module _ (lib : Crates) (J : Type 0) where
  route-IsRouted :
      (to : Option RequestId) (f : PluginFrame lib) (s : Client lib J)
      → IsRouted lib J s
      → IsRouted lib J (route lib J to f s)
  route-IsRouted none f s r = go s.global_open
    where
      go :
          (b : Bool)
          → IsRouted lib J (if b then record s { global = s.global ++ f ∷ [] } else stopped lib J s)
      go true = record { made = r.made; single = r.single }
      go false = record { made = λ i c e. cc; single = λ i j c e e2. cc }
  route-IsRouted (some id) f s r = go (is_terminal lib J f)
    where
      go : (b : Bool) → Routed lib J (if b then without id s.pending else s.pending) s.next_channel
      go true = Routed-without lib J id r
      go false = r

  act-IsRouted :
      (a : Act lib J) (s : Client lib J) → IsRouted lib J s → IsRouted lib J (act lib J a s)
  unfolding act invoke_async write_control read_frame
  act-IsRouted (invokes interface command args) s r =
      go (send (invoke (request lib J s.next_id interface command args)) s.writer)
    where
      go : (x : Written J (HostFrame lib)) → IsRouted lib J (invoked lib J s x).1
      go (ok u, w) = Routed-with lib J s.next_id r
      go (err e, w) = Routed-without lib J s.next_id (Routed-with lib J s.next_id r)
  act-IsRouted (writes f) s r = record { made = r.made; single = r.single }
  act-IsRouted drops s r = record { made = r.made; single = r.single }
  act-IsRouted (reads x) s r = go s.reading x
    where
      go :
          (b : Bool) (x : Result (PluginFrame lib) (FrameError J))
          → IsRouted lib J (if b then taken_in lib J x s else s)
      go true (ok f) = route-IsRouted (request_id lib f) f s r
      go true (err e) = record { made = λ i c e. cc; single = λ i j c e e2. cc }
      go false x = r

  pub acts-IsRouted :
      (as_all : List (Act lib J)) (s : Client lib J)
      → IsRouted lib J s
      → IsRouted lib J (acts lib J as_all s)
  unfolding acts
  acts-IsRouted [] s r = r
  acts-IsRouted (a ∷ as_rest) s r = acts-IsRouted as_rest (act lib J a s) (act-IsRouted a s r)

  pub connected-IsRouted : (w : Writer J (HostFrame lib)) → IsRouted lib J (connected lib J w)
  connected-IsRouted w = record { made = λ i c e. cc; single = λ i j c e e2. cc }

  -- An invocation that is returned has the next id, and an empty channel under that id.
  pub invoke_async-ok :
      (interface : InterfaceId) (command : Text) (args : List Text) (s t : Client lib J)
      (i : Invocation lib J)
      → IsRouted lib J s
      → s.next_id + 1 < 2 ^ 64
      → invoke_async lib J interface command args s ≡ (ok i, t)
      → (i ≡ record { id = s.next_id; channel = s.next_channel; events = [] })
        × Active lib J s.next_id s.next_channel s.reading t
        × (t.channels s.next_channel ≡ [])
        × (t.next_id ≡ s.next_id + 1)
        × (t.global_open ≡ s.global_open)
  unfolding invoke_async
  invoke_async-ok interface command args s t i r room h =
      go (send (invoke (request lib J s.next_id interface command args)) s.writer) h
    where
      go :
          (x : Written J (HostFrame lib))
          → invoked lib J s x ≡ (ok i, t)
          → (i ≡ record { id = s.next_id; channel = s.next_channel; events = [] })
            × Active lib J s.next_id s.next_channel s.reading t
            × (t.channels s.next_channel ≡ [])
            × (t.next_id ≡ s.next_id + 1)
            × (t.global_open ≡ s.global_open)
      go (err e, w) e1 = cc
      go (ok u, w) e1 =
          let now : record (registered lib J s) { writer = w } ≡ t = ap (λ p. p.1) e1 in
          (
            ground arith,
            subst (Active lib J s.next_id s.next_channel s.reading) now (record {
              entry = ground arith;
              on = refl;
              older = ground arith;
              routed = Routed-with lib J s.next_id r;
            }),
            subst (λ q. q.channels s.next_channel ≡ []) now (ground arith),
            subst (λ q. q.next_id ≡ s.next_id + 1) now (ground arith),
            subst (λ q. q.global_open ≡ s.global_open) now refl,
          )

  -- After an invocation in any state that acts on a new client lead to, whose reader still runs, and
  -- any further acts, as long as fewer than 2^64 ids are used: `finish` returns a transcript exactly
  -- when the frames of the request among those that the reader took since, up to the first that
  -- ends the request, end with its result; the transcript has the request's id, these frames as
  -- its events, in their order and without any frame of another request, and that result.
  pub finish-transcript :
      (w : Writer J (HostFrame lib)) (before after : List (Act lib J)) (interface : InterfaceId)
      (command : Text) (args : List Text) (s t : Client lib J) (i : Invocation lib J)
      (tr : AsyncInvocationTranscript lib J)
      → acts lib J before (connected lib J w) ≡ s
      → s.reading ≡ true
      → s.next_id + 1 + calls lib J after < 2 ^ 64
      → invoke_async lib J interface command args s ≡ (ok i, t)
      → (finish lib J i (acts lib J after t) ≡ done (ok tr))
        ↔ Is lib J s.next_id tr []
            (for_request lib J s.next_id (read_among lib J s.global_open after))
  unfolding finish
  finish-transcript w before after interface command args s t i tr from on room h =
      let r : IsRouted lib J s =
        subst (IsRouted lib J) from (acts-IsRouted before _ (connected-IsRouted w)) in
      let (shape, active, empty, next, kept_open) =
        invoke_async-ok interface command args s t i r (omega arith) h in
      let mine : List (PluginFrame lib) =
        for_request lib J s.next_id (read_among lib J s.global_open after) in
      let got : (acts lib J after t).channels s.next_channel ≡ mine =
        acts-for_request lib J s.next_id s.next_channel after t
          (subst (λ b. Active lib J s.next_id s.next_channel b t) on active)
          (subst (λ n. n + calls lib J after < 2 ^ 64) (sym next) room)
        ∙ ap (λ xs. xs ++ for_request lib J s.next_id (read_among lib J t.global_open after)) empty
        ∙ ap (λ b. for_request lib J s.next_id (read_among lib J b after)) kept_open in
      subst
        (λ j. (finish lib J j (acts lib J after t) ≡ done (ok tr)) ↔ Is lib J s.next_id tr [] mine)
        (sym shape)
        (subst
          (λ xs.
            SaysOk lib J s.next_id [] (has_sender lib J s.next_channel (acts lib J after t).pending)
              tr xs
            ↔ Is lib J s.next_id tr [] mine)
          (sym got)
          (poll_finish-ok lib J s.next_id [] (read_among lib J s.global_open after)
            (has_sender lib J s.next_channel (acts lib J after t).pending) tr))
