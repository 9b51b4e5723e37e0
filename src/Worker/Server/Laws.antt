-- ===== src/Worker/Server/Laws.antt =====
-- What a worker answers to the frames of its host.
use mathlib.Core.List.{append-nil, append_assoc}
use outboard.Prelude.{
  zero, suc, ◌≡◌, ◌⊎◌, inl, inr, ◌↔◌, refl, sym, ap, ◌∙◌, true, List, [], ◌∷◌, ◌++◌, some, ok, err,
  All, arith, Option-cases,
}
use outboard.Crates.{Crates}
use outboard.Manifest.{Manifest, InterfaceManifest, InterfaceRequirement}
use outboard.Manifest.Compatibility
use outboard.Protocol.{RequestId, HostHello, PluginFrame, progress, output}
use outboard.Worker.{Written, send}
use outboard.Worker.Server.{
  check_interfaces, validate_hello, Out, Run, returned, progressed, put_out, run_handler, Served,
  after_write,
}

module _ (lib : Crates) (J : Type 0) where
  open lib use {matches}

  -- The manifest's interface of that name has an accepted version.
  abbrev pub Offered : Manifest lib → InterfaceRequirement lib → Type 0
  Offered m r =
      (i : InterfaceManifest lib) × (Compatibility.interface lib m r.id ≡ some i)
      × (matches r.version i.version ≡ true)

  check_interfaces_iff :
      (m : Manifest lib) (rs : List (InterfaceRequirement lib))
      → (check_interfaces lib J m rs ≡ ok tt) ↔ All (Offered m) rs
  unfolding check_interfaces
  check_interfaces_iff m [] = (λ _. tt, λ _. refl)
  check_interfaces_iff m (r ∷ rs) = elim (Option-cases (Compatibility.interface lib m r.id)) [
    | inl e ↦ (λ h. ground arith, λ h. ground arith)
    | inr (i, e) ↦ (
      λ h. ((i, e, ground arith), (check_interfaces_iff m rs).0 (ground arith)),
      λ h. let rest = (check_interfaces_iff m rs).1 h.1 in ground arith,
    )
  ]

  -- A worker accepts a hello exactly when its manifest accepts the framework and the protocol of
  -- the host and offers each requested interface at an accepted version.
  pub validate_hello_iff :
      (m : Manifest lib) (hello : HostHello lib)
      → (validate_hello lib J m hello ≡ ok tt) ↔ (
          (matches m.framework hello.framework ≡ true)
          × (matches m.worker_protocol hello.protocol ≡ true)
          × All (Offered m) hello.requested_interfaces)
  unfolding validate_hello
  validate_hello_iff m hello = (
    λ h. (
      ground arith,
      ground arith,
      (check_interfaces_iff m hello.requested_interfaces).0 (ground arith),
    ),
    λ h. let rest = (check_interfaces_iff m hello.requested_interfaces).1 h.2 in ground arith,
  )

  pub send-ok :
      (w w' : Out lib J) (f : PluginFrame lib) → send f w ≡ (ok tt, w') → w'.sent ≡ w.sent ++ f ∷ []
  unfolding send
  send-ok w w' f h = elim (Option-cases w.fault) [
    | inl p ↦ ground arith
    | inr ((zero, e), p) ↦ ground arith
    | inr ((suc n, e), p) ↦ ground arith
  ]

  send-sent :
      (w : Out lib J) (f : PluginFrame lib)
      → ((send f w).1.sent ≡ w.sent ++ f ∷ []) ⊎ ((send f w).1.sent ≡ w.sent)
  unfolding send
  send-sent w f = elim (Option-cases w.fault) [
    | inl p ↦ inl (ground arith)
    | inr ((zero, e), p) ↦ inr (ground arith)
    | inr ((suc n, e), p) ↦ inl (ground arith)
  ]

  -- One frame more, and then others.
  then_sent :
      (w : Out lib J) (f : PluginFrame lib) (events total : List (PluginFrame lib))
      (P : PluginFrame lib → Type 0)
      → P f
      → All P events
      → total ≡ (send f w).1.sent ++ events
      → (all : List (PluginFrame lib)) × All P all × (total ≡ w.sent ++ all)
  then_sent w f events total P p ps e = elim (send-sent w f) [
    | inl grown ↦ (
      f ∷ events,
      (p, ps),
      e ∙ ap (λ xs. xs ++ events) grown ∙ append_assoc w.sent (f ∷ []) events,
    )
    | inr same ↦ (events, ps, e ∙ ap (λ xs. xs ++ events) same)
  ]

  pub after_write-ok :
      (r : Written J (PluginFrame lib)) (next : Out lib J → Served lib J) {w' : Out lib J}
      → after_write lib J r next ≡ (ok tt, w')
      → (w1 : Out lib J) × (r ≡ (ok tt, w1)) × (next w1 ≡ (ok tt, w'))
  after_write-ok (ok u, w1) next h = (w1, refl, h)
  after_write-ok (err e, w1) next h = cc

  -- A frame of a responder for the invocation.
  abbrev pub IsEvent : RequestId → PluginFrame lib → Type 0
  IsEvent id (progress i _ _) = i ≡ id
  IsEvent id (output i _) = i ≡ id
  IsEvent id _ = ⊥

  pub run_handler-sent :
      {H : Type 0} (id : RequestId) (run : Run lib J H) (w : Out lib J)
      → (events : List (PluginFrame lib)) × All (IsEvent id) events
        × ((run_handler lib J id run w).1.sent ≡ w.sent ++ events)
  unfolding run_handler
  run_handler-sent id (returned h r) w = ([], tt, sym (append-nil w.sent))
  run_handler-sent id (progressed fraction message next) w =
      let (events, all, e) =
        run_handler-sent id (next (send (progress id fraction message) w).0)
          (send (progress id fraction message) w).1 in
      then_sent w (progress id fraction message) events _ (IsEvent id) refl all e
  run_handler-sent id (put_out payload next) w =
      let (events, all, e) =
        run_handler-sent id (next (send (output id payload) w).0) (send (output id payload) w).1 in
      then_sent w (output id payload) events _ (IsEvent id) refl all e
