-- ===== src/Tokio/Server/Opening.antt =====
-- The handshake of the asynchronous worker.
use outboard.Prelude.{
  ◌≡◌, ◌↔◌, refl, true, List, [], ◌∷◌, ◌++◌, ok, All, Result-cases, Option-cases, inl, inr, arith,
}
use outboard.Crates.{Crates}
use outboard.Manifest.{Manifest, InterfaceRequirement}
use outboard.Manifest.Compatibility
use outboard.Protocol.{HostHello, HostFrame, PluginFrame}
use outboard.Protocol.Framing.{FrameError}
use outboard.Worker.{Writer, send}
use outboard.Worker.Server.Laws.{Offered, send-ok}
use outboard.Tokio.Server.{Server, check_requested, admit_hello, open_session, opened, own_hello}

module _ (lib : Crates) (J E : Type 0) where
  open lib use {matches}

  check_requested_iff :
      (m : Manifest lib) (rs : List (InterfaceRequirement lib))
      → (check_requested lib J E m rs ≡ ok tt) ↔ All (Offered lib J m) rs
  unfolding check_requested
  check_requested_iff m [] = (λ _. tt, λ _. refl)
  check_requested_iff m (r ∷ rs) = elim (Option-cases (Compatibility.interface lib m r.id)) [
    | inl e ↦ (λ h. ground arith, λ h. ground arith)
    | inr (i, e) ↦ (
      λ h. ((i, e, ground arith), (check_requested_iff m rs).0 (ground arith)),
      λ h. let rest = (check_requested_iff m rs).1 h.1 in ground arith,
    )
  ]

  -- What a worker demands of the hello of its host.
  abbrev pub Welcome : Manifest lib → HostHello lib → Type 0
  Welcome m hello =
      (matches m.framework hello.framework ≡ true)
      × (matches m.worker_protocol hello.protocol ≡ true)
      × All (Offered lib J m) hello.requested_interfaces

  admit_hello_iff :
      (m : Manifest lib) (hello : HostHello lib)
      → (admit_hello lib J E m hello ≡ ok tt) ↔ Welcome m hello
  unfolding admit_hello
  admit_hello_iff m hello = (
    λ h. (
      ground arith,
      ground arith,
      (check_requested_iff m hello.requested_interfaces).0 (ground arith),
    ),
    λ h. let rest = (check_requested_iff m hello.requested_interfaces).1 h.2 in ground arith,
  )

  -- A session opens only on a hello that meets the manifest's demands. Its first frame is then the
  -- worker's own hello, no request is active and no task runs.
  pub open_session-ok :
      (ending : FrameError J) (m : Manifest lib) (fs : List (HostFrame lib))
      (w : Writer J (PluginFrame lib)) (s : Server lib J E)
      → open_session lib J E ending m fs w ≡ ok s
      → (hello : HostHello lib) × (rest : List (HostFrame lib)) × (w1 : Writer J (PluginFrame lib))
        × (fs ≡ HostFrame.hello hello ∷ rest)
        × Welcome m hello
        × (s ≡ opened lib J E rest w1)
        × (w1.sent ≡ w.sent ++ own_hello lib J E m ∷ [])
  unfolding open_session
  open_session-ok ending m [] w s e = cc
  open_session-ok ending m (HostFrame.hello hello ∷ fs) w s e =
      elim (Result-cases (admit_hello lib J E m hello)) [
        | inl (u, admitted) ↦ elim (Result-cases (send (own_hello lib J E m) w).0) [
          | inl (v, sent) ↦ (
            hello,
            fs,
            (send (own_hello lib J E m) w).1,
            refl,
            (admit_hello_iff m hello).0 admitted,
            ground arith,
            send-ok lib J w (send (own_hello lib J E m) w).1 (own_hello lib J E m) (ground arith),
          )
          | inr (x, failed) ↦ ground arith
        ]
        | inr (x, refused) ↦ ground arith
      ]
  open_session-ok ending m (HostFrame.invoke _ ∷ fs) w s e = cc
  open_session-ok ending m (HostFrame.cancel _ ∷ fs) w s e = cc
  open_session-ok ending m (HostFrame.ping _ ∷ fs) w s e = cc
  open_session-ok ending m (HostFrame.shutdown ∷ fs) w s e = cc
