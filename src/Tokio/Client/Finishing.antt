-- ===== src/Tokio/Client/Finishing.antt =====
-- What `Invocation::finish` of the asynchronous client returns.
use mathlib.Core.List.{append_assoc}
use outboard.Prelude.{
  ◌≡◌, ◌↔◌, refl, sym, ap, ◌∙◌, subst, Bool, true, false, ◌==◌, nat_eq, List, [], ◌∷◌, ◌++◌, none,
  some, ok, arith, Bool-cases, inl, ◌⊎◌, ==_refl, inr, nat_beq_iff,
}
use outboard.Crates.{Crates}
use outboard.Protocol.{
  RequestId, PluginFrame, InvocationResult, WorkerError, started, progress, output, finished, error,
  pong, shutdown_ack, request_id,
}
use outboard.Tokio.Client.{
  is_terminal, AsyncInvocationTranscript, done, poll_finish, verdict, event_of, result_of, error_of,
  concluded,
}
use outboard.Tokio.Client.Routing.{for_request, goes_to}

module _ (lib : Crates) (J : Type 0) (id : RequestId) where
  abbrev pub transcript :
      List (PluginFrame lib) → InvocationResult lib → AsyncInvocationTranscript lib J
  transcript events r = record { id = id; events = events; result = r }

  -- The frames are some that do not end the request, then its result.
  abbrev pub EndsWith : List (PluginFrame lib) → InvocationResult lib → Type 0
  EndsWith fs r = (xs : List (PluginFrame lib)) × (fs ≡ xs ++ finished id r ∷ [])

  EndsWith-cons :
      (f : PluginFrame lib) (fs : List (PluginFrame lib)) (r : InvocationResult lib)
      → EndsWith fs r
      → EndsWith (f ∷ fs) r
  EndsWith-cons f fs r (xs, e) = (f ∷ xs, ap (λ ys. f ∷ ys) e)

  pub EndsWith-tail :
      (f : PluginFrame lib) (fs : List (PluginFrame lib)) (r : InvocationResult lib)
      → is_terminal lib J f ≡ false
      → EndsWith (f ∷ fs) r
      → EndsWith fs r
  EndsWith-tail f fs r t ([], e) = ground arith
  EndsWith-tail f fs r t (x ∷ xs, e) = (xs, ground arith)

  pub EndsWith-nil : (r : InvocationResult lib) → ¬ EndsWith [] r
  EndsWith-nil r ([], e) = cc
  EndsWith-nil r (x ∷ xs, e) = cc

  pub only :
      (f : PluginFrame lib) (r : InvocationResult lib) → EndsWith (f ∷ []) r → f ≡ finished id r
  only f r ([], e) = cc
  only f r (x ∷ [], e) = cc
  only f r (x ∷ y ∷ xs, e) = cc

  abbrev pub Is :
      AsyncInvocationTranscript lib J → List (PluginFrame lib) → List (PluginFrame lib) → Type 0
  Is tr events fs = (tr ≡ transcript (events ++ fs) tr.result) × EndsWith fs tr.result

  -- A frame: one of another request, one that does not end this request, or one that does.
  abbrev pub Foreign : PluginFrame lib → Type 0
  Foreign f = goes_to lib J id (request_id lib f) ≡ false

  abbrev pub Midway : PluginFrame lib → Type 0
  Midway f =
      (goes_to lib J id (request_id lib f) ≡ true)
      × (is_terminal lib J f ≡ false)
      × (verdict lib J id f ≡ event_of)

  abbrev pub Final : PluginFrame lib → Type 0
  Final f =
      ((r : InvocationResult lib) × (f ≡ finished id r))
      ⊎ ((e : WorkerError lib) × (f ≡ error (some id) e))

  kind : (f : PluginFrame lib) → Foreign f ⊎ (Midway f ⊎ Final f)
  unfolding request_id
  kind (PluginFrame.hello x) = inl refl
  kind (pong n) = inl refl
  kind shutdown_ack = inl refl
  kind (error none e) = inl refl
  kind (started i) = elim (Bool-cases (i == id)) [
    | inl same ↦ inr (inl (same, refl, refl))
    | inr other ↦ inl other
  ]
  kind (progress i x y) = elim (Bool-cases (i == id)) [
    | inl same ↦ inr (inl (same, refl, refl))
    | inr other ↦ inl other
  ]
  kind (output i x) = elim (Bool-cases (i == id)) [
    | inl same ↦ inr (inl (same, refl, refl))
    | inr other ↦ inl other
  ]
  kind (finished i r) = elim (Bool-cases (i == id)) [
    | inl same ↦ inr (inr (inl (r, ap (λ k. finished k r) ((nat_beq_iff i id).0 same))))
    | inr other ↦ inl other
  ]
  kind (error (some i) e) = elim (Bool-cases (i == id)) [
    | inl same ↦ inr (inr (inr (e, ap (λ k. error (some k) e) ((nat_beq_iff i id).0 same))))
    | inr other ↦ inl other
  ]

  -- What is left of the frames of a request behind one of each kind.
  pub skip :
      (f : PluginFrame lib) (fs : List (PluginFrame lib))
      → Foreign f
      → for_request lib J id (f ∷ fs) ≡ for_request lib J id fs
  skip f fs e = ground arith

  pub keep :
      (f : PluginFrame lib) (fs : List (PluginFrame lib))
      → Midway f
      → for_request lib J id (f ∷ fs) ≡ f ∷ for_request lib J id fs
  keep f fs (mine, on, e) = ground arith

  pub stop :
      (f : PluginFrame lib) (fs : List (PluginFrame lib))
      → Final f
      → for_request lib J id (f ∷ fs) ≡ f ∷ []
  unfolding request_id
  stop f fs (inl (r, e)) = ground (arith, ==_refl id)
  stop f fs (inr (r, e)) = ground (arith, ==_refl id)

  abbrev pub SaysOk :
      List (PluginFrame lib)
      → Bool
      → AsyncInvocationTranscript lib J
      → List (PluginFrame lib)
      → Type 0
  SaysOk events sender tr fs = poll_finish lib J id events fs sender ≡ done (ok tr)

  poll_finish_midway :
      (events : List (PluginFrame lib)) (f : PluginFrame lib) (fs : List (PluginFrame lib))
      (sender : Bool)
      → Midway f
      → poll_finish lib J id events (f ∷ fs) sender
        ≡ poll_finish lib J id (events ++ f ∷ []) fs sender
  unfolding poll_finish
  poll_finish_midway events f fs sender (mine, on, e) =
      ap (concluded lib J id events f (poll_finish lib J id (events ++ f ∷ []) fs sender)) e

  pub poll_finish-ok :
      (events fs : List (PluginFrame lib)) (sender : Bool) (tr : AsyncInvocationTranscript lib J)
      → SaysOk events sender tr (for_request lib J id fs) ↔ Is tr events (for_request lib J id fs)
  unfolding poll_finish
  poll_finish-ok events [] sender tr =
      ((λ h. ground arith), λ h. elim (EndsWith-nil tr.result h.1) [ ])
  poll_finish-ok events (f ∷ fs) sender tr = elim (kind f) [
    | inl foreign ↦
        subst (λ xs. SaysOk events sender tr xs ↔ Is tr events xs) (sym (skip f fs foreign))
          (poll_finish-ok events fs sender tr)
    | inr (inl midway) ↦
        let (to, from) = poll_finish-ok (events ++ f ∷ []) fs sender tr in
        subst (λ xs. SaysOk events sender tr xs ↔ Is tr events xs) (sym (keep f fs midway))
          (
            (λ h.
                let (e, ends) =
                  to (
                    sym (poll_finish_midway events f (for_request lib J id fs) sender midway)
                    ∙ h) in
                (
                  e
                      ∙ ap (λ ys. transcript ys tr.result)
                          (append_assoc events (f ∷ []) (for_request lib J id fs)),
                  EndsWith-cons f _ tr.result ends,
                )),
            λ h.
                poll_finish_midway events f (for_request lib J id fs) sender midway
                ∙ from (
                  h.0
                      ∙ ap (λ ys. transcript ys tr.result)
                          (sym (append_assoc events (f ∷ []) (for_request lib J id fs))),
                  EndsWith-tail f _ tr.result midway.1 h.1,
                ),
          )
    | inr (inr final) ↦
        subst (λ xs. SaysOk events sender tr xs ↔ Is tr events xs) (sym (stop f fs final))
          (last events f sender tr final)
  ]
    where
      last :
          (events : List (PluginFrame lib)) (f : PluginFrame lib) (sender : Bool)
          (tr : AsyncInvocationTranscript lib J)
          → Final f
          → SaysOk events sender tr (f ∷ []) ↔ Is tr events (f ∷ [])
      last events f sender tr (inl (r, e)) =
          let same : verdict lib J id f ≡ result_of r = ground (arith, ==_refl id) in
          (
            (λ h. (ground arith, ([], ground arith))),
            λ h. let equal = only f tr.result h.1 in ground arith,
          )
      last events f sender tr (inr (x, e)) =
          let same : verdict lib J id f ≡ error_of x = ground (arith, ==_refl id) in
          ((λ h. ground arith), λ h. let equal = only f tr.result h.1 in ground arith)
