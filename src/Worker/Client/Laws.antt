-- ===== src/Worker/Client/Laws.antt =====
-- What `WorkerClient::invoke` returns, and how it meets the answers of a worker.
use mathlib.Core.List.{append-nil, append_assoc}
use outboard.Prelude.{
  ◌≡◌, refl, sym, ap, ◌∙◌, List, [], ◌∷◌, ◌++◌, none, some, ok, All, arith, nat_eq,
}
use outboard.Crates.{Crates}
use outboard.Protocol.{
  RequestId, PluginFrame, InvocationResult, started, progress, output, finished, error, pong,
  shutdown_ack,
}
use outboard.Worker.Client.{
  Arrival, arrived, failed, pause, InvocationTranscript, Heard, last, refused, event, heard, await,
  take_in,
}

module _ (lib : Crates) (J : Type 0) where
  -- The frames among some arrivals.
  abbrev pub frames_of : List (Arrival lib J) → List (PluginFrame lib)
  frames_of [] = []
  frames_of (arrived f ∷ rest) = f ∷ frames_of rest
  frames_of (pause ∷ rest) = frames_of rest
  frames_of (failed e ∷ rest) = frames_of rest

  -- An arrival that does not end the invocation.
  abbrev pub GoesOn : RequestId → Arrival lib J → Type 0
  GoesOn id (arrived f) = heard lib J id f ≡ event
  GoesOn id pause = Unit
  GoesOn id (failed e) = ⊥

  heard-last :
      (id : RequestId) (f : PluginFrame lib) {r : InvocationResult lib}
      → heard lib J id f ≡ last r
      → f ≡ finished id r
  heard-last id (finished i result) h = ground arith
  heard-last id (error (some i) e) h = ground arith
  heard-last id (error none e) h = cc
  heard-last id (PluginFrame.hello x) h = cc
  heard-last id (started i) h = cc
  heard-last id (progress i a b) h = cc
  heard-last id (output i a) h = cc
  heard-last id (pong a) h = cc
  heard-last id shutdown_ack h = cc

  pub await-GoesOn :
      (id : RequestId) (events : List (PluginFrame lib)) (before rest : List (Arrival lib J))
      → All (GoesOn id) before
      → await lib J id events (before ++ rest) ≡ await lib J id (events ++ frames_of before) rest
  unfolding await
  await-GoesOn id events [] rest h = ap (λ xs. await lib J id xs rest) (sym (append-nil events))
  await-GoesOn id events (pause ∷ before) rest h = await-GoesOn id events before rest h.1
  await-GoesOn id events (failed e ∷ before) rest h = absurd h.0
  await-GoesOn id events (arrived f ∷ before) rest h = rw (h.0) (
      await-GoesOn id (events ++ f ∷ []) before rest h.1
      ∙ ap (λ xs. await lib J id xs rest) (append_assoc events (f ∷ []) (frames_of before)))

  -- An invocation that succeeds has waited for the first frame that ends it, the result that is
  -- returned is that frame's, the events are all the frames up to it, in order and it included,
  -- whatever their request, and what came after it stays.
  pub await-ok :
      (id : RequestId) (events : List (PluginFrame lib)) (incoming : List (Arrival lib J))
      {t : InvocationTranscript lib J} {rest : List (Arrival lib J)}
      → await lib J id events incoming ≡ (ok t, rest)
      → (before : List (Arrival lib J)) × All (GoesOn id) before
        × (incoming ≡ before ++ arrived (finished id t.result) ∷ rest)
        × (t.id ≡ id)
        × (t.events ≡ events ++ (frames_of before ++ finished id t.result ∷ []))
  unfolding await
  await-ok id events [] h = cc
  await-ok id events (failed e ∷ incoming) h = cc
  await-ok id events (pause ∷ incoming) {t} {rest} h =
      let (before, on, e, same, all) = await-ok id events incoming {t = t} {rest = rest} h in
      (pause ∷ before, (tt, on), ap (λ xs. pause ∷ xs) e, same, all)
  await-ok id events (arrived f ∷ incoming) {t} {rest} h =
      go (heard lib J id f) refl h
        (λ n. await-ok id (events ++ f ∷ []) incoming {t = t} {rest = rest} n)
    where
      Ended : List (PluginFrame lib) → List (Arrival lib J) → Type 0
      Ended so_far arrivals =
          (before : List (Arrival lib J)) × All (GoesOn id) before
          × (arrivals ≡ before ++ arrived (finished id t.result) ∷ rest)
          × (t.id ≡ id)
          × (t.events ≡ so_far ++ (frames_of before ++ finished id t.result ∷ []))

      go :
          (x : Heard lib J)
          → heard lib J id f ≡ x
          → take_in lib J id
              (events ++ f ∷ [])
              incoming
              (await lib J id (events ++ f ∷ []) incoming)
              x
            ≡ (ok t, rest)
          → (await lib J id (events ++ f ∷ []) incoming ≡ (ok t, rest)
              → Ended (events ++ f ∷ []) incoming)
          → Ended events (arrived f ∷ incoming)
      go (refused e) p n ih = cc
      go event p n ih =
          let (before, on, e, same, all) = ih n in
          (
            arrived f ∷ before,
            (p, on),
            ap (λ xs. arrived f ∷ xs) e,
            same,
            all ∙ append_assoc events (f ∷ []) (frames_of before ++ finished id t.result ∷ []),
          )
      go (last result) p n ih =
          let q = heard-last id f p in ([], tt, ground arith, ground arith, ground arith)
