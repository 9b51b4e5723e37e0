-- ===== src/Registry/Resolve/Trials.antt =====
-- What the loop of `resolve_best` keeps of the inspections it makes.
use outboard.Prelude.{
  ℤ, ◌≡◌, ◌≢◌, inl, inr, refl, subst, List, [], ◌∷◌, Result, ok, err, down_ord, nat_ord, pair_ord,
  All, All-map, Any, arith,
}
use outboard.Crates.{Crates}
use outboard.Discovery.{PluginCandidate}
use outboard.Manifest.{PluginRequirement, CompatibilityIssue}
use outboard.Manifest.Compatibility.{compatibility_issues}
use outboard.Registry.{
  Registry, InspectedPlugin, RegistryError, Rejections, done, rejected, Reason, failed, unfit, Host,
}
use outboard.Registry.Inspect.{inspect}
use outboard.Registry.Inspect.Laws.{inspect-ok}
use outboard.Registry.Resolve.{gather, attach, judge, Progress}

module _ (lib : Crates) (host : Host lib) (req : PluginRequirement lib) where
  -- A candidate and what its inspection gave.
  abbrev pub Trial : Type 0
  Trial = PluginCandidate × Result (InspectedPlugin lib) (RegistryError lib)

  -- The inspections of candidates, each with the registry that the one before leaves.
  abbrev pub trials : Registry lib → List PluginCandidate → List Trial
  trials r [] = []
  trials r (c ∷ cs) = (c, (inspect lib host r c).0) ∷ trials (inspect lib host r c).1 cs

  -- The candidate passed, and its manifest has no issue.
  abbrev pub Fits : InspectedPlugin lib → Trial → Type 0
  Fits i t = (t.1 ≡ ok i) × (compatibility_issues lib i.manifest req ≡ [])

  -- What passed has its own identity in its manifest, and no issue.
  pub trials-Fits :
      (r : Registry lib) (cs : List PluginCandidate) (i : InspectedPlugin lib)
      → Any (Fits i) (trials r cs)
      → (i.manifest.plugin.id ≡ i.candidate.id) × (compatibility_issues lib i.manifest req ≡ [])
  trials-Fits r [] i h = absurd h
  trials-Fits r (c ∷ cs) i (inl (e, f)) =
      let (same, own, from) = inspect-ok lib host r c e in (ground arith, f)
  trials-Fits r (c ∷ cs) i (inr h) = trials-Fits (inspect lib host r c).1 cs i h

  abbrev pub Because : Reason lib → Trial → Type 0
  Because (failed e) t = t.1 ≡ err e
  Because (unfit es) t =
      (i : InspectedPlugin lib) × (t.1 ≡ ok i)
      × (compatibility_issues lib i.manifest req ≡ es)
      × (es ≢ [])

  -- Each candidate is rejected, in order, for what its inspection gave.
  abbrev pub Explained : Rejections lib → List Trial → Type 0
  Explained done [] = Unit
  Explained (rejected c reason rs) (t ∷ ts) = (c ≡ t.0) × Because reason t × Explained rs ts
  Explained done (t ∷ ts) = ⊥
  Explained (rejected c reason rs) [] = ⊥

  module _ (score : InspectedPlugin lib → ℤ) where
    abbrev pub progress : Registry lib → List PluginCandidate → Progress lib host req score
    progress r cs = gather lib host req score r cs

    -- What fits one of some trials fits one of these and one more.
    still :
        (t : Trial) (ts : List Trial) (xs : List (InspectedPlugin lib))
        → All (λ i. Any (Fits i) ts) xs
        → All (λ i. Any (Fits i) (t ∷ ts)) xs
    still t ts xs h =
        All-map (λ i. Any (Fits i) ts) (λ i. Any (Fits i) (t ∷ ts)) (λ i x. inr x) xs h

    judge-accepted :
        (i : InspectedPlugin lib) (es : List (CompatibilityIssue lib)) (t : Trial) (ts : List Trial)
        (p : Progress lib host req score)
        → t.1 ≡ ok i
        → compatibility_issues lib i.manifest req ≡ es
        → All (λ i. Any (Fits i) ts) p.accepted
        → All (λ i. Any (Fits i) (t ∷ ts)) (judge lib host req score i es p).accepted
    judge-accepted i [] t ts p e f h = (inl (e, f), still t ts p.accepted h)
    judge-accepted i (x ∷ es) t ts p e f h = still t ts p.accepted h

    pub gather-accepted :
        (r : Registry lib) (cs : List PluginCandidate)
        → All (λ i. Any (Fits i) (trials r cs)) (progress r cs).accepted
    unfolding gather
    gather-accepted r [] = tt
    gather-accepted r (c ∷ cs) =
        go (inspect lib host r c).0 (trials (inspect lib host r c).1 cs)
          (progress (inspect lib host r c).1 cs) (gather-accepted (inspect lib host r c).1 cs)
      where
        go :
            (res : Result (InspectedPlugin lib) (RegistryError lib)) (ts : List Trial)
            (p : Progress lib host req score)
            → All (λ i. Any (Fits i) ts) p.accepted
            → All (λ i. Any (Fits i) ((c, res) ∷ ts)) (attach lib host req score c res p).accepted
        go (err e) ts p h = still (c, err e) ts p.accepted h
        go (ok i) ts p h = judge-accepted i _ (c, ok i) ts p refl refl h

    judge-All :
        (P : InspectedPlugin lib → Type 0) (i : InspectedPlugin lib)
        (es : List (CompatibilityIssue lib)) (p : Progress lib host req score)
        → compatibility_issues lib i.manifest req ≡ es
        → All P (judge lib host req score i es p).accepted
        → (compatibility_issues lib i.manifest req ≡ [] → P i) × All P p.accepted
    judge-All P i [] p e h = (λ _. h.0, h.1)
    judge-All P i (x ∷ es) p e h = (λ f. cc (e, f), h)

    attach-All :
        (P : InspectedPlugin lib → Type 0) (c : PluginCandidate)
        (res : Result (InspectedPlugin lib) (RegistryError lib)) (p : Progress lib host req score)
        → All P (attach lib host req score c res p).accepted
        → ((j : InspectedPlugin lib) → Fits j (c, res) → P j) × All P p.accepted
    attach-All P c (err e) p h = (λ j f. cc (f.0), h)
    attach-All P c (ok i) p h =
        let (first, rest) = judge-All P i _ p refl h in
        (
          λ j f.
              let e : i ≡ j = ground arith in
              subst (λ x. compatibility_issues lib x.manifest req ≡ [] → P x) e first f.1,
          rest,
        )

    pub gather-All :
        (P : InspectedPlugin lib → Type 0) (r : Registry lib) (cs : List PluginCandidate)
        → All P (progress r cs).accepted
        → All (λ t. (j : InspectedPlugin lib) → Fits j t → P j) (trials r cs)
    unfolding gather
    gather-All P r [] h = tt
    gather-All P r (c ∷ cs) h =
        let (first, rest) =
          attach-All P c (inspect lib host r c).0 (progress (inspect lib host r c).1 cs) h in
        (first, gather-All P (inspect lib host r c).1 cs rest)

    judge-Explained :
        (i : InspectedPlugin lib) (es : List (CompatibilityIssue lib)) (t : Trial) (ts : List Trial)
        (p : Progress lib host req score)
        → t.1 ≡ ok i
        → i.candidate ≡ t.0
        → compatibility_issues lib i.manifest req ≡ es
        → (p.accepted ≡ [] → Explained p.rejections ts)
        → (judge lib host req score i es p).accepted ≡ []
        → Explained (judge lib host req score i es p).rejections (t ∷ ts)
    judge-Explained i [] t ts p e c f ih h = cc
    judge-Explained i (x ∷ es) t ts p e c f ih h = (c, (i, e, f, λ g. cc (g)), ih h)

    pub gather-Explained :
        (r : Registry lib) (cs : List PluginCandidate)
        → (progress r cs).accepted ≡ []
        → Explained (progress r cs).rejections (trials r cs)
    unfolding gather
    gather-Explained r [] h = tt
    gather-Explained r (c ∷ cs) h =
        go (inspect lib host r c).0 refl (progress (inspect lib host r c).1 cs)
          (gather-Explained (inspect lib host r c).1 cs) h
      where
        ts : List Trial
        ts = trials (inspect lib host r c).1 cs

        go :
            (res : Result (InspectedPlugin lib) (RegistryError lib))
            → (inspect lib host r c).0 ≡ res
            → (p : Progress lib host req score) → (p.accepted ≡ [] → Explained p.rejections ts)
            → (attach lib host req score c res p).accepted ≡ []
            → Explained (attach lib host req score c res p).rejections ((c, res) ∷ ts)
        go (err e) at p ih k = (refl, refl, ih k)
        go (ok i) at p ih k =
            judge-Explained i _ (c, ok i) ts p refl (inspect-ok lib host r c at).0 refl ih k
