-- ===== src/Registry/Resolve/Best.antt =====
-- Which plugin `resolve_best` and `resolve` return.
use outboard.Prelude.{
  ℕ, ℤ, pos, ◌≡◌, ◌≢◌, ◌≤◌, ◌⊎◌, inl, inr, refl, sym, subst, List, [], ◌∷◌, Result, ok, err, filter,
  int_cmp, int_cmp_iff, compare_iff, Down, down_ord, nat_ord, pair_ord, sort_by_key, IsOrdered,
  IsOrdered-sort_by_key, All-sort_by_key, All-of-sort_by_key, All, All-map, Any, arith,
}
use Prim.Native.Nat.{Ordering}
use outboard.Crates.{Crates}
use outboard.Discovery.{PluginCandidate, DiscoverySet}
use outboard.Manifest.{PluginRequirement}
use outboard.Manifest.Compatibility.{compatibility_issues}
use outboard.Registry.{
  Registry, InspectedPlugin, ResolvedPlugin, RegistryError, no_match, Rejections, Host, discover,
}
use outboard.Registry.Resolve.{is_named, name_suffix, rank, Progress, resolve_best, resolve}
use outboard.Registry.Resolve.Trials.{
  trials, Fits, Explained, progress, gather-accepted, gather-All, gather-Explained, trials-Fits,
}

module _ (lib : Crates) (host : Host lib) (req : PluginRequirement lib) where
  module _ (score : InspectedPlugin lib → ℤ) where
    -- One plugin comes before another: its score is greater, or is the same with a precedence that
    -- is not greater.
    abbrev pub IsBefore : InspectedPlugin lib → InspectedPlugin lib → Type 0
    IsBefore i j =
        (int_cmp (score j) (score i) ≡ Ordering.lt)
        ⊎ ((score i ≡ score j) × (i.candidate.precedence ≤ j.candidate.precedence))

    abbrev RankedBefore : InspectedPlugin lib → InspectedPlugin lib → Type 0
    RankedBefore i j =
        pair_ord.cmp (rank lib host req score i) (rank lib host req score j) ≢ Ordering.gt

    IsBefore-of_ranked : (i j : InspectedPlugin lib) → RankedBefore i j → IsBefore i j
    IsBefore-of_ranked i j h = ground (
      arith,
      int_cmp_iff (score j) (score i),
      compare_iff i.candidate.precedence j.candidate.precedence,
    )

    sorted-first :
        (xs is : List (InspectedPlugin lib)) (i : InspectedPlugin lib)
        → sort_by_key (rank lib host req score) xs ≡ i ∷ is
        → All (IsBefore i) xs
    sorted-first xs is i e =
        let ordered = subst (IsOrdered by) e (IsOrdered-sort_by_key by xs) in
        let self : RankedBefore i i = λ g. ground (arith, pair_ord.cmp_iff (by i) (by i)) in
        All-map (RankedBefore i) (IsBefore i) (IsBefore-of_ranked i) xs (
          All-of-sort_by_key by (RankedBefore i) xs
            (subst (All (RankedBefore i)) (sym e) (self, ordered.0)))
      where
        by : InspectedPlugin lib → Down × ℕ
        by = rank lib host req score

    sorted-nil :
        (xs : List (InspectedPlugin lib)) → sort_by_key (rank lib host req score) xs ≡ [] → xs ≡ []
    sorted-nil xs e =
        none_left xs (
          All-of-sort_by_key (rank lib host req score) (λ _. ⊥) xs
            (subst (All (λ _. ⊥)) (sym e) tt))
      where
        none_left : (ys : List (InspectedPlugin lib)) → All (λ _. ⊥) ys → ys ≡ []
        none_left [] h = refl
        none_left (y ∷ ys) h = absurd h.0

    -- When discovery gives a set, `resolve_best` inspects the selected candidates that have the
    -- required name, in order. It returns one of them that passed without an issue and that no
    -- other of these ranks before by score, then by precedence. It fails only where each of them
    -- is rejected, with every candidate and why, in order.
    pub resolve_best_lem :
        (r : Registry lib) {d : DiscoverySet}
        → discover lib host r req.kind ≡ ok d
        → let seen = trials lib host req r (filter (λ c. is_named req.name c) d.selected) in
          let answer = (resolve_best lib host req score r).0 in
          ((i : InspectedPlugin lib) × (answer
              ≡ ok (record { candidate = i.candidate; manifest = i.manifest }))
            × Any (Fits lib host req i) seen
            × All (λ t. (j : InspectedPlugin lib) → Fits lib host req j t → IsBefore i j) seen)
          ⊎ ((rejections : Rejections lib) × (answer
                ≡ err (no_match req.kind (name_suffix req.name) rejections))
              × Explained lib host req rejections seen)
    unfolding resolve_best
    resolve_best_lem r {d} found = go (sort_by_key (rank lib host req score) p.accepted) refl
      where
        cs : List PluginCandidate
        cs = filter (λ c. is_named req.name c) d.selected

        p : Progress lib host req score
        p = progress lib host req score r cs

        answer : Result (ResolvedPlugin lib) (RegistryError lib)
        answer = (resolve_best lib host req score r).0

        go :
            (xs : List (InspectedPlugin lib))
            → sort_by_key (rank lib host req score) p.accepted ≡ xs
            → ((i : InspectedPlugin lib) × (answer
                  ≡ ok (record { candidate = i.candidate; manifest = i.manifest }))
                × Any (Fits lib host req i) (trials lib host req r cs)
                × All
                    (λ t. (j : InspectedPlugin lib) → Fits lib host req j t → IsBefore i j)
                    (trials lib host req r cs))
              ⊎ ((rejections : Rejections lib) × (answer
                    ≡ err (no_match req.kind (name_suffix req.name) rejections))
                  × Explained lib host req rejections (trials lib host req r cs))
        go [] e = inr (
          p.rejections,
          ground arith,
          gather-Explained lib host req score r cs (sorted-nil p.accepted e),
        )
        go (i ∷ is) e =
            let fits =
              All-sort_by_key (rank lib host req score)
                (λ k. Any (Fits lib host req k) (trials lib host req r cs)) p.accepted
                (gather-accepted lib host req score r cs) in
            inl (
              i,
              ground arith,
              (subst (All (λ k. Any (Fits lib host req k) (trials lib host req r cs))) e fits).0,
              gather-All lib host req score (IsBefore i) r cs (sorted-first p.accepted is i e),
            )

  -- `resolve` returns a plugin whose manifest has the candidate's identity and no issue, and no
  -- candidate that also passes has a lower precedence.
  pub resolve-ok :
      (r : Registry lib) {d : DiscoverySet} {p : ResolvedPlugin lib}
      → discover lib host r req.kind ≡ ok d
      → (resolve lib host req r).0 ≡ ok p
      → (p.manifest.plugin.id ≡ p.candidate.id)
        × (compatibility_issues lib p.manifest req ≡ [])
        × All
            (λ t.
              (j : InspectedPlugin lib)
              → Fits lib host req j t
              → p.candidate.precedence ≤ j.candidate.precedence)
            (trials lib host req r (filter (λ c. is_named req.name c) d.selected))
  unfolding resolve
  resolve-ok r {d} {p} found h = elim (resolve_best_lem (λ i. pos 0) r {d = d} found) [
    | inr (rejections, e, why) ↦ ground arith
    | inl (i, e, seen, least) ↦
        let (same, none_found) = trials-Fits lib host req r _ i seen in
        (
          ground arith,
          ground arith,
          All-map _ _ (λ t far j fits. ground (arith, far j fits))
              (trials lib host req r (filter (λ c. is_named req.name c) d.selected)) least,
        )
  ]
