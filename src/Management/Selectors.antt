-- ===== src/Management/Selectors.antt =====
-- Which plugin a selector names.
use outboard.Prelude.{
  Text, codes, ◌≡◌, ◌≢◌, refl, subst, map_err-eq-ok, ◌∙◌, Bool, false, ◌==◌, ==_iff, nat_eq,
  list_eq, [], ◌∷◌, ◌++◌, Option, none, some, Result, ok, map_err, All, All-map, Any, arith,
  Result-cases, bind-eq-ok, inl, inr, find-passes, Any-of-find,
}
use outboard.Crates.{Crates}
use outboard.Id.{PluginId, PluginName, selector, plugin_id_eq, new_plugin_name}
use outboard.Id.Valid.{IsPluginId, Allowed, new_id-value}
use outboard.Discovery.{PluginCandidate, DiscoverySet, selected_by_name}
use outboard.Registry.{Registry, InspectedPlugin, Host, discover}
use outboard.Registry.Inspect.{inspect}
use outboard.Registry.Inspect.Laws.{inspect-ok}
use outboard.Management.{
  split_once, CommandError, parse_selector, select, looked_up, registry, bad_name,
}

split_once-append :
    (k n : Text) → All (λ b. b ≢ b':') k → split_once (k ++ (codes ":" ++ n)) ≡ some (k, n)
unfolding split_once
split_once-append [] n h = refl
split_once-append (c ∷ k) n h = ground (arith, split_once-append k n)

-- No byte of an identifier is a colon.
no_colon : (dot : Bool) (t : Text) → All (Allowed dot) t → All (λ b. b ≢ b':') t
no_colon dot t h = All-map (Allowed dot) (λ b. b ≢ b':') (λ b a e. ground arith) t h

module _ (lib : Crates) (J : Type 0) where
  -- The selector of a valid identity parses to its kind and its name.
  pub parse_selector-selector :
      (id : PluginId) → IsPluginId id → parse_selector lib J (selector id) ≡ ok (id.kind, id.name)
  unfolding parse_selector selector
  parse_selector-selector id v = ground (
    arith,
    split_once-append id.kind id.name (no_colon false id.kind v.kind.bytes),
    v.kind.non_empty,
    v.name.non_empty,
  )

  found-ok :
      (d : DiscoverySet) (n : PluginName) (x : PluginCandidate)
      → selected_by_name d n ≡ some x
      → Any (λ y. y ≡ x) d.selected × (x.id.name ≡ n)
  unfolding selected_by_name
  found-ok d n x h = (
    Any-of-find (λ y. y ≡ x) (λ y. y.id.name == n) d.selected h refl,
    (==_iff x.id.name n).0 (find-passes (λ y. y.id.name == n) d.selected h),
  )

  looked_up-ok :
      (host : Host lib) (r : Registry lib) (text : Text) (x : PluginCandidate)
      → looked_up lib J host r text ≡ ok (some x)
      → (kind : Text) × (name : Text) × (d : DiscoverySet) × (parse_selector lib J text
          ≡ ok (kind, name))
        × (discover lib host r kind ≡ ok d)
        × Any (λ y. y ≡ x) d.selected
        × (x.id.name ≡ name)
  looked_up-ok host r text x p =
      let (kn, parsed, p1) = bind-eq-ok (parse_selector lib J text) _ p in
      let (d, set, p2) = bind-eq-ok (map_err registry (discover lib host r kn.0)) _ p1 in
      let (n, named, p3) = bind-eq-ok (map_err bad_name (new_plugin_name kn.1)) _ p2 in
      let (among, same) = found-ok d n x (ok-injective p3) in
      (
        kn.0,
        kn.1,
        d,
        parsed,
        map_err-eq-ok registry _ set,
        among,
        same ∙ new_id-value "plugin name" false kn.1 (map_err-eq-ok bad_name _ named),
      )
    where
      ok-injective :
          {a b : Option PluginCandidate}
          → ◌≡◌ {A = Result (Option PluginCandidate) (CommandError lib J)} (ok a) (ok b)
          → a ≡ b
      ok-injective h = cc (h)

  -- What a selector selects is a candidate that discovery of its kind selected and that has its
  -- name, inspected: the manifest declares the candidate's identity.
  pub select-ok :
      (host : Host lib) (r : Registry lib) (text : Text) {c : PluginCandidate}
      {i : InspectedPlugin lib}
      → (select lib J host r text).0 ≡ ok (c, i)
      → (kind : Text) × (name : Text) × (d : DiscoverySet) × (parse_selector lib J text
          ≡ ok (kind, name))
        × (discover lib host r kind ≡ ok d)
        × Any (λ x. x ≡ c) d.selected
        × (c.id.name ≡ name)
        × (i.candidate ≡ c)
        × (i.manifest.plugin.id ≡ c.id)
  unfolding select
  select-ok host r text {c} {i} h = elim (Result-cases (looked_up lib J host r text)) [
    | inr (e, p) ↦ ground arith
    | inl (none, p) ↦ ground arith
    | inl (some x, p) ↦
        let (kind, name, d, parsed, set, among, named) = looked_up-ok host r text x p in
        elim (Result-cases (inspect lib host r x).0) [
          | inr (e, q) ↦ ground arith
          | inl (j, q) ↦
              let (own, declared, from) = inspect-ok lib host r x {i = j} q in
              let same : x ≡ c = ground arith in
              let it : j ≡ i = ground arith in
              (
                kind,
                name,
                d,
                parsed,
                set,
                subst (λ y. Any (λ z. z ≡ y) d.selected) same among,
                subst (λ y. y.id.name ≡ name) same named,
                cc (own, same, it),
                cc (declared, same, it),
              )
        ]
  ]
