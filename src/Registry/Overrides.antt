-- ===== src/Registry/Overrides.antt =====
-- What `override_plugin` of crates/outboard-core/src/registry.rs does to a discovery.
use outboard.Prelude.{
  ℕ, ◌+◌, Text, ◌≡◌, ◌↔◌, inl, inr, ◌∙◌, ap, subst, true, false, ◌==◌, nat_eq, list_eq,
  list_beq_iff, List, [], ◌∷◌, ◌++◌, some, ok, filter, arith, Bool-cases, text_ord, pair_ord,
  bind-eq-ok, map_err, map_err-eq-ok,
}
use outboard.BtreeMap
use outboard.BtreeMap.{BtreeMap, same_key, same_key_iff}
use outboard.BtreeMap.Sorted.{option_list}
use outboard.Crates.{Crates}
use outboard.FileSystem.{FileSystem}
use outboard.Id.{
  Namespace, PluginKind, PluginName, PluginId, plugin_id_eq, plugin_id_beq_iff, new_plugin_kind,
}
use outboard.Id.Valid.{new_id-value}
use outboard.Discovery.{override, PluginCandidate, DiscoverySet}
use outboard.Discovery.Scan.{identity, discover_in_roots}
use outboard.Discovery.FirstWins.{Offer, first_offer}
use outboard.Discovery.Offers.{override_offers, root_offers}
use outboard.Discovery.Outcome.{discover_in_roots_lem}
use outboard.Registry.{Registry, Host, of_kind, discover, search_roots, discovery, identifier}

module _ (lib : Crates) where
  -- An override, as the candidate that it makes.
  abbrev pub overriding : Namespace → PluginKind → PluginName → Text → ℕ → PluginCandidate
  overriding ns kind name p k = record {
    id = identity ns kind name;
    path = p;
    source = override;
    precedence = k;
  }

  key_iff :
      (j : PluginKind) (n : PluginName) (kind : PluginKind) (name : PluginName)
      → (same_key {K = Text × Text} (j, n) (kind, name) ≡ true) ↔ ((j ≡ kind) × (n ≡ name))
  key_iff j n kind name = (
    λ h.
        let e = (same_key_iff {K = Text × Text} (j, n) (kind, name)).0 h in
        (ap (λ x. x.0) e, ap (λ x. x.1) e),
    λ (a, b). (same_key_iff {K = Text × Text} (j, n) (kind, name)).1 (cc (a, b)),
  )

  first_offer-override :
      (fs : FileSystem) (ns : Namespace) (kind : PluginKind) (name : PluginName) (p : Text)
      (m : BtreeMap (PluginKind × PluginName) Text) (os : List Offer) (k : ℕ)
      → BtreeMap.get (kind, name) m ≡ some p
      → (precedence : ℕ) × (first_offer k
            (identity ns kind name)
            (override_offers fs ns kind (of_kind lib kind m) ++ os)
          ≡ some (overriding ns kind name p precedence))
  unfolding BtreeMap.get first_offer
  first_offer-override fs ns kind name p [] os k h = cc
  first_offer-override fs ns kind name p (((j, n), q) ∷ m) os k h = elim (Bool-cases (j == kind)) [
    | inr other ↦
        let (i, e) =
          first_offer-override fs ns kind name p m os k
            (ground (arith, key_iff j n kind name, list_beq_iff j kind)) in
        (i, ground arith)
    | inl same ↦ elim (Bool-cases (n == name)) [
      | inl here ↦ (
        k,
        ground (
          arith,
          key_iff j n kind name,
          list_beq_iff j kind,
          list_beq_iff n name,
          plugin_id_beq_iff (identity ns kind n) (identity ns kind name),
        ),
      )
      | inr there ↦
          let (i, e) =
            first_offer-override fs ns kind name p m os (k + 1)
              (ground (arith, key_iff j n kind name, list_beq_iff n name)) in
          (
            i,
            ground (
              arith,
              list_beq_iff n name,
              plugin_id_beq_iff (identity ns kind n) (identity ns kind name),
            ),
          )
    ]
  ]

  -- When discovery of a kind gives a set, a plugin of that kind with an override has one selected
  -- candidate, and it is the file of the override, whatever the roots hold.
  pub discover-override :
      (host : Host lib) (r : Registry lib) (kind : Text) (name : PluginName) (p : Text)
      {d : DiscoverySet}
      → discover lib host r kind ≡ ok d
      → BtreeMap.get (kind, name) r.overrides ≡ some p
      → (precedence : ℕ) × (filter (λ c. c.id == identity r.namespace kind name) d.selected
          ≡ overriding r.namespace kind name p precedence ∷ [])
  unfolding discover
  discover-override host r kind name p {d} h kept =
      let (k, valid, h1) = bind-eq-ok (map_err identifier (new_plugin_kind kind)) _ h in
      let same = new_id-value "plugin kind" false kind (map_err-eq-ok identifier _ valid) in
      let scanned = map_err-eq-ok discovery _ h1 in
      go (
        subst
          (λ x.
            discover_in_roots host.fs r.namespace x (search_roots lib host r)
              (of_kind lib x r.overrides)
            ≡ ok d)
          same scanned)
    where
      ovs : List (PluginName × Text)
      ovs = of_kind lib kind r.overrides

      id : PluginId
      id = identity r.namespace kind name

      go :
          discover_in_roots host.fs r.namespace kind (search_roots lib host r) ovs ≡ ok d
          → (precedence : ℕ) × (filter (λ c. c.id == id) d.selected
              ≡ overriding r.namespace kind name p precedence ∷ [])
      go scanned =
          let (os, made, ex) =
            discover_in_roots_lem host.fs r.namespace kind (search_roots lib host r) ovs d
              scanned in
          let (found, q, e) =
            bind-eq-ok (root_offers host.fs r.namespace kind (search_roots lib host r))
              (λ found. ok (override_offers host.fs r.namespace kind ovs ++ found)) made in
          let (k, first) =
            first_offer-override host.fs r.namespace kind name p r.overrides found 0 kept in
          let all : override_offers host.fs r.namespace kind ovs ++ found ≡ os = cc (e) in
          (
            k,
            ex.selected id
                ∙ ap option_list (
                    subst (λ xs. first_offer 0 id xs ≡ some (overriding r.namespace kind name p k))
                      all first),
          )
