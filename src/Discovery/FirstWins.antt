-- ===== src/Discovery/FirstWins.antt =====
-- What discovery finds, described by the sequence of the files that it is offered: the overrides,
-- then the entries of each root in turn.
use mathlib.Core.List.{append-nil, append_assoc}
use outboard.Prelude.{
  ℕ, Text, ◌≡◌, List, [], ◌∷◌, ◌++◌, Option, none, some, Bool, if◌then◌else◌, ◌+◌, ◌==◌, Bool-cases,
  inl, inr, arith, nat_ord, text_ord,
}
use outboard.BtreeMap.{get, get-insert}
use outboard.FileSystem.{FileSystem, same_file}
use outboard.Id.{PluginId, plugin_id_ord, plugin_id_eq, plugin_id_cmp_iff}
use outboard.Discovery.{DiscoverySource, PluginCandidate, Found, listed, insert_candidate, add}

-- A file that is offered for an identity.
pub record Offer : Type 0 where
  pub id : PluginId
  pub path : Text
  pub source : DiscoverySource

abbrev pub candidate : ℕ → Offer → PluginCandidate
candidate k o = record { id = o.id; path = o.path; source = o.source; precedence = k }

-- The first offer for the identity, the offers being counted from `k`.
unfoldable pub first_offer : ℕ → PluginId → List Offer → Option PluginCandidate
first_offer k id [] = none
first_offer k id (o ∷ os) =
    let rest = first_offer (k + 1) id os in if o.id == id then some (candidate k o) else rest

module _ (fs : FileSystem) where
  -- The offers for the identity that are other files than the one at `file`.
  pub other_offers : ℕ → PluginId → Text → List Offer → List PluginCandidate
  other_offers k id file [] = []
  other_offers k id file (o ∷ os) =
      let rest = other_offers (k + 1) id file os in
      if o.id == id then (if same_file fs file o.path then rest else candidate k o ∷ rest) else rest

  -- The offers for the identity after the first, but for those of the same file.
  pub later_offers : ℕ → PluginId → List Offer → List PluginCandidate
  later_offers k id [] = []
  later_offers k id (o ∷ os) =
      let rest = later_offers (k + 1) id os in
      if o.id == id then other_offers (k + 1) id o.path os else rest

  abbrev pub add_offer : Found → Offer → Found
  add_offer found o = add fs found o.id o.path o.source

  unfoldable pub run : Found → List Offer → Found
  run found [] = found
  run found (o ∷ os) = run (add_offer found o) os

  abbrev pub or_else {ℓ} : {A : Type ℓ} → Option A → Option A → Option A
  or_else none o = o
  or_else (some a) o = some a

  precedence-add :
      (found : Found) (o : Offer) → (add_offer found o).precedence ≡ found.precedence + 1
  unfolding add insert_candidate
  precedence-add found o = ground arith

  selected-add :
      (found : Found) (o : Offer) (id : PluginId)
      → get id (add_offer found o).selected
        ≡ or_else
            (get id found.selected)
            (if o.id == id then some (candidate found.precedence o) else none)
  unfolding add insert_candidate
  selected-add found o id = ground (
    arith,
    get-insert o.id id (candidate found.precedence o) found.selected,
    plugin_id_cmp_iff o.id id,
  )

  pub selected-run :
      (found : Found) (os : List Offer) (id : PluginId)
      → get id (run found os).selected
        ≡ or_else (get id found.selected) (first_offer found.precedence id os)
  unfolding run first_offer
  selected-run found [] id = ground arith
  selected-run found (o ∷ os) id = ground (
    arith,
    selected-run (add_offer found o) os id,
    selected-add found o id,
    precedence-add found o,
  )

  abbrev pub shadows : PluginId → Found → List PluginCandidate
  shadows id found = listed (get id found.shadowed)

  -- The shadowed candidates of an identity after one more offer.
  abbrev shadows_after :
      Option PluginCandidate → Bool → List PluginCandidate → PluginCandidate → List PluginCandidate
  shadows_after none same old c = old
  shadows_after (some first) same old c =
      if same then (if same_file fs first.path c.path then old else old ++ c ∷ []) else old

  shadows-add :
      (found : Found) (o : Offer) (id : PluginId)
      → shadows id (add_offer found o)
        ≡ shadows_after
            (get id found.selected)
            (o.id == id)
            (shadows id found)
            (candidate found.precedence o)
  unfolding add insert_candidate
  shadows-add found o id = ground (
    arith,
    get-insert o.id id (shadows o.id found ++ candidate found.precedence o ∷ []) found.shadowed,
    plugin_id_cmp_iff o.id id,
  )

  shadows-run-some :
      (found : Found) (os : List Offer) (id : PluginId) (c : PluginCandidate)
      → get id found.selected ≡ some c
      → shadows id (run found os) ≡ shadows id found ++ other_offers found.precedence id c.path os
  unfolding run other_offers
  shadows-run-some found [] id c e = rw append-nil
  shadows-run-some found (o ∷ os) id c e =
      let kept : get id (add_offer found o).selected ≡ some c =
        ground (arith, selected-add found o id) in
      ground (
        arith,
        shadows-run-some (add_offer found o) os id c kept,
        shadows-add found o id,
        precedence-add found o,
        append_assoc (shadows id found) (candidate found.precedence o ∷ [])
            (other_offers (found.precedence + 1) id c.path os),
      )

  pub shadows-run-none :
      (found : Found) (os : List Offer) (id : PluginId)
      → get id found.selected ≡ none
      → shadows id (run found os) ≡ shadows id found ++ later_offers found.precedence id os
  unfolding run later_offers
  shadows-run-none found [] id e = rw append-nil
  shadows-run-none found (o ∷ os) id e = elim (Bool-cases (o.id == id)) [
    | inl same ↦
        let kept : get id (add_offer found o).selected ≡ some (candidate found.precedence o) =
          ground (arith, selected-add found o id) in
        ground (
          arith,
          shadows-run-some (add_offer found o) os id (candidate found.precedence o) kept,
          shadows-add found o id,
          precedence-add found o,
        )
    | inr other ↦
        let kept : get id (add_offer found o).selected ≡ none =
          ground (arith, selected-add found o id) in
        ground (
          arith,
          shadows-run-none (add_offer found o) os id kept,
          shadows-add found o id,
          precedence-add found o,
        )
  ]
