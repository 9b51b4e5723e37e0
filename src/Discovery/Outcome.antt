-- ===== src/Discovery/Outcome.antt =====
-- `discover_in_roots` as a whole: which candidate is selected, which are shadowed, and in which order.
use outboard.Prelude.{
  Text, ◌≡◌, ◌⊎◌, ◌↔◌, refl, sym, subst, ap, ◌∙◌, List, [], ◌∷◌, Option, none, some, Bool, ok, err,
  ◌==◌, Option-cases, inl, inr, arith, sort_by_key, nat_ord, text_ord, filter, IsOrdered,
  IsOrdered-sort_by_key, filter-sort_by_key_one, filter-sort_by_key_nil, Result-cases,
}
use outboard.BtreeMap.{BtreeMap, get, insert, get-empty, values}
use outboard.BtreeMap.Sorted.{
  IsSorted, IsSorted-insert, IsKeyed, IsKeyed-insert, filter-values, option_list,
}
use outboard.FileSystem.{FileSystem, ErrorKind}
use outboard.Id.{Namespace, PluginKind, PluginName, PluginId, plugin_id_ord, plugin_id_eq}
use outboard.Discovery.{
  SearchRoot, PluginCandidate, DiscoverySet, Found, listed, insert_candidate, add,
}
use outboard.Discovery.Scan.{start, finish, discover_in_roots}
use outboard.Discovery.FirstWins.{
  Offer, candidate, first_offer, later_offers, add_offer, run, selected-run, shadows-run-none,
}
use outboard.Discovery.Offers.{offers, discover-eq-finished}

module _ (fs : FileSystem) (namespace : Namespace) (kind : PluginKind) where
  -- The map of the selected candidates stays in order, each under its identity.
  abbrev IsWellKept : BtreeMap PluginId PluginCandidate → Type 0
  IsWellKept m = IsSorted m × IsKeyed (λ c. PluginCandidate.id c) m

  selected_map-add :
      (found : Found) (o : Offer)
      → ((add_offer fs found o).selected ≡ found.selected)
        ⊎ ((add_offer fs found o).selected
            ≡ insert o.id (candidate found.precedence o) found.selected)
  unfolding add insert_candidate
  selected_map-add found o = elim (Option-cases (get o.id found.selected)) [
    | inl new ↦ inr (ground arith)
    | inr (c, old) ↦ inl (ground arith)
  ]

  IsWellKept-run :
      (found : Found) (os : List Offer)
      → IsWellKept found.selected
      → IsWellKept (run fs found os).selected
  unfolding run
  IsWellKept-run found [] h = h
  IsWellKept-run found (o ∷ os) h =
      IsWellKept-run (add_offer fs found o) os (elim (selected_map-add found o) [
        | inl same ↦ subst IsWellKept (sym same) h
        | inr grown ↦ subst IsWellKept (sym grown) (
          IsSorted-insert o.id (candidate found.precedence o) found.selected h.0,
          IsKeyed-insert (λ c. PluginCandidate.id c) o.id (candidate found.precedence o)
              found.selected refl h.1,
        )
      ])

  -- How a set answers the offers that were made.
  pub record Explains (roots : List SearchRoot) (os : List Offer) (d : DiscoverySet) : Type 0 where
    pub selected :
        (id : PluginId) → filter (λ c. c.id == id) d.selected ≡ option_list (first_offer 0 id os)
    pub shadowed : (id : PluginId) → listed (get id d.shadowed) ≡ later_offers fs 0 id os
    pub ordered : IsOrdered (λ c. PluginCandidate.precedence c) d.selected
    pub searched : d.roots ≡ roots

  filter-sort-option :
      (p : PluginCandidate → Bool) (cs : List PluginCandidate) (o : Option PluginCandidate)
      → filter p cs ≡ option_list o
      → filter p (sort_by_key (λ c. PluginCandidate.precedence c) cs) ≡ option_list o
  filter-sort-option p cs none e = filter-sort_by_key_nil _ p cs e
  filter-sort-option p cs (some c) e = filter-sort_by_key_one _ p cs e

  Explains-finish :
      (roots : List SearchRoot) (os : List Offer)
      → Explains roots os (finish fs namespace kind roots (run fs start os))
  Explains-finish roots os =
      let kept = IsWellKept-run start os (tt, tt) in
      record {
        selected = λ id.
            filter-sort-option (λ c. c.id == id) (values (run fs start os).selected)
              (first_offer 0 id os)
              (filter-values (λ c. PluginCandidate.id c) id (run fs start os).selected kept.0 kept.1
                ∙ ap option_list (
                    ground
                      (arith, selected-run fs start os id, get-empty {V = PluginCandidate} id)));
        shadowed = λ id. ground (
          arith,
          shadows-run-none fs start os id,
          get-empty {V = PluginCandidate} id,
          get-empty {V = List PluginCandidate} id,
        );
        ordered = IsOrdered-sort_by_key _ (values (run fs start os).selected);
        searched = refl;
      }

  -- When discovery succeeds, the roots and overrides make a list of offers, and the set returned
  -- selects for each identity its first offer, shadows the later offers of other files, in order,
  -- lists the selected by precedence, and names the roots.
  pub discover_in_roots_lem :
      (roots : List SearchRoot) (overrides : List (PluginName × Text)) (d : DiscoverySet)
      → discover_in_roots fs namespace kind roots overrides ≡ ok d
      → (os : List Offer) × (offers fs namespace kind roots overrides ≡ ok os) × Explains roots os d
  discover_in_roots_lem roots overrides d h =
      elim (Result-cases (offers fs namespace kind roots overrides)) [
        | inl (os, made) ↦
            let e : finish fs namespace kind roots (run fs start os) ≡ d =
              ground (arith, discover-eq-finished fs namespace kind roots overrides, made, h) in
            (os, made, subst (Explains roots os) e (Explains-finish roots os))
        | inr (e, failed_with) ↦
            cc (discover-eq-finished fs namespace kind roots overrides, failed_with, h)
      ]

  -- Discovery fails exactly with the error of the first root that cannot be read and is not passed
  -- over.
  pub discover_in_roots-err :
      (roots : List SearchRoot) (overrides : List (PluginName × Text)) (e : ErrorKind)
      → (discover_in_roots fs namespace kind roots overrides ≡ err e)
        ↔ (offers fs namespace kind roots overrides ≡ err e)
  discover_in_roots-err roots overrides e = (
    λ h. elim (Result-cases (offers fs namespace kind roots overrides)) [
      | inl (os, made) ↦ cc (discover-eq-finished fs namespace kind roots overrides, made, h)
      | inr (f, bad) ↦ cc (discover-eq-finished fs namespace kind roots overrides, bad, h)
    ],
    λ h. cc (discover-eq-finished fs namespace kind roots overrides, h),
  )
