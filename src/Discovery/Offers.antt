-- ===== src/Discovery/Offers.antt =====
-- `discover_in_roots` as a run over the offers that overrides and roots make.
use outboard.Prelude.{
  Text, ◌≡◌, refl, sym, ap, ◌∙◌, List, [], ◌∷◌, ◌++◌, Option, none, some, Result, ok, err, ◌>>=◌,
  if◌then◌else◌, Bool-cases, inl, inr, arith, sort_by_key, nat_ord, text_ord,
}
use outboard.FileSystem.{FileSystem, ErrorKind, ReadDir, entries, failed, join}
use outboard.Id.{Namespace, PluginKind, PluginName, plugin_id_ord, plugin_id_eq}
use outboard.Discovery.{override, SearchRoot, DiscoverySet, Found, add}
use outboard.Discovery.Scan.{
  readable, is_skipped, start, identity, plugin_name_at, scan_entry, scan_entries, scan_roots,
  add_overrides, finish, discover_in_roots,
}
use outboard.Discovery.FirstWins.{Offer, add_offer, run}

module _ (fs : FileSystem) (namespace : Namespace) (kind : PluginKind) where
  abbrev offer_of : SearchRoot → Text → Option PluginName → List Offer
  offer_of root path none = []
  offer_of root path (some name) =
      record { id = identity namespace kind name; path = path; source = root.source } ∷ []

  -- The offers that the entries of a root make.
  abbrev pub entry_offers : SearchRoot → List Text → List Offer
  entry_offers root [] = []
  entry_offers root (e ∷ es) =
      offer_of root (join root.path e) (plugin_name_at fs namespace kind (join root.path e))
      ++ entry_offers root es

  abbrev pub root_offers : List SearchRoot → Result (List Offer) ErrorKind
  root_offers [] = ok []
  root_offers (root ∷ roots) = elim (fs.read_dir root.path) [
    | failed e ↦ if is_skipped e then root_offers roots else err e
    | entries es ↦ do
      os ← root_offers roots
      ok (entry_offers root (sort_by_key (λ (e : Text). e) (readable es)) ++ os)
  ]

  abbrev pub override_offers : List (PluginName × Text) → List Offer
  override_offers [] = []
  override_offers ((name, file) ∷ rest) =
      record { id = identity namespace kind name; path = file; source = override }
      ∷ override_offers rest

  -- The overrides first, then the roots in order, each root's entries in the order of their names.
  abbrev pub offers : List SearchRoot → List (PluginName × Text) → Result (List Offer) ErrorKind
  offers roots overrides = do os ← root_offers roots; ok (override_offers overrides ++ os)

  run-append :
      (found : Found) (os ps : List Offer) → run fs found (os ++ ps) ≡ run fs (run fs found os) ps
  unfolding run
  run-append found [] ps = refl
  run-append found (o ∷ os) ps = run-append (add_offer fs found o) os ps

  scan_entries-eq-run :
      (root : SearchRoot) (found : Found) (es : List Text)
      → scan_entries fs namespace kind root found es ≡ run fs found (entry_offers root es)
  unfolding scan_entries scan_entry run
  scan_entries-eq-run root found [] = refl
  scan_entries-eq-run root found (e ∷ es) =
      ap (λ f. scan_entries fs namespace kind root f es)
        (scan_entry-eq-run (plugin_name_at fs namespace kind (join root.path e)) refl)
      ∙ scan_entries-eq-run root (run fs found made) es
      ∙ sym (run-append found made (entry_offers root es))
    where
      made : List Offer
      made = offer_of root (join root.path e) (plugin_name_at fs namespace kind (join root.path e))

      scan_entry-eq-run :
          (n : Option PluginName)
          → plugin_name_at fs namespace kind (join root.path e) ≡ n
          → scan_entry fs namespace kind root found e ≡ run fs found made
      scan_entry-eq-run none p = rw (p, scan_entry, made)
      scan_entry-eq-run (some n) p = rw (p, scan_entry, made)

  add_overrides-eq-run :
      (found : Found) (ovs : List (PluginName × Text))
      → add_overrides fs namespace kind found ovs ≡ run fs found (override_offers ovs)
  unfolding add_overrides run
  add_overrides-eq-run found [] = refl
  add_overrides-eq-run found ((name, file) ∷ rest) =
      add_overrides-eq-run (add fs found (identity namespace kind name) file override) rest

  abbrev after : Found → Result (List Offer) ErrorKind → Result Found ErrorKind
  after found (ok os) = ok (run fs found os)
  after found (err e) = err e

  join_after :
      (found : Found) (root : SearchRoot) (es : List (Option Text))
      (r : Result (List Offer) ErrorKind)
      → after
          (scan_entries fs namespace kind root found (sort_by_key (λ (e : Text). e) (readable es)))
          r
        ≡ after found
            (r >>= λ os. ok (entry_offers root (sort_by_key (λ (e : Text). e) (readable es)) ++ os))
  join_after found root es (ok os) =
      ap ok (ap (λ f. run fs f os) (scan_entries-eq-run root found _) ∙ sym (run-append found _ os))
  join_after found root es (err e) = refl

  scan_roots-eq-after :
      (found : Found) (roots : List SearchRoot)
      → scan_roots fs namespace kind found roots ≡ after found (root_offers roots)
  unfolding scan_roots run
  scan_roots-eq-after found [] = refl
  scan_roots-eq-after found (root ∷ roots) =
      go (fs.read_dir root.path) refl (λ f. scan_roots-eq-after f roots)
    where
      go :
          (r : ReadDir)
          → fs.read_dir root.path ≡ r
          → ((f : Found) → scan_roots fs namespace kind f roots ≡ after f (root_offers roots))
          → scan_roots fs namespace kind found (root ∷ roots)
            ≡ after found (root_offers (root ∷ roots))
      go (failed e) p ih = elim (Bool-cases (is_skipped e)) [
        | inl skip ↦ ground (arith, p, skip, ih found)
        | inr stop ↦ ground (arith, p, stop)
      ]
      go (entries es) p ih =
          rw (p, scan_roots, root_offers)
            (ih (
                scan_entries fs namespace kind root found
                  (sort_by_key (λ (e : Text). e) (readable es)))
              ∙ join_after found root es (root_offers roots))

  abbrev pub Outcome : Type 0
  Outcome = Result DiscoverySet ErrorKind

  abbrev pub finished : List SearchRoot → Result (List Offer) ErrorKind → Outcome
  finished roots (ok os) = ok (finish fs namespace kind roots (run fs start os))
  finished roots (err e) = err e

  pub discover-eq-finished :
      (roots : List SearchRoot) (overrides : List (PluginName × Text))
      → discover_in_roots fs namespace kind roots overrides
        ≡ finished roots (offers roots overrides)
  unfolding discover_in_roots
  discover-eq-finished roots overrides =
      rw (scan_roots-eq-after, add_overrides-eq-run) (go (root_offers roots))
    where
      go :
          (r : Result (List Offer) ErrorKind)
          → (after (run fs start (override_offers overrides)) r >>= λ found.
              ok (finish fs namespace kind roots found))
            ≡ finished roots (r >>= λ os. ok (override_offers overrides ++ os))
      go (ok os) = ap ok (ap (finish fs namespace kind roots) (sym (run-append start _ os)))
      go (err e) = refl
