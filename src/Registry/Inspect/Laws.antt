-- ===== src/Registry/Inspect/Laws.antt =====
-- What `inspect` answers, and what it leaves in the cache.
use outboard.Prelude.{
  ℕ, Text, codes, ◌≡◌, ◌≢◌, ◌↔◌, ◌⊎◌, inl, inr, refl, sym, subst, true, ==_iff, nat_eq, list_eq, [],
  ◌∷◌, none, some, Result, ok, err, arith, Option-cases, Result-cases, text_ord,
}
use outboard.BtreeMap.{same_key_iff}
use outboard.Crates.{Crates}
use outboard.Id.{PluginId, plugin_id_eq}
use outboard.Discovery.{PluginCandidate}
use outboard.Manifest.{Manifest}
use outboard.Manifest.Validate.{validate, IsValid, validate_iff}
use outboard.Process.{CapturedOutput, ProcessError, run_capture_args}
use outboard.Cache
use outboard.Cache.{
  insert_entry, invalidate_entry, fingerprint, Fingerprint, key, fingerprint_beq,
  fingerprint_beq_iff,
}
use outboard.Cache.Laws.{get-insert_entry, get-invalidate_entry}
use outboard.Cache.Persist
use outboard.Cache.Persist.{Store}
use outboard.Registry.{Registry, InspectedPlugin, identity_mismatch, Host}
use outboard.Registry.Inspect.{inspect, inspect_manifest_at, accepted}

module _ (lib : Crates) (host : Host lib) where
  insert-cache :
      (s : Store lib) (path : Text) (m : Manifest lib)
      → (Cache.Persist.insert lib host.codec host.digest host.fs host.faults s path m).cache
        ≡ insert_entry lib host.digest host.fs s.cache path m
  unfolding Cache.Persist.insert insert_entry
  insert-cache s path m = ground arith

  invalidate-cache :
      (s : Store lib) (path : Text)
      → (Cache.Persist.invalidate lib host.codec host.digest host.fs host.faults s path).cache
        ≡ invalidate_entry lib host.digest host.fs s.cache path
  unfolding Cache.Persist.invalidate invalidate_entry
  invalidate-cache s path = ground arith

  get-insert :
      (s : Store lib) (path : Text) (m : Manifest lib) (fp : Fingerprint)
      → s.cache.enabled ≡ true
      → fingerprint host.fs path ≡ some fp
      → Cache.get lib host.digest host.fs
          (Cache.Persist.insert lib host.codec host.digest host.fs host.faults s path m).cache
          path
        ≡ some m
  get-insert s path m fp on seen = ground (
    arith,
    insert-cache s path m,
    get-insert_entry lib host.digest host.fs host.fs s.cache path path m fp on seen,
    fingerprint_beq_iff fp fp,
    same_key_iff (key host.digest host.fs path) (key host.digest host.fs path),
  )

  accepted_iff :
      (id : PluginId) (path : Text) (m n : Manifest lib)
      → (accepted lib host id path m ≡ ok n) ↔ ((m ≡ n) × IsValid lib n × (n.plugin.id ≡ id))
  accepted_iff id path m n = (
    λ h. elim (Result-cases (validate lib m)) [
      | inr (e, p) ↦ ground arith
      | inl (done, p) ↦
          let valid = (validate_iff lib m).0 p in
          let e : m ≡ n = ground arith in
          subst (λ x. (m ≡ x) × IsValid lib x × (x.plugin.id ≡ id)) e
            (refl, valid, ground (arith, ==_iff m.plugin.id id))
    ],
    λ (e, valid, same).
        let p = (validate_iff lib n).1 valid in
        subst (λ x. accepted lib host id path x ≡ ok n) (sym e)
          (ground (arith, ==_iff n.plugin.id id)),
  )

  -- A manifest is what a plugin reports under an identity exactly when the plugin exits with
  -- status 0, its output decodes to the manifest, and the manifest is valid and declares the
  -- identity.
  pub inspect_manifest_at_iff :
      (id : PluginId) (path : Text) (timeout : ℕ) (m : Manifest lib)
      → (inspect_manifest_at lib host id path timeout ≡ ok m) ↔ (
          (out : CapturedOutput) × (run_capture_args host.spawned path
              (codes "__outboard" ∷ codes "manifest" ∷ [])
              none
              timeout
            ≡ ok out)
          × (out.status ≡ 0)
          × (host.decode out.stdout ≡ ok m)
          × (IsValid lib m)
          × (m.plugin.id ≡ id))
  unfolding inspect_manifest_at
  inspect_manifest_at_iff id path timeout m = (
    λ h. elim (Result-cases run) [
      | inr (e, p) ↦ ground arith
      | inl (out, p) ↦ elim (Result-cases (host.decode out.stdout)) [
        | inr (e, q) ↦ ground arith
        | inl (n, q) ↦
            let parts = (accepted_iff id path n m).0 (ground arith) in
            (out, p, ground arith, ground arith, parts.1, parts.2)
      ]
    ],
    λ (out, p, done, q, valid, same).
        let good = (accepted_iff id path m m).1 (refl, valid, same) in ground arith,
  )
    where
      run : Result CapturedOutput ProcessError
      run =
          run_capture_args host.spawned path (codes "__outboard" ∷ codes "manifest" ∷ []) none
            timeout

  -- A candidate that passes has its own identity in its manifest, which was kept in the cache or
  -- which its executable reported.
  pub inspect-ok :
      (r : Registry lib) (c : PluginCandidate) {i : InspectedPlugin lib}
      → (inspect lib host r c).0 ≡ ok i
      → (i.candidate ≡ c)
        × (i.manifest.plugin.id ≡ c.id)
        × ((Cache.get lib host.digest host.fs r.store.cache c.path ≡ some i.manifest)
            ⊎ (inspect_manifest_at lib host c.id c.path r.control_timeout ≡ ok i.manifest))
  unfolding inspect
  inspect-ok r c {i} h =
      elim (Option-cases (Cache.get lib host.digest host.fs r.store.cache c.path)) [
        | inr (m, p) ↦ ground (arith, ==_iff m.plugin.id c.id)
        | inl p ↦ elim (Result-cases (inspect_manifest_at lib host c.id c.path r.control_timeout)) [
          | inl (m, q) ↦ ground (arith, ==_iff m.plugin.id c.id)
          | inr (e, q) ↦ ground arith
        ]
      ]

  -- A candidate that passes, in a cache that is enabled and at a path with a fingerprint, passes
  -- again with the same manifest, without its executable being asked, and nothing more changes.
  pub inspect-again :
      (r : Registry lib) (c : PluginCandidate) {i : InspectedPlugin lib} {fp : Fingerprint}
      → (inspect lib host r c).0 ≡ ok i
      → r.store.cache.enabled ≡ true
      → fingerprint host.fs c.path ≡ some fp
      → let after = (inspect lib host r c).1 in
        (Cache.get lib host.digest host.fs after.store.cache c.path ≡ some i.manifest)
        × (inspect lib host after c ≡ (ok i, after))
  unfolding inspect
  inspect-again r c {i} {fp} h on seen =
      elim (Option-cases (Cache.get lib host.digest host.fs r.store.cache c.path)) [
        | inr (m, p) ↦ ground (arith, ==_iff m.plugin.id c.id)
        | inl p ↦ elim (Result-cases (inspect_manifest_at lib host c.id c.path r.control_timeout)) [
          | inr (e, q) ↦ ground arith
          | inl (m, q) ↦
              let e = get-insert r.store c.path m fp on seen in
              ground (arith, ==_iff m.plugin.id c.id)
        ]
      ]

  -- A kept manifest with another identity than the candidate is dropped.
  pub inspect-mismatch :
      (r : Registry lib) (c : PluginCandidate) {m : Manifest lib}
      → Cache.get lib host.digest host.fs r.store.cache c.path ≡ some m
      → m.plugin.id ≢ c.id
      → let answer = inspect lib host r c in
        (answer.0 ≡ err (identity_mismatch c.path c.id m.plugin.id))
        × (Cache.get lib host.digest host.fs answer.1.store.cache c.path ≡ none)
  unfolding inspect
  inspect-mismatch r c {m} kept other = ground (
    arith,
    ==_iff m.plugin.id c.id,
    invalidate-cache r.store c.path,
    get-invalidate_entry lib host.digest host.fs host.fs r.store.cache c.path c.path,
    same_key_iff (key host.digest host.fs c.path) (key host.digest host.fs c.path),
  )
