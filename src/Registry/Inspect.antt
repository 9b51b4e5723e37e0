-- ===== src/Registry/Inspect.antt =====
-- `inspect` and `inspect_manifest_at` of crates/outboard-core/src/registry.rs.
pub mod Laws
use outboard.Prelude.{
  ℕ, Text, codes, ◌≡◌, Bool, true, false, not, ◌==◌, nat_eq, list_eq, List, [], ◌∷◌, Option, none,
  some, Result, ok, err, ◌>>=◌, map_err, if◌then◌else◌,
}
use outboard.Crates.{Crates}
use outboard.Id.{PluginId, plugin_id_eq}
use outboard.Discovery.{PluginCandidate}
use outboard.Manifest.{Manifest, ManifestError}
use outboard.Manifest.Validate.{validate}
use outboard.Process.{CapturedOutput, run_capture_args}
use outboard.Cache
use outboard.Cache.Persist
use outboard.Cache.Persist.{Store}
use outboard.Registry.{
  Registry, InspectedPlugin, RegistryError, process, manifest_command, manifest_json,
  manifest_invalid, identity_mismatch, Host,
}

module _ (lib : Crates) (host : Host lib) where
  -- The checks of `inspect_manifest_at` on a manifest that was decoded.
  abbrev pub accepted : PluginId → Text → Manifest lib → Result (Manifest lib) (RegistryError lib)
  accepted id path m = do
    checked ← map_err (λ (source : ManifestError). manifest_invalid path source) (validate lib m)
    if not (m.plugin.id == id) then err (identity_mismatch path id m.plugin.id) else ok m

  abbrev pub decoded : PluginId → Text → CapturedOutput → Result (Manifest lib) (RegistryError lib)
  decoded id path out =
      if not (out.status == 0)
      then err (manifest_command path (host.text out.stderr))
      else (map_err (λ (source : Text). manifest_json path source) (host.decode out.stdout) >>= λ m.
          accepted id path m)

  unfoldable pub inspect_manifest_at :
      PluginId → Text → ℕ → Result (Manifest lib) (RegistryError lib)
  inspect_manifest_at id path timeout = do
    out ← map_err process (
        run_capture_args host.spawned path (codes "__outboard" ∷ codes "manifest" ∷ []) none
          timeout)
    decoded id path out

  abbrev pub Inspection : Type 0
  Inspection = Result (InspectedPlugin lib) (RegistryError lib) × Registry lib

  abbrev pub with_store : Registry lib → Store lib → Registry lib
  with_store r s = record r { store = s }

  -- The end of `inspect`, once there is a manifest.
  abbrev pub identified : Registry lib → PluginCandidate → Manifest lib → Inspection
  identified r c m =
      if not (m.plugin.id == c.id)
      then (
        err (identity_mismatch c.path c.id m.plugin.id),
        with_store r (
            Cache.Persist.invalidate lib host.codec host.digest host.fs host.faults r.store c.path),
      )
      else (ok (record { candidate = c; manifest = m }), r)

  -- The manifest that the plugin reports goes into the cache.
  abbrev pub learned :
      Registry lib → PluginCandidate → Result (Manifest lib) (RegistryError lib) → Inspection
  learned r c (err e) = (err e, r)
  learned r c (ok m) =
      identified
        (with_store r
          (Cache.Persist.insert lib host.codec host.digest host.fs host.faults r.store c.path m))
        c m

  -- Registry::inspect
  unfoldable pub inspect : Registry lib → PluginCandidate → Inspection
  inspect r c = elim (Cache.get lib host.digest host.fs r.store.cache c.path) [
    | some m ↦ identified r c m
    | none ↦ learned r c (inspect_manifest_at c.id c.path r.control_timeout)
  ]
