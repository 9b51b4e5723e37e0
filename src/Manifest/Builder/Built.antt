-- ===== src/Manifest/Builder/Built.antt =====
-- What a built manifest is good for.
use mathlib.Core.Path.{subst}
use outboard.Prelude.{true, inr, ◌≡◌, ◌↔◌, [], ◌∷◌, some, inl, ok, refl, arith}
use outboard.Crates.{Crates}
use outboard.Id.{PluginId}
use outboard.Id.Valid.{IsIdentifier, IsPluginId}
use outboard.Manifest.{
  Manifest, InterfaceManifest, InterfaceRequirement, PluginRequirement, one_shot, worker,
}
use outboard.Manifest.Validate.{validate_iff, IsValid}
use outboard.Manifest.Compatibility.{compatibility_issues}
use outboard.Manifest.Compatibility.Sound.{compatibility_iff}
use outboard.Manifest.Builder.{new_builder, interface, execution, build}

module _ (lib : Crates) where
  open lib use {Version, matches}

  -- `build` succeeds exactly on valid manifests, and gives the manifest back unchanged.
  pub build_iff : (m r : Manifest lib) → (build lib m ≡ ok r) ↔ (IsValid lib m × (m ≡ r))
  unfolding build
  build_iff m r = (
    λ h. ((validate_iff lib m).0 (ground arith), ground arith),
    λ h. ground (arith, (validate_iff lib m).1 h.0, h.1),
  )

  IsValid-new_builder :
      (id : PluginId) (version : Version) → IsPluginId id → IsValid lib (new_builder lib id version)
  unfolding new_builder
  IsValid-new_builder id version v = record {
    supported = refl;
    identity = v;
    runs = λ e. cc;
    interface_ids_valid = tt;
    interface_ids_distinct = tt;
    capability_ids_valid = tt;
    capability_ids_distinct = tt;
  }

  abbrev pub worker_plugin : PluginId → Version → InterfaceManifest lib → Manifest lib
  worker_plugin id version i =
      execution lib (one_shot ∷ worker ∷ []) (interface lib i (new_builder lib id version))

  abbrev pub worker_requirement : PluginId → InterfaceRequirement lib → PluginRequirement lib
  worker_requirement id r = record {
    kind = id.kind;
    name = some id.name;
    interface = some r;
    capabilities = [];
    execution = some worker;
  }

  -- The interface has the required name and an accepted version.
  abbrev Fits : InterfaceManifest lib → InterfaceRequirement lib → Type 0
  Fits i r = (i.id ≡ r.id) × (matches r.version i.version ≡ true)

  -- A worker plugin that is built with one interface meets the requirement of a host of the same
  -- framework for a worker of its kind and name, exactly when the interface has the required name
  -- and an accepted version.
  pub compatibility_issues-worker_plugin :
      (id : PluginId) (version : Version) (i : InterfaceManifest lib) (r : InterfaceRequirement lib)
      → IsPluginId id
      → IsIdentifier true i.id
      → (compatibility_issues lib (worker_plugin id version i) (worker_requirement id r) ≡ [])
        ↔ ((i.id ≡ r.id) × (matches r.version i.version ≡ true))
  unfolding new_builder interface execution
  compatibility_issues-worker_plugin id version i r vid vi = (
    λ h. elim (((compatibility_iff lib _ _ valid).0 h).interface r refl) [
      | inl here ↦ here
      | inr later ↦ absurd later
    ],
    λ h. (compatibility_iff lib _ _ valid).1 (record {
      framework = lib.framework_accepted;
      name = λ n e. cc;
      kind = refl;
      mode = λ x e. inr (inl (cc));
      interface = λ q e. let same : r ≡ q = cc in inl (subst (Fits i) same h);
      capabilities = tt;
      protocol = λ _. lib.protocol_accepted;
    }),
  )
    where
      valid : IsValid lib (worker_plugin id version i)
      valid = record {
        supported = refl;
        identity = vid;
        runs = λ e. cc;
        interface_ids_valid = (vi, tt);
        interface_ids_distinct = (tt, tt);
        capability_ids_valid = tt;
        capability_ids_distinct = tt;
      }
