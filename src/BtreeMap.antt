-- ===== src/BtreeMap.antt =====
-- `BTreeMap` of the standard library: entries in the order of their keys, one for each key.
-- The values that the program reads out of a map come by `get` or in the order of the entries.
pub mod Sorted
use Prim.Native.Nat.{Ordering}
use outboard.Prelude.{
  ◌≡◌, refl, ◌↔◌, Bool, true, Option, none, some, List, [], ◌∷◌, arith, if◌then◌else◌, Ord, is_eq,
}

abbrev pub BtreeMap {ℓ κ} : Type ℓ → Type κ → Type (ℓ ⊔ κ)
BtreeMap K V = List (K × V)

abbrev pub values {ℓ κ} : {K : Type ℓ} {V : Type κ} → BtreeMap K V → List V
values [] = []
values ((j, v) ∷ m) = v ∷ values m

module _ {ℓ} {K : Type ℓ} ⦃o : Ord K⦄ where
  abbrev pub same_key : K → K → Bool
  same_key j k = is_eq (o.cmp j k)

  pub same_key_iff : (j k : K) → (same_key j k ≡ true) ↔ (j ≡ k)
  same_key_iff j k = ground (arith, o.cmp_iff j k)

module _ {ℓ κ} {K : Type ℓ} {V : Type κ} ⦃o : Ord K⦄ where
  unfoldable pub get : K → BtreeMap K V → Option V
  get k [] = none
  get k ((j, v) ∷ m) = if same_key j k then some v else get k m

  -- `insert` keeps the order of the keys, and replaces the value of a key that is there.
  unfoldable pub insert : K → V → BtreeMap K V → BtreeMap K V
  insert k v [] = (k, v) ∷ []
  insert k v ((j, w) ∷ m) = elim (o.cmp j k) [
    | Ordering.lt ↦ (j, w) ∷ insert k v m
    | Ordering.eq ↦ (k, v) ∷ m
    | Ordering.gt ↦ (k, v) ∷ (j, w) ∷ m
  ]

  unfoldable pub remove : K → BtreeMap K V → BtreeMap K V
  remove k [] = []
  remove k ((j, v) ∷ m) = let rest = remove k m in if same_key j k then rest else (j, v) ∷ rest

  pub get-insert :
      (k j : K) (v : V) (m : BtreeMap K V)
      → get j (insert k v m) ≡ (if same_key k j then some v else get j m)
  unfolding get insert
  get-insert k j v [] = refl
  get-insert k j v ((i, w) ∷ m) =
      ground (arith, o.cmp_iff i k, o.cmp_iff k j, o.cmp_iff i j, get-insert k j v m)

  pub get-remove :
      (k j : K) (m : BtreeMap K V) → get j (remove k m) ≡ (if same_key k j then none else get j m)
  unfolding get remove
  get-remove k j [] = ground arith
  get-remove k j ((i, w) ∷ m) =
      ground (arith, o.cmp_iff i k, o.cmp_iff k j, o.cmp_iff i j, get-remove k j m)

  pub get-empty : (k : K) → get k [] ≡ none
  unfolding get
  get-empty k = refl

pub ruleset map_laws = (get-empty, get-insert, get-remove)
