-- ===== src/BtreeMap/Sorted.antt =====
-- The keys of a map stand in strictly rising order, so each has one entry.
use Prim.Native.Nat.{Ordering}
use outboard.Prelude.{◌≡◌, refl, Option, none, some, List, [], ◌∷◌, arith, Ord, filter}
use outboard.BtreeMap.{BtreeMap, same_key, get, insert, values}

abbrev pub option_list {ℓ} : {A : Type ℓ} → Option A → List A
option_list none = []
option_list (some v) = v ∷ []

module _ {ℓ κ} {K : Type ℓ} {V : Type κ} ⦃o : Ord K⦄ where
  abbrev pub Below : K → BtreeMap K V → Type 0
  Below k [] = Unit
  Below k ((j, v) ∷ m) = (o.cmp k j ≡ Ordering.lt) × Below k m

  abbrev pub IsSorted : BtreeMap K V → Type 0
  IsSorted [] = Unit
  IsSorted ((k, v) ∷ m) = Below k m × IsSorted m

  Below-insert :
      (j k : K) (v : V) (m : BtreeMap K V)
      → o.cmp j k ≡ Ordering.lt
      → Below j m
      → Below j (insert k v m)
  unfolding insert
  Below-insert j k v [] h b = (h, tt)
  Below-insert j k v ((i, w) ∷ m) h b = ground (arith, Below-insert j k v m h b.1)

  Below-trans : (j k : K) (m : BtreeMap K V) → o.cmp j k ≡ Ordering.lt → Below k m → Below j m
  Below-trans j k [] h b = tt
  Below-trans j k ((i, w) ∷ m) h b = (o.cmp_trans j k i h b.0, Below-trans j k m h b.1)

  pub IsSorted-insert : (k : K) (v : V) (m : BtreeMap K V) → IsSorted m → IsSorted (insert k v m)
  unfolding insert
  IsSorted-insert k v [] s = (tt, tt)
  IsSorted-insert k v ((j, w) ∷ m) s = ground (
    arith,
    IsSorted-insert k v m s.1,
    Below-insert j k v m,
    o.cmp_swap j k,
    o.cmp_iff j k,
    Below-trans k j m,
  )

  get-Below : (k : K) (m : BtreeMap K V) → Below k m → get k m ≡ none
  unfolding get
  get-Below k [] b = refl
  get-Below k ((j, w) ∷ m) b = ground (arith, o.cmp_iff j k, o.cmp_iff k k, get-Below k m b.1)

  -- Each value stands under the key that it has itself.
  abbrev pub IsKeyed : (V → K) → BtreeMap K V → Type ℓ
  IsKeyed key [] = Unit
  IsKeyed key ((k, v) ∷ m) = (key v ≡ k) × IsKeyed key m

  pub IsKeyed-insert :
      (key : V → K) (k : K) (v : V) (m : BtreeMap K V)
      → key v ≡ k
      → IsKeyed key m
      → IsKeyed key (insert k v m)
  unfolding insert
  IsKeyed-insert key k v [] e h = (e, tt)
  IsKeyed-insert key k v ((j, w) ∷ m) e h = ground (arith, IsKeyed-insert key k v m e h.1)

  pub key-get :
      (key : V → K) (k : K) (m : BtreeMap K V) {v : V}
      → IsKeyed key m
      → get k m ≡ some v
      → key v ≡ k
  unfolding get
  key-get key k [] h e = cc
  key-get key k ((j, w) ∷ m) {v} h e = ground (arith, o.cmp_iff j k, key-get key k m {v = v} h.1)

  values-Below :
      (key : V → K) (k : K) (m : BtreeMap K V)
      → IsKeyed key m
      → Below k m
      → filter (λ v. same_key (key v) k) (values m) ≡ []
  values-Below key k [] h b = refl
  values-Below key k ((j, w) ∷ m) h b =
      ground
        (arith, o.cmp_iff (key w) k, o.cmp_iff k k, o.cmp_iff k j, values-Below key k m h.1 b.1)

  -- The values with one key are what the map has for it.
  pub filter-values :
      (key : V → K) (k : K) (m : BtreeMap K V)
      → IsSorted m
      → IsKeyed key m
      → filter (λ v. same_key (key v) k) (values m) ≡ option_list (get k m)
  unfolding get
  filter-values key k [] s h = refl
  filter-values key k ((j, w) ∷ m) s h = ground (
    arith,
    o.cmp_iff (key w) k,
    o.cmp_iff j k,
    filter-values key k m s.1 h.1,
    values-Below key j m h.1 s.0,
  )
