-- ===== src/Prelude/Sort.antt =====
-- `sort_by_key`: a stable sort. Equal keys keep their order.
use Prim.Native.Nat.{Ordering}
use mathlib.Core.Path.{◌≡◌, refl, sym, subst}
use mathlib.Core.Logic.{◌≢◌}
use mathlib.Core.Bool.{Bool, true, false}
use mathlib.Core.List.{List, [], ◌∷◌}
use native.Mathlib.Omega.{arith}
use outboard.Prelude.Lists.{filter, All}
use outboard.Prelude.Order.{Ord}

module _ {ℓ κ} {A : Type ℓ} {K : Type κ} ⦃o : Ord K⦄ (key : A → K) where
  abbrev pub insert_sorted : A → List A → List A
  insert_sorted x [] = x ∷ []
  insert_sorted x (y ∷ ys) = elim (o.cmp (key x) (key y)) [
    | Ordering.gt ↦ y ∷ insert_sorted x ys
    | _ ↦ x ∷ y ∷ ys
  ]

  unfoldable pub sort_by_key : List A → List A
  sort_by_key [] = []
  sort_by_key (x ∷ xs) = insert_sorted x (sort_by_key xs)

  -- No key is greater than a later one.
  abbrev pub IsOrdered : List A → Type 0
  IsOrdered [] = Unit
  IsOrdered (x ∷ xs) = All (λ y. o.cmp (key x) (key y) ≢ Ordering.gt) xs × IsOrdered xs

  not_gt_trans :
      (a b c : K) → o.cmp a b ≢ Ordering.gt → o.cmp b c ≢ Ordering.gt → o.cmp a c ≢ Ordering.gt
  not_gt_trans a b c h k g = ground (
    arith,
    o.cmp_swap a c,
    o.cmp_trans c a b,
    o.cmp_trans c b c,
    o.cmp_iff a b,
    o.cmp_iff b c,
    o.cmp_iff c c,
  )

  not_gt_of_gt : (a b : K) → o.cmp a b ≡ Ordering.gt → o.cmp b a ≢ Ordering.gt
  not_gt_of_gt a b h g = ground (arith, o.cmp_swap a b)

  module _ {μ} (P : A → Type μ) where
    All-insert_sorted : (x : A) (ys : List A) → P x → All P ys → All P (insert_sorted x ys)
    All-insert_sorted x [] p h = (p, tt)
    All-insert_sorted x (y ∷ ys) p h = ground (arith, All-insert_sorted x ys p h.1)

    pub All-sort_by_key : (xs : List A) → All P xs → All P (sort_by_key xs)
    unfolding sort_by_key
    All-sort_by_key [] h = tt
    All-sort_by_key (x ∷ xs) (p, h) = All-insert_sorted x (sort_by_key xs) p (All-sort_by_key xs h)

  module _ {μ} (P : A → Type μ) where
    All-of-insert_sorted : (x : A) (ys : List A) → All P (insert_sorted x ys) → P x × All P ys
    All-of-insert_sorted x [] h = (h.0, tt)
    All-of-insert_sorted x (y ∷ ys) h = ground (arith, All-of-insert_sorted x ys)

    pub All-of-sort_by_key : (xs : List A) → All P (sort_by_key xs) → All P xs
    unfolding sort_by_key
    All-of-sort_by_key [] h = tt
    All-of-sort_by_key (x ∷ xs) h =
        let (p, rest) = All-of-insert_sorted x (sort_by_key xs) h in (p, All-of-sort_by_key xs rest)

  All-not_gt :
      (x y : A) (ys : List A)
      → o.cmp (key x) (key y) ≢ Ordering.gt
      → All (λ z. o.cmp (key y) (key z) ≢ Ordering.gt) ys
      → All (λ z. o.cmp (key x) (key z) ≢ Ordering.gt) ys
  All-not_gt x y [] h k = tt
  All-not_gt x y (z ∷ zs) h k =
      (not_gt_trans (key x) (key y) (key z) h k.0, All-not_gt x y zs h k.1)

  IsOrdered-insert_sorted : (x : A) (ys : List A) → IsOrdered ys → IsOrdered (insert_sorted x ys)
  IsOrdered-insert_sorted x [] h = (tt, tt)
  IsOrdered-insert_sorted x (y ∷ ys) h =
      go (o.cmp (key x) (key y)) refl (IsOrdered-insert_sorted x ys h.1)
    where
      stays :
          o.cmp (key x) (key y) ≢ Ordering.gt
          → insert_sorted x (y ∷ ys) ≡ x ∷ y ∷ ys
          → IsOrdered (insert_sorted x (y ∷ ys))
      stays low e = subst IsOrdered (sym e) ((low, All-not_gt x y ys low h.0), h)

      go :
          (r : Ordering)
          → o.cmp (key x) (key y) ≡ r
          → IsOrdered (insert_sorted x ys)
          → IsOrdered (insert_sorted x (y ∷ ys))
      go Ordering.gt e ih =
          let moved : insert_sorted x (y ∷ ys) ≡ y ∷ insert_sorted x ys = ground arith in
          subst IsOrdered (sym moved) (
            All-insert_sorted (λ z. o.cmp (key y) (key z) ≢ Ordering.gt) x ys
                (not_gt_of_gt (key x) (key y) e) h.0,
            ih,
          )
      go Ordering.lt e ih = stays (λ g. cc (e, g)) (ground arith)
      go Ordering.eq e ih = stays (λ g. cc (e, g)) (ground arith)

  pub IsOrdered-sort_by_key : (xs : List A) → IsOrdered (sort_by_key xs)
  unfolding sort_by_key
  IsOrdered-sort_by_key [] = tt
  IsOrdered-sort_by_key (x ∷ xs) =
      IsOrdered-insert_sorted x (sort_by_key xs) (IsOrdered-sort_by_key xs)

  module _ (p : A → Bool) where
    filter-insert_sorted-false :
        (x : A) (ys : List A) → p x ≡ false → filter p (insert_sorted x ys) ≡ filter p ys
    filter-insert_sorted-false x [] h = ground arith
    filter-insert_sorted-false x (y ∷ ys) h = ground (arith, filter-insert_sorted-false x ys h)

    filter-insert_sorted-true :
        (x : A) (ys : List A)
        → p x ≡ true
        → filter p ys ≡ []
        → filter p (insert_sorted x ys) ≡ x ∷ []
    filter-insert_sorted-true x [] h e = ground arith
    filter-insert_sorted-true x (y ∷ ys) h e = ground (arith, filter-insert_sorted-true x ys h)

    pub filter-sort_by_key_nil : (xs : List A) → filter p xs ≡ [] → filter p (sort_by_key xs) ≡ []
    unfolding sort_by_key
    filter-sort_by_key_nil [] e = refl
    filter-sort_by_key_nil (x ∷ xs) e =
        ground (arith, filter-insert_sorted-false x (sort_by_key xs), filter-sort_by_key_nil xs)

    -- Sorting does not lose the one element that passes a test.
    pub filter-sort_by_key_one :
        (xs : List A) {c : A} → filter p xs ≡ c ∷ [] → filter p (sort_by_key xs) ≡ c ∷ []
    unfolding sort_by_key
    filter-sort_by_key_one [] e = cc
    filter-sort_by_key_one (x ∷ xs) {c} e = ground (
      arith,
      filter-insert_sorted-false x (sort_by_key xs),
      filter-sort_by_key_one xs {c = c},
      filter-sort_by_key_nil xs,
      filter-insert_sorted-true x (sort_by_key xs),
    )
