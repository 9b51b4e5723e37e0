-- ===== src/Prelude/Order.antt =====
-- `Ord` of the source: a comparison whose equal case is equality. Derived orders are lexicographic.
use Prim.Native.Nat.{ℕ, compare, Ordering}
use mathlib.Core.Path.{◌≡◌, refl}
use mathlib.Core.Logic.{◌↔◌}
use mathlib.Core.Bool.{Bool, true, false}
use mathlib.Core.List.{[], ◌∷◌}
use native.Mathlib.Omega.{arith}
use outboard.Prelude.Bytes.{Text}

pub record Ord {ℓ} (A : Type ℓ) : Type ℓ where
  pub cmp : A → A → Ordering
  pub cmp_iff : (a b : A) → (cmp a b ≡ Ordering.eq) ↔ (a ≡ b)
  pub cmp_swap : (a b : A) → cmp a b ≡ Ordering.gt → cmp b a ≡ Ordering.lt
  pub cmp_trans :
      (a b c : A) → cmp a b ≡ Ordering.lt → cmp b c ≡ Ordering.lt → cmp a c ≡ Ordering.lt

pub compare_iff : (a b : ℕ) → (compare a b ≡ Ordering.eq) ↔ (a ≡ b)
compare_iff a b = ground arith

pub compare_swap : (a b : ℕ) → compare a b ≡ Ordering.gt → compare b a ≡ Ordering.lt
compare_swap a b h = ground arith

pub compare_trans :
    (a b c : ℕ) → compare a b ≡ Ordering.lt → compare b c ≡ Ordering.lt → compare a c ≡ Ordering.lt
compare_trans a b c h k = ground arith

-- Ordering::then
abbrev pub then_with : Ordering → Ordering → Ordering
then_with Ordering.eq o = o
then_with Ordering.lt o = Ordering.lt
then_with Ordering.gt o = Ordering.gt

abbrev pub is_eq : Ordering → Bool
is_eq Ordering.eq = true
is_eq Ordering.lt = false
is_eq Ordering.gt = false

pub then_with-eq_iff :
    (o p : Ordering) → (then_with o p ≡ Ordering.eq) ↔ ((o ≡ Ordering.eq) × (p ≡ Ordering.eq))
then_with-eq_iff Ordering.eq p = (λ h. (refl, h), λ h. h.1)
then_with-eq_iff Ordering.lt p = (λ h. cc, λ h. cc (h.0))
then_with-eq_iff Ordering.gt p = (λ h. cc, λ h. cc (h.0))

-- The order of byte strings.
abbrev pub text_cmp : Text → Text → Ordering
text_cmp [] [] = Ordering.eq
text_cmp [] (d ∷ t) = Ordering.lt
text_cmp (c ∷ s) [] = Ordering.gt
text_cmp (c ∷ s) (d ∷ t) = then_with (compare c d) (text_cmp s t)

pub text_cmp_iff : (s t : Text) → (text_cmp s t ≡ Ordering.eq) ↔ (s ≡ t)
text_cmp_iff [] [] = (λ _. refl, λ _. refl)
text_cmp_iff [] (d ∷ t) = (λ h. cc, λ h. cc)
text_cmp_iff (c ∷ s) [] = (λ h. cc, λ h. cc)
text_cmp_iff (c ∷ s) (d ∷ t) =
    (λ h. ground (arith, text_cmp_iff s t), λ h. ground (arith, text_cmp_iff s t))

pub text_cmp_swap : (s t : Text) → text_cmp s t ≡ Ordering.gt → text_cmp t s ≡ Ordering.lt
text_cmp_swap [] [] h = cc
text_cmp_swap [] (d ∷ t) h = cc
text_cmp_swap (c ∷ s) [] h = refl
text_cmp_swap (c ∷ s) (d ∷ t) h = ground (arith, text_cmp_swap s t)

pub text_cmp_trans :
    (s t u : Text)
    → text_cmp s t ≡ Ordering.lt
    → text_cmp t u ≡ Ordering.lt
    → text_cmp s u ≡ Ordering.lt
text_cmp_trans [] t [] h k = ground arith
text_cmp_trans [] t (e ∷ u) h k = refl
text_cmp_trans (c ∷ s) [] u h k = cc
text_cmp_trans (c ∷ s) (d ∷ t) [] h k = cc
text_cmp_trans (c ∷ s) (d ∷ t) (e ∷ u) h k = ground (arith, text_cmp_trans s t u)

instance abbrev pub nat_ord : Ord ℕ
nat_ord = record {
  cmp = compare;
  cmp_iff = compare_iff;
  cmp_swap = compare_swap;
  cmp_trans = compare_trans;
}

instance abbrev pub text_ord : Ord Text
text_ord = record {
  cmp = text_cmp;
  cmp_iff = text_cmp_iff;
  cmp_swap = text_cmp_swap;
  cmp_trans = text_cmp_trans;
}

-- A lexicographic comparison of two keys has the laws.
module _ {ℓ κ} {A : Type ℓ} {B : Type κ} ⦃o : Ord A⦄ ⦃p : Ord B⦄ where
  pub then_with-swap :
      (a a' : A) (b b' : B)
      → then_with (o.cmp a a') (p.cmp b b') ≡ Ordering.gt
      → then_with (o.cmp a' a) (p.cmp b' b) ≡ Ordering.lt
  then_with-swap a a' b b' h =
      ground (arith, o.cmp_swap a a', o.cmp_iff a a', o.cmp_iff a' a, p.cmp_swap b b')

  pub then_with_trans :
      (a a' a'' : A) (b b' b'' : B)
      → then_with (o.cmp a a') (p.cmp b b') ≡ Ordering.lt
      → then_with (o.cmp a' a'') (p.cmp b' b'') ≡ Ordering.lt
      → then_with (o.cmp a a'') (p.cmp b b'') ≡ Ordering.lt
  then_with_trans a a' a'' b b' b'' h k = ground (
    arith,
    o.cmp_trans a a' a'',
    o.cmp_iff a a',
    o.cmp_iff a' a'',
    o.cmp_iff a a'',
    p.cmp_trans b b' b'',
  )

  abbrev pub pair_cmp : A × B → A × B → Ordering
  pair_cmp (a, b) (a', b') = then_with (o.cmp a a') (p.cmp b b')

  pub pair_cmp_iff : (x y : A × B) → (pair_cmp x y ≡ Ordering.eq) ↔ (x ≡ y)
  pair_cmp_iff (a, b) (a', b') = (
    λ h. ground (arith, o.cmp_iff a a', p.cmp_iff b b'),
    λ h. ground (arith, o.cmp_iff a a', p.cmp_iff b b'),
  )

  pub pair_cmp_swap : (x y : A × B) → pair_cmp x y ≡ Ordering.gt → pair_cmp y x ≡ Ordering.lt
  pair_cmp_swap (a, b) (a', b') h = then_with-swap a a' b b' h

  pub pair_cmp_trans :
      (x y z : A × B)
      → pair_cmp x y ≡ Ordering.lt
      → pair_cmp y z ≡ Ordering.lt
      → pair_cmp x z ≡ Ordering.lt
  pair_cmp_trans (a, b) (a', b') (a'', b'') h k = then_with_trans a a' a'' b b' b'' h k

  instance abbrev pub pair_ord : Ord (A × B)
  pair_ord = record {
    cmp = pair_cmp;
    cmp_iff = pair_cmp_iff;
    cmp_swap = pair_cmp_swap;
    cmp_trans = pair_cmp_trans;
  }
