-- ===== src/Prelude/Int.antt =====
-- Signed integers and their order. `negsuc n` is -(n + 1).
use Prim.Native.Nat.{ℕ, compare, Ordering}
use mathlib.Core.Path.{◌≡◌, refl}
use mathlib.Core.Logic.{◌↔◌}
use native.Mathlib.Omega.{arith}
use outboard.Prelude.Order.{Ord, compare_iff, compare_swap, compare_trans}

pub data ℤ : Type 0 where
  pos : ℕ → ℤ
  negsuc : ℕ → ℤ

abbrev pub int_cmp : ℤ → ℤ → Ordering
int_cmp (pos a) (pos b) = compare a b
int_cmp (pos a) (negsuc b) = Ordering.gt
int_cmp (negsuc a) (pos b) = Ordering.lt
int_cmp (negsuc a) (negsuc b) = compare b a

pub int_cmp_iff : (x y : ℤ) → (int_cmp x y ≡ Ordering.eq) ↔ (x ≡ y)
int_cmp_iff (pos a) (pos b) = (λ h. ground (arith, compare_iff a b), λ h. ground arith)
int_cmp_iff (pos a) (negsuc b) = (λ h. cc, λ h. cc)
int_cmp_iff (negsuc a) (pos b) = (λ h. cc, λ h. cc)
int_cmp_iff (negsuc a) (negsuc b) = (λ h. ground (arith, compare_iff b a), λ h. ground arith)

pub int_cmp_swap : (x y : ℤ) → int_cmp x y ≡ Ordering.gt → int_cmp y x ≡ Ordering.lt
int_cmp_swap (pos a) (pos b) h = compare_swap a b h
int_cmp_swap (pos a) (negsuc b) h = refl
int_cmp_swap (negsuc a) (pos b) h = cc
int_cmp_swap (negsuc a) (negsuc b) h = compare_swap b a h

pub int_cmp_trans :
    (x y z : ℤ) → int_cmp x y ≡ Ordering.lt → int_cmp y z ≡ Ordering.lt → int_cmp x z ≡ Ordering.lt
int_cmp_trans (pos a) (pos b) (pos c) h k = compare_trans a b c h k
int_cmp_trans (pos a) (pos b) (negsuc c) h k = cc
int_cmp_trans (pos a) (negsuc b) z h k = cc
int_cmp_trans (negsuc a) (pos b) (pos c) h k = refl
int_cmp_trans (negsuc a) (pos b) (negsuc c) h k = cc
int_cmp_trans (negsuc a) (negsuc b) (pos c) h k = refl
int_cmp_trans (negsuc a) (negsuc b) (negsuc c) h k = compare_trans c b a k h

instance abbrev pub int_ord : Ord ℤ
int_ord = record {
  cmp = int_cmp;
  cmp_iff = int_cmp_iff;
  cmp_swap = int_cmp_swap;
  cmp_trans = int_cmp_trans;
}

-- The order from the greatest down.
pub record Down : Type 0 where
  pub value : ℤ

pub down_iff : (x y : Down) → (int_cmp y.value x.value ≡ Ordering.eq) ↔ (x ≡ y)
down_iff x y = (
  λ h. ground (arith, int_cmp_iff y.value x.value),
  λ h. ground (arith, int_cmp_iff y.value x.value),
)

instance abbrev pub down_ord : Ord Down
down_ord = record {
  cmp = λ x y. int_cmp y.value x.value;
  cmp_iff = down_iff;
  cmp_swap = λ x y h. int_cmp_swap y.value x.value h;
  cmp_trans = λ x y z h k. int_cmp_trans z.value y.value x.value k h;
}
