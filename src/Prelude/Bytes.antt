-- ===== src/Prelude/Bytes.antt =====
-- Texts, OS strings and paths: the list of their bytes, which is how the source walks them.
use Prim.Native.Nat.{ℕ}
use Prim.Native.Char.{code}
use Prim.Native.String.{String}
use mathlib.Core.Path.{◌≡◌, refl}
use mathlib.Core.Bool.{Bool, true, false}
use mathlib.Core.Option.{Option, none, some}
use mathlib.Core.List.{List, [], ◌∷◌, ◌++◌}
use native.Mathlib.Omega.{arith}
use outboard.Prelude.Tests.{◌==◌, nat_eq, if◌then◌else◌}

abbrev pub Text : Type 0
Text = List ℕ

-- The bytes of an ASCII literal of the source.
abbrev pub codes : String → Text
codes String.[] = []
codes (String.◌∷◌ c s) = code c ∷ codes s

-- str::strip_prefix
abbrev pub strip_prefix : Text → Text → Option Text
strip_prefix [] s = some s
strip_prefix (p ∷ ps) [] = none
strip_prefix (p ∷ ps) (c ∷ s) = if p == c then strip_prefix ps s else none

pub strip_prefix-append : (p s : Text) → strip_prefix p (p ++ s) ≡ some s
strip_prefix-append [] s = refl
strip_prefix-append (c ∷ p) s = ground (arith, strip_prefix-append p s)

pub append_of_strip_prefix : (p s : Text) {r : Text} → strip_prefix p s ≡ some r → s ≡ p ++ r
append_of_strip_prefix [] s h = ground arith
append_of_strip_prefix (c ∷ p) [] h = cc
append_of_strip_prefix (c ∷ p) (d ∷ s) {r} h = ground (arith, append_of_strip_prefix p s {r = r})

-- str::starts_with and str::ends_with of one byte
abbrev pub starts_with : ℕ → Text → Bool
starts_with b [] = false
starts_with b (c ∷ s) = c == b

abbrev pub ends_with : ℕ → Text → Bool
ends_with b [] = false
ends_with b (c ∷ []) = c == b
ends_with b (c ∷ d ∷ s) = ends_with b (d ∷ s)

pub starts_with_lem : (b : ℕ) (s : Text) → starts_with b s ≡ true → (t : Text) × (s ≡ b ∷ t)
starts_with_lem b [] h = cc
starts_with_lem b (c ∷ s) h = (s, ground arith)

pub ends_with_lem : (b : ℕ) (s : Text) → ends_with b s ≡ true → (t : Text) × (s ≡ t ++ b ∷ [])
ends_with_lem b [] h = cc
ends_with_lem b (c ∷ []) h = ([], ground arith)
ends_with_lem b (c ∷ d ∷ s) h = let (t, e) = ends_with_lem b (d ∷ s) h in (c ∷ t, cc)

pub ends_with-append : (b : ℕ) (s : Text) → ends_with b (s ++ b ∷ []) ≡ true
ends_with-append b [] = ground arith
ends_with-append b (c ∷ []) = ground arith
ends_with-append b (c ∷ d ∷ s) = ends_with-append b (d ∷ s)
