-- ===== src/Protocol/Wire.antt =====
-- The transport of OS strings loses nothing.
use outboard.Prelude.{
  Text, ◌≡◌, ◌↔◌, refl, sym, ap, ◌∙◌, subst, List, [], ◌∷◌, map, true, ok, All, arith, Bool-cases,
  inl, inr, if◌then◌else◌,
}
use outboard.Crates.{Crates}
use outboard.FileSystem.{is_utf8}
use outboard.Protocol.Framing.{Codec}
use outboard.Protocol.{
  WireOsString, utf8, unix, windows, from_os, into_os, all_into_os, InvokeRequest, args_os,
}

into_os-from_os : (v : Text) → into_os (from_os v) ≡ ok v
unfolding into_os from_os
into_os-from_os v = ground arith

all_into_os-from_os : (vs : List Text) → all_into_os (map from_os vs) ≡ ok vs
unfolding all_into_os
all_into_os-from_os [] = refl
all_into_os-from_os (v ∷ vs) = rw (into_os-from_os v, all_into_os-from_os vs)

-- What JSON can carry: text that is UTF-8, and lists of numbers.
abbrev pub Carried : WireOsString → Type 0
Carried (utf8 s) = is_utf8 s ≡ true
Carried (unix b) = Unit
Carried (windows w) = Unit

from_os-Carried : (v : Text) → Carried (from_os v)
unfolding from_os
from_os-Carried v = elim (Bool-cases (is_utf8 v)) [
  | inl plain ↦ subst (λ b. Carried (if b then utf8 v else unix v)) (sym plain) plain
  | inr odd ↦ subst (λ b. Carried (if b then utf8 v else unix v)) (sym odd) tt
]

all_from_os-Carried : (vs : List Text) → All Carried (map from_os vs)
all_from_os-Carried [] = tt
all_from_os-Carried (v ∷ vs) = (from_os-Carried v, all_from_os-Carried vs)

-- When JSON gives back every list of OS strings whose text is UTF-8, then arguments that a host
-- puts into a request and that JSON encodes are decoded, and come out unchanged at a plugin of the
-- same platform, whatever their bytes.
pub args_os-from_os :
    (lib : Crates) (codec : Codec (List WireOsString)) (args : List Text) (b : Text)
    → ((wire : List WireOsString) (b : Text)
        → All Carried wire
        → codec.to_vec wire ≡ ok b
        → codec.from_slice b ≡ ok wire)
    → codec.to_vec (map from_os args) ≡ ok b
    → (received : List WireOsString) × (codec.from_slice b ≡ ok received)
      × ((request : InvokeRequest lib) → request.args ≡ received → args_os lib request ≡ ok args)
unfolding args_os
args_os-from_os lib codec args b trips encoded = (
  map from_os args,
  trips (map from_os args) b (all_from_os-Carried args) encoded,
  λ request h. ap all_into_os h ∙ all_into_os-from_os args,
)

-- Text goes as text exactly when it is UTF-8.
pub from_os-utf8_iff : (v : Text) → (from_os v ≡ utf8 v) ↔ (is_utf8 v ≡ true)
unfolding from_os
from_os-utf8_iff v = (λ h. ground arith, λ h. ground arith)
