-- ===== src/Derive/Emission/ReadBack.antt =====
-- The values of a field can be read back from the arguments that its code appends.
use mathlib.Core.List.{append-nil, append_assoc}
use outboard.Prelude.{
  ℕ, Text, codes, ◌≡◌, ◌≢◌, refl, sym, ap, ◌∙◌, Bool, true, false, ◌==◌, nat_eq, list_eq, List, [],
  ◌∷◌, ◌++◌, map, Option, none, some, and_then, strip_prefix, strip_prefix-append, if◌then◌else◌,
  All, arith, ==_refl,
}
use outboard.Derive.Config.{FieldCfg}
use outboard.Derive.Emission.{
  Item, push_value, conversion, separated, joined, push_each, push_all, emit_vector,
}

-- A text cut at each occurrence of a character.
abbrev in_first : ℕ → List Text → List Text
in_first c [] = (c ∷ []) ∷ []
in_first c (w ∷ ws) = (c ∷ w) ∷ ws

abbrev pub cut_at : ℕ → Text → List Text
cut_at delim [] = [] ∷ []
cut_at delim (c ∷ s) =
    let rest = cut_at delim s in if c == delim then [] ∷ rest else in_first c rest

abbrev pub Free : ℕ → Text → Type 0
Free delim v = All (λ c. c ≢ delim) v

cut_at-Free : (delim : ℕ) (v : Text) → Free delim v → cut_at delim v ≡ v ∷ []
cut_at-Free delim [] h = refl
cut_at-Free delim (c ∷ v) (p, h) = ground (arith, cut_at-Free delim v h)

cut_at-append :
    (delim : ℕ) (v s : Text) → Free delim v → cut_at delim (v ++ delim ∷ s) ≡ v ∷ cut_at delim s
cut_at-append delim [] s h = ground (arith, ==_refl delim)
cut_at-append delim (c ∷ v) s (p, h) = ground (arith, cut_at-append delim v s h)

cut_at-joined :
    (delim : ℕ) (v : Text) (vs : List Text)
    → All (Free delim) (v ∷ vs)
    → cut_at delim (joined delim (v ∷ vs)) ≡ v ∷ vs
cut_at-joined delim v [] (p, h) = cut_at-Free delim v p
cut_at-joined delim v (w ∷ vs) (p, h) =
    cut_at-append delim v (joined delim (w ∷ vs)) p ∙ ap (λ t. v ∷ t) (cut_at-joined delim w vs h)

-- The values behind the occurrences of a flag.
abbrev pub flag_values : Option Text → Bool → List Text → Option (List Text)
flag_values none equals argv = some argv
flag_values (some flag) true [] = some []
flag_values (some flag) true (a ∷ rest) =
    let more = flag_values (some flag) true rest in
    and_then (strip_prefix (flag ++ codes "=") a) (λ v. and_then more (λ vs. some (v ∷ vs)))
flag_values (some flag) false [] = some []
flag_values (some flag) false (f ∷ []) = none
flag_values (some flag) false (f ∷ v ∷ rest) =
    let more = flag_values (some flag) false rest in
    if f == flag then and_then more (λ vs. some (v ∷ vs)) else none

push_each-none : (equals : Bool) (vs : List Text) → push_each none equals vs ≡ vs
push_each-none equals [] = refl
push_each-none equals (v ∷ vs) = ap (λ t. v ∷ t) (push_each-none equals vs)

flag_values-push_each :
    (flag : Option Text) (equals : Bool) (vs : List Text)
    → flag_values flag equals (push_each flag equals vs) ≡ some vs
flag_values-push_each none equals vs = ap some (push_each-none equals vs)
flag_values-push_each (some flag) true [] = refl
flag_values-push_each (some flag) true (v ∷ vs) =
    let stripped : strip_prefix (flag ++ codes "=") (flag ++ (codes "=" ++ v)) ≡ some v =
      ap (strip_prefix (flag ++ codes "=")) (sym (append_assoc flag (codes "=") v))
      ∙ strip_prefix-append (flag ++ codes "=") v in
    ground (arith, stripped, flag_values-push_each (some flag) true vs)
flag_values-push_each (some flag) false [] = refl
flag_values-push_each (some flag) false (v ∷ vs) =
    ground (arith, ==_refl flag, flag_values-push_each (some flag) false vs)

-- The arguments behind the separator, where there is one.
abbrev pub behind_separator : Bool → List Text → Option (List Text)
behind_separator false argv = some argv
behind_separator true [] = some []
behind_separator true (a ∷ rest) = if a == codes "--" then some rest else none

abbrev pub uncut : Option ℕ → List Text → List Text
uncut none vs = vs
uncut (some delim) [] = []
uncut (some delim) (v ∷ vs) = cut_at delim v

-- What the arguments of a field say, read by the field's own configuration.
abbrev pub read_values : Option Text → FieldCfg → Bool → List Text → Option (List Text)
read_values flag cfg separator argv = and_then (behind_separator separator argv) (λ rest.
    and_then (flag_values flag cfg.require_equals rest) (λ vs. some (uncut cfg.value_delimiter vs)))

unseparated :
    (separator : Bool) (argv : List Text)
    → behind_separator separator (separated separator argv) ≡ some argv
unseparated true argv = refl
unseparated false argv = refl

read_all :
    (flag : Option Text) (equals : Bool) (delim : Option ℕ) (v : Text) (vs : List Text)
    → ((d : ℕ) → delim ≡ some d → All (Free d) (v ∷ vs))
    → and_then
        (flag_values flag equals (push_all flag equals delim (v ∷ vs)))
        (λ ws. some (uncut delim ws))
      ≡ some (v ∷ vs)
read_all flag equals none v vs h =
    ap (λ o. and_then o (λ ws. some (uncut none ws))) (flag_values-push_each flag equals (v ∷ vs))
read_all flag equals (some d) v vs h =
    ap (λ argv. and_then (flag_values flag equals argv) (λ ws. some (uncut (some d) ws)))
      (sym (append-nil (push_value (joined d (v ∷ vs)) flag equals)))
    ∙ ap (λ o. and_then o (λ ws. some (uncut (some d) ws)))
        (flag_values-push_each flag equals (joined d (v ∷ vs) ∷ []))
    ∙ ap some (cut_at-joined d v vs (h d refl))

read_none :
    (flag : Option Text) (equals separator : Bool) (delim : Option ℕ)
    → and_then
        (behind_separator separator [])
        (λ rest. and_then (flag_values flag equals rest) (λ vs. some (uncut delim vs)))
      ≡ some []
read_none none equals true none = refl
read_none none equals true (some d) = refl
read_none none equals false none = refl
read_none none equals false (some d) = refl
read_none (some f) true true none = refl
read_none (some f) true true (some d) = refl
read_none (some f) true false none = refl
read_none (some f) true false (some d) = refl
read_none (some f) false true none = refl
read_none (some f) false true (some d) = refl
read_none (some f) false false none = refl
read_none (some f) false false (some d) = refl

-- The arguments that the code of a field of several values appends, read by the configuration of
-- the field, give back the text of each value, in order, for every flag, separator and delimiter,
-- where no text holds the delimiter, if there is one.
pub emit_vector-read :
    (flag : Option Text) (cfg : FieldCfg) (separator : Bool) (items : List Item)
    → ((d : ℕ) → cfg.value_delimiter ≡ some d → All (Free d) (map (conversion cfg) items))
    → read_values flag cfg separator (emit_vector flag cfg separator items)
      ≡ some (map (conversion cfg) items)
unfolding emit_vector
emit_vector-read flag cfg separator [] h =
    read_none flag cfg.require_equals separator cfg.value_delimiter
emit_vector-read flag cfg separator (i ∷ items) h =
    ap
      (λ o. and_then o (λ rest.
        and_then (flag_values flag cfg.require_equals rest)
          (λ vs. some (uncut cfg.value_delimiter vs))))
      (unseparated separator
        (push_all flag cfg.require_equals cfg.value_delimiter (map (conversion cfg) (i ∷ items))))
    ∙ read_all flag cfg.require_equals cfg.value_delimiter (conversion cfg i)
        (map (conversion cfg) items) h
