-- ===== src/Derive/Emission.antt =====
-- `emit_field` of crates/outboard-clap-derive/src/lib.rs: what the code that the macro makes for a
-- field puts into the arguments; and `push_flag_value` of crates/outboard-clap/src/lib.rs.
pub mod ReadBack
use outboard.Prelude.{
  ℕ, zero, suc, Text, codes, ◌≡◌, Bool, true, false, not, ◌&&◌, ◌||◌, ◌==◌, nat_eq, list_eq, List,
  [], ◌∷◌, ◌++◌, map, Option, none, some, Result, ok, err, if◌then◌else◌,
}
use outboard.Derive.Config.{
  Action, default_action, value, set_true, set_false, count, FieldCfg, SynError, needs_plain_bool,
  needs_flag, count_needs_flag,
}

-- A type as far as the macro looks: a path by its last segment, with its first type argument if it
-- has one. `qualified` is the self type of a path such as `<T as Trait>::bool`.
pub data FieldType : Type 0 where
  simple : (qualified : Bool) (segment : Text) → FieldType
  generic : (segment : Text) (first : FieldType) → FieldType
  other : FieldType

abbrev pub generic_inner : FieldType → Text → Option FieldType
generic_inner (generic segment first) expected = if segment == expected then some first else none
generic_inner _ expected = none

abbrev pub is_bool : FieldType → Bool
is_bool (simple qualified segment) = not qualified && segment == codes "bool"
is_bool (generic segment first) = segment == codes "bool"
is_bool other = false

pub record TypeShape : Type 0 where
  pub optional : Bool
  pub vector : Bool
  pub inner : FieldType

abbrev of_option : FieldType → Option FieldType → TypeShape
of_option inner (some item) = record { optional = true; vector = true; inner = item }
of_option inner none = record { optional = true; vector = false; inner = inner }

abbrev of_vector : FieldType → Option FieldType → TypeShape
of_vector ty (some item) = record { optional = false; vector = true; inner = item }
of_vector ty none = record { optional = false; vector = false; inner = ty }

abbrev shape_from : FieldType → Option FieldType → TypeShape
shape_from ty (some inner) = of_option inner (generic_inner inner (codes "Vec"))
shape_from ty none = of_vector ty (generic_inner ty (codes "Vec"))

unfoldable pub type_shape : FieldType → TypeShape
type_shape ty = shape_from ty (generic_inner ty (codes "Option"))

-- One value: its text by ToArgValue, its name as a ValueEnum, and what ToArgv appends for it.
pub record Item : Type 0 where
  pub shown : Text
  pub named : Text
  pub argv : List Text

pub data FieldValue : Type 0 where
  truth : Bool → FieldValue
  number : ℕ → FieldValue
  plain : Item → FieldValue
  optional : Option Item → FieldValue
  several : List Item → FieldValue
  optional_several : Option (List Item) → FieldValue

-- push_flag_value
abbrev pub push_flag_value : Text → Text → Bool → List Text
push_flag_value flag v equals = if equals then (flag ++ (codes "=" ++ v)) ∷ [] else flag ∷ v ∷ []

abbrev pub push_value : Text → Option Text → Bool → List Text
push_value v (some flag) equals = push_flag_value flag v equals
push_value v none equals = v ∷ []

abbrev pub conversion : FieldCfg → Item → Text
conversion cfg i = if cfg.value_enum then i.named else i.shown

abbrev pub separated : Bool → List Text → List Text
separated separator argv = if separator then codes "--" ∷ argv else argv

unfoldable pub emit_one : Option Text → FieldCfg → Bool → Item → List Text
emit_one flag cfg separator i =
    separated separator (push_value (conversion cfg i) flag cfg.require_equals)

-- The values, with the delimiter between them.
abbrev pub joined : ℕ → List Text → Text
joined delim [] = []
joined delim (v ∷ []) = v
joined delim (v ∷ w ∷ vs) = v ++ delim ∷ joined delim (w ∷ vs)

abbrev pub push_each : Option Text → Bool → List Text → List Text
push_each flag equals [] = []
push_each flag equals (v ∷ vs) = push_value v flag equals ++ push_each flag equals vs

abbrev pub push_all : Option Text → Bool → Option ℕ → List Text → List Text
push_all flag equals (some delim) vs = push_value (joined delim vs) flag equals
push_all flag equals none vs = push_each flag equals vs

abbrev pub is_nil : {A : Type 0} → List A → Bool
is_nil [] = true
is_nil (x ∷ xs) = false

unfoldable pub emit_vector : Option Text → FieldCfg → Bool → List Item → List Text
emit_vector flag cfg separator items =
    if is_nil items
    then []
    else separated separator
        (push_all flag cfg.require_equals cfg.value_delimiter (map (conversion cfg) items))

-- What a field's code appends, by the field's value.
abbrev pub Emitted : Type 0
Emitted = FieldValue → List Text

abbrev nested_all : List Item → List Text
nested_all [] = []
nested_all (i ∷ is) = i.argv ++ nested_all is

-- The code of a flattened field or of a subcommand
abbrev pub emit_nested : Emitted
emit_nested (plain i) = i.argv
emit_nested (optional (some i)) = i.argv
emit_nested (several is) = nested_all is
emit_nested _ = []

abbrev pub emit_if_true : Text → Emitted
emit_if_true flag (truth b) = if b then flag ∷ [] else []
emit_if_true flag _ = []

abbrev pub emit_if_false : Text → Emitted
emit_if_false flag (truth b) = if not b then flag ∷ [] else []
emit_if_false flag _ = []

abbrev times : ℕ → Text → List Text
times zero flag = []
times (suc n) flag = flag ∷ times n flag

abbrev pub emit_count : Text → Emitted
emit_count flag (number n) = times n flag
emit_count flag _ = []

abbrev pub emit_values : Option Text → FieldCfg → Bool → Emitted
emit_values flag cfg separator (plain i) = emit_one flag cfg separator i
emit_values flag cfg separator (optional (some i)) = emit_one flag cfg separator i
emit_values flag cfg separator (several is) = emit_vector flag cfg separator is
emit_values flag cfg separator (optional_several (some is)) = emit_vector flag cfg separator is
emit_values flag cfg separator _ = []

abbrev pub flag_of : FieldCfg → Option Text
flag_of cfg = elim cfg.long [
  | some v ↦ some (codes "--" ++ v)
  | none ↦ elim cfg.short [ some c ↦ some (codes "-" ++ c ∷ []) | none ↦ none ]
]

-- A plain bool with a flag is set by its presence.
abbrev pub action_of : TypeShape → Bool → Action → Action
action_of s positional default_action =
    if not s.optional && not s.vector && is_bool s.inner && not positional
    then set_true
    else default_action
action_of s positional a = a

abbrev pub is_plain_bool : TypeShape → Bool
is_plain_bool s = not s.optional && not s.vector && is_bool s.inner

abbrev pub is_none : Option Text → Bool
is_none none = true
is_none (some f) = false

abbrev pub with_flag : Option Text → SynError → (Text → Emitted) → Result Emitted SynError
with_flag none e emit = err e
with_flag (some f) e emit = ok (emit f)

abbrev pub emit_action : TypeShape → FieldCfg → Option Text → Action → Result Emitted SynError
emit_action s cfg flag set_true =
    if not (is_plain_bool s) then err needs_plain_bool else with_flag flag needs_flag emit_if_true
emit_action s cfg flag set_false =
    if not (is_plain_bool s) then err needs_plain_bool else with_flag flag needs_flag emit_if_false
emit_action s cfg flag count = with_flag flag count_needs_flag emit_count
emit_action s cfg flag _ =
    ok (emit_values flag cfg (is_none flag && (cfg.last || cfg.trailing_var_arg)))

-- emit_field
unfoldable pub emit_field : FieldType → FieldCfg → Result Emitted SynError
emit_field ty cfg =
    if cfg.skip
    then ok (λ v. [])
    else if cfg.flatten || cfg.subcommand
    then ok emit_nested
    else emit_action (type_shape ty) cfg (flag_of cfg)
        (action_of (type_shape ty) (is_none (flag_of cfg)) cfg.action)
