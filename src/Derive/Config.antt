-- ===== src/Derive/Config.antt =====
-- `FieldCfg::parse` of crates/outboard-clap-derive/src/lib.rs and the attributes that it reads. A
-- text is a list of characters here.
use outboard.Prelude.{
  ℕ, Text, codes, Bool, true, false, ◌||◌, ◌==◌, nat_eq, list_eq, List, [], ◌∷◌, Option, none, some,
  Result, ok, err, ◌>>=◌, if◌then◌else◌,
}
use outboard.Derive.{first_of, rename}

-- An expression of an attribute: a literal, or something else as its tokens without spaces.
pub data Expr : Type 0 where
  text_literal : Text → Expr
  char_literal : ℕ → Expr
  bool_literal : Bool → Expr
  tokens : Text → Expr

pub data Meta : Type 0 where
  path : Text → Meta
  name_value : Text → Expr → Meta
  list : Text → Meta

-- An attribute and its parts, if they parse as a list.
pub record Attribute : Type 0 where
  pub name : Text
  pub metas : Option (List Meta)

pub data Action : Type 0 where
  default_action value set_true set_false count : Action

pub record FieldCfg : Type 0 where
  pub long : Option Text
  pub short : Option ℕ
  pub action : Action
  pub value_enum : Bool
  pub require_equals : Bool
  pub value_delimiter : Option ℕ
  pub flatten : Bool
  pub subcommand : Bool
  pub skip : Bool
  pub last : Bool
  pub trailing_var_arg : Bool

abbrev pub default_cfg : FieldCfg
default_cfg = record {
  long = none;
  short = none;
  action = default_action;
  value_enum = false;
  require_equals = false;
  value_delimiter = none;
  flatten = false;
  subcommand = false;
  skip = false;
  last = false;
  trailing_var_arg = false;
}

abbrev pub expr_string : Expr → Option Text
expr_string (text_literal s) = some s
expr_string _ = none

abbrev pub expr_char : Expr → Option ℕ
expr_char (char_literal c) = some c
expr_char (text_literal s) = first_of s
expr_char _ = none

abbrev pub expr_bool : Expr → Option Bool
expr_bool (bool_literal b) = some b
expr_bool _ = none

-- str::ends_with
abbrev pub ends_in : Text → Text → Bool
ends_in suffix [] = suffix == []
ends_in suffix (c ∷ s) = (c ∷ s) == suffix || ends_in suffix s

abbrev pub action_named : Text → Action
action_named s =
    if ends_in (codes "ArgAction::SetTrue") s || s == codes "SetTrue"
    then set_true
    else if ends_in (codes "ArgAction::SetFalse") s || s == codes "SetFalse"
    then set_false
    else if ends_in (codes "ArgAction::Count") s || s == codes "Count"
    then count
    else if ends_in (codes "ArgAction::Set") s
        || ends_in (codes "ArgAction::Append") s
        || s == codes "Set"
        || s == codes "Append"
    then value
    else default_action

-- parse_action
unfoldable pub parse_action : Expr → Action
parse_action (tokens s) = action_named s
parse_action _ = default_action

abbrev or_else : {A : Type 0} → Option A → Option A → Option A
or_else none b = b
or_else (some a) b = some a

abbrev or_true : Option Bool → Bool
or_true none = true
or_true (some b) = b

abbrev is_raw : Text → Bool
is_raw n = n == codes "trailing_var_arg" || n == codes "raw"

-- A part of an `arg` attribute
unfoldable pub apply_arg : Text → Text → FieldCfg → Meta → FieldCfg
apply_arg field_name rename_all cfg (path n) =
    if n == codes "long"
    then record cfg { long = some (rename field_name rename_all) }
    else if n == codes "short"
    then record cfg { short = first_of field_name }
    else if n == codes "value_enum"
    then record cfg { value_enum = true }
    else if n == codes "skip"
    then record cfg { skip = true }
    else if n == codes "require_equals"
    then record cfg { require_equals = true }
    else if n == codes "last"
    then record cfg { last = true }
    else if is_raw n
    then record cfg { trailing_var_arg = true }
    else cfg
apply_arg field_name rename_all cfg (name_value n e) =
    if n == codes "long"
    then record cfg { long = or_else (expr_string e) (some (rename field_name rename_all)) }
    else if n == codes "short"
    then record cfg { short = or_else (expr_char e) (first_of field_name) }
    else if n == codes "value_delimiter"
    then record cfg { value_delimiter = expr_char e }
    else if n == codes "require_equals"
    then record cfg { require_equals = or_true (expr_bool e) }
    else if n == codes "last"
    then record cfg { last = or_true (expr_bool e) }
    else if is_raw n
    then record cfg { trailing_var_arg = or_true (expr_bool e) }
    else if n == codes "action"
    then record cfg { action = parse_action e }
    else if n == codes "skip"
    then record cfg { skip = true }
    else cfg
apply_arg field_name rename_all cfg (list n) = cfg

-- A part of a `command` attribute
unfoldable pub apply_command : FieldCfg → Meta → FieldCfg
apply_command cfg (path n) =
    if n == codes "flatten"
    then record cfg { flatten = true }
    else if n == codes "subcommand"
    then record cfg { subcommand = true }
    else if n == codes "skip"
    then record cfg { skip = true }
    else cfg
apply_command cfg _ = cfg

abbrev pub apply_all : (FieldCfg → Meta → FieldCfg) → FieldCfg → List Meta → FieldCfg
apply_all f cfg [] = cfg
apply_all f cfg (m ∷ ms) = apply_all f (f cfg m) ms

-- An attribute that does not parse, or a field or type that the macro has no code for
pub data SynError : Type 0 where
  not_a_list : (attribute : Text) → SynError
  needs_plain_bool : SynError
  needs_flag : SynError
  count_needs_flag : SynError
  needs_named_fields needs_one_payload no_union : SynError

abbrev pub with_metas :
    Text → (FieldCfg → Meta → FieldCfg) → FieldCfg → Option (List Meta) → Result FieldCfg SynError
with_metas name f cfg none = err (not_a_list name)
with_metas name f cfg (some ms) = ok (apply_all f cfg ms)

abbrev pub apply_attribute : Text → Text → FieldCfg → Attribute → Result FieldCfg SynError
apply_attribute field_name rename_all cfg a =
    if a.name == codes "arg"
    then with_metas a.name (apply_arg field_name rename_all) cfg a.metas
    else if a.name == codes "command"
    then with_metas a.name apply_command cfg a.metas
    else ok cfg

abbrev parse_from : Text → Text → List Attribute → FieldCfg → Result FieldCfg SynError
parse_from field_name rename_all [] cfg = ok cfg
parse_from field_name rename_all (a ∷ rest) cfg = do
  next ← apply_attribute field_name rename_all cfg a
  parse_from field_name rename_all rest next

-- FieldCfg::parse
unfoldable pub parse_field : List Attribute → Text → Text → Result FieldCfg SynError
parse_field attrs field_name rename_all = parse_from field_name rename_all attrs default_cfg
