-- ===== src/Derive/Expansion.antt =====
-- `expand` of crates/outboard-clap-derive/src/lib.rs: the implementation of ToArgv that the macro
-- makes for a struct or an enum, as the function from a value to the arguments that it appends. The
-- generics and the path of the runtime crate are left out.

use outboard.Prelude.{
  ℕ, Text, codes, ◌==◌, nat_eq, list_eq, List, [], ◌∷◌, ◌++◌, Option, none, some, Result, ok, err,
  ◌>>=◌, if◌then◌else◌,
}
use outboard.Derive.{rename}
use outboard.Derive.Config.{
  Meta, name_value, Attribute, SynError, not_a_list, needs_named_fields, needs_one_payload,
  no_union, expr_string, parse_field,
}
use outboard.Derive.Emission.{FieldType, FieldValue, Emitted, emit_field}

pub record Field : Type 0 where
  pub ident : Text
  pub attrs : List Attribute
  pub ty : FieldType

-- The fields of a struct or of a variant. Of those without names only their number matters.
pub data Fields : Type 0 where
  unit_fields : Fields
  unnamed : ℕ → Fields
  named : List Field → Fields

pub record Variant : Type 0 where
  pub ident : Text
  pub attrs : List Attribute
  pub fields : Fields

pub data Data : Type 0 where
  struct_data : Fields → Data
  enum_data : List Variant → Data
  union_data : Data

pub record DeriveInput : Type 0 where
  pub attrs : List Attribute
  pub data_of : Data

-- What a variant carries: nothing, a value that ToArgv appends these arguments for, or fields.
pub data Payload : Type 0 where
  no_payload : Payload
  inner : (argv : List Text) → Payload
  with_fields : List FieldValue → Payload

pub data Value : Type 0 where
  struct_value : List FieldValue → Value
  variant_value : (ident : Text) → Payload → Value

-- The first part `key = "..."` of an attribute
abbrev pub named_text : Text → List Meta → Option Text
named_text key [] = none
named_text key (name_value n e ∷ ms) =
    let later = named_text key ms in
    if n == key then elim (expr_string e) [ some v ↦ some v | none ↦ later ] else later
named_text key (_ ∷ ms) = named_text key ms

abbrev pub or_next : Option Text → Option Text → Option Text
or_next (some v) next = some v
or_next none next = next

abbrev pub rename_all_in : Option (List Meta) → Option Text
rename_all_in none = none
rename_all_in (some ms) = named_text (codes "rename_all") ms

-- container_rename_all
unfoldable pub container_rename_all : List Attribute → Option Text
container_rename_all [] = none
container_rename_all (a ∷ rest) =
    let later = container_rename_all rest in
    if a.name == codes "command" then or_next (rename_all_in a.metas) later else later

abbrev pub name_in : Option (List Meta) → Result Text SynError → Result Text SynError
name_in none later = err (not_a_list (codes "command"))
name_in (some ms) later = elim (named_text (codes "name") ms) [ some v ↦ ok v | none ↦ later ]

-- variant_name
unfoldable pub variant_name : List Attribute → Text → Text → Result Text SynError
variant_name [] ident rename_all = ok (rename ident rename_all)
variant_name (a ∷ rest) ident rename_all =
    let later = variant_name rest ident rename_all in
    if a.name == codes "command" then name_in a.metas later else later

-- The code of each of the fields
unfoldable pub emit_fields : List Field → Text → Result (List Emitted) SynError
emit_fields [] rename_all = ok []
emit_fields (f ∷ fs) rename_all = do
  cfg ← parse_field f.attrs f.ident rename_all
  code ← emit_field f.ty cfg
  rest ← emit_fields fs rename_all
  ok (code ∷ rest)

-- What these append for the values of the fields, in order.
abbrev pub append_fields : List Emitted → List FieldValue → List Text
append_fields (e ∷ es) (v ∷ vs) = e v ++ append_fields es vs
append_fields _ _ = []

-- expand_struct
unfoldable pub expand_struct : Fields → Text → Result (List FieldValue → List Text) SynError
expand_struct (named fs) rename_all = do
  codes_of ← emit_fields fs rename_all
  ok (append_fields codes_of)
expand_struct _ rename_all = err needs_named_fields

abbrev pub append_payload : List Emitted → Payload → List Text
append_payload es (with_fields vs) = append_fields es vs
append_payload es _ = []

abbrev pub append_inner : Payload → List Text
append_inner (inner argv) = argv
append_inner _ = []

abbrev pub unwrap_or : Option Text → Text → Text
unwrap_or (some v) t = v
unwrap_or none t = t

-- What the arm of a variant appends behind the name, by what the variant carries.
abbrev pub payload_of : List Attribute → Text → Fields → Result (Payload → List Text) SynError
payload_of attrs rename_all unit_fields = ok (λ p. [])
payload_of attrs rename_all (unnamed n) = if n == 1 then ok append_inner else err needs_one_payload
payload_of attrs rename_all (named fs) = do
  codes_of ← emit_fields fs (unwrap_or (container_rename_all attrs) rename_all)
  ok (append_payload codes_of)

unfoldable pub expand_payload : Variant → Text → Result (Payload → List Text) SynError
expand_payload v rename_all = payload_of v.attrs rename_all v.fields

pub record Arm : Type 0 where
  pub ident : Text
  pub command_name : Text
  pub appended : Payload → List Text

-- expand_enum
unfoldable pub expand_enum : List Variant → Text → Result (List Arm) SynError
expand_enum [] rename_all = ok []
expand_enum (v ∷ vs) rename_all = do
  command_name ← variant_name v.attrs v.ident rename_all
  appended ← expand_payload v rename_all
  rest ← expand_enum vs rename_all
  ok (record { ident = v.ident; command_name = command_name; appended = appended } ∷ rest)

-- `match self` of the code
unfoldable pub run_arms : List Arm → Text → Payload → List Text
run_arms [] ident p = []
run_arms (a ∷ arms) ident p =
    let later = run_arms arms ident p in
    if a.ident == ident then a.command_name ∷ a.appended p else later

abbrev pub of_struct : (List FieldValue → List Text) → Value → List Text
of_struct code (struct_value vs) = code vs
of_struct code (variant_value ident p) = []

abbrev pub of_enum : List Arm → Value → List Text
of_enum arms (struct_value vs) = []
of_enum arms (variant_value ident p) = run_arms arms ident p

abbrev pub container_style : List Attribute → Text
container_style attrs = unwrap_or (container_rename_all attrs) (codes "kebab-case")

abbrev pub expand_data : Data → Text → Result (Value → List Text) SynError
expand_data (struct_data fs) rename_all = do code ← expand_struct fs rename_all; ok (of_struct code)
expand_data (enum_data vs) rename_all = do arms ← expand_enum vs rename_all; ok (of_enum arms)
expand_data union_data rename_all = err no_union

-- expand
unfoldable pub expand : DeriveInput → Result (Value → List Text) SynError
expand input = expand_data input.data_of (container_style input.attrs)
