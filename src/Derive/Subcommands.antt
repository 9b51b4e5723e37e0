-- ===== src/Derive/Subcommands.antt =====
-- What the code that crates/outboard-clap-derive/src/lib.rs makes for an enum of subcommands
-- appends for a value.
use outboard.Prelude.{
  ℕ, Text, codes, ◌≡◌, ◌≢◌, refl, sym, ap, ◌∙◌, subst, Bool, true, false, ◌==◌, nat_eq, list_eq,
  List, [], ◌∷◌, ◌++◌, Option, none, some, Result, ok, err, ◌>>=◌, All, arith, inl, inr, Bool-cases,
  Option-cases, ==_refl, ==_iff, if◌then◌else◌,
}
use outboard.Derive.{rename}
use outboard.Derive.Config.{
  text_literal, char_literal, bool_literal, tokens, Meta, path, name_value, list, Attribute,
  SynError, needs_one_payload,
}
use outboard.Derive.Emission.{FieldValue, Emitted}
use outboard.Derive.Expansion.{
  Fields, unit_fields, unnamed, named, Variant, no_payload, inner, with_fields, unwrap_or, or_next,
  rename_all_in, name_in, named_text, container_rename_all, emit_fields, append_fields,
  append_inner, payload_of, DeriveInput, enum_data, Payload, Value, variant_value, variant_name,
  expand_payload, Arm, expand_enum, run_arms, of_enum, container_style, expand_data, expand,
}

-- The texts of the parts `key = "..."` among those of one attribute, and of all attributes
-- `command(...)`, in order.
abbrev pub texts_in : Text → List Meta → List Text
texts_in key [] = []
texts_in key (name_value n (text_literal t) ∷ ms) =
    let rest = texts_in key ms in if n == key then t ∷ rest else rest
texts_in key (_ ∷ ms) = texts_in key ms

abbrev pub parts_of : Option (List Meta) → List Meta
parts_of none = []
parts_of (some ms) = ms

abbrev pub texts : Text → List Attribute → List Text
texts key [] = []
texts key (a ∷ attrs) =
    let rest = texts key attrs in
    if a.name == codes "command" then texts_in key (parts_of a.metas) ++ rest else rest

abbrev pub first_or : List Text → Text → Text
first_or [] t = t
first_or (x ∷ xs) t = x

-- What a value of a variant carries gives, behind the name: nothing for a variant without fields,
-- for a payload its own arguments, and for fields those of each field, in order, with the style of
-- the variant.
abbrev pub Appends : Fields → List Text → Text → (Payload → List Text) → Type 0
Appends unit_fields own style body = body no_payload ≡ []
Appends (unnamed n) own style body = (n ≡ 1) × ((argv : List Text) → body (inner argv) ≡ argv)
Appends (named fs) own style body =
    (es : List Emitted) × (emit_fields fs (first_or own style) ≡ ok es)
    × ((vs : List FieldValue) → body (with_fields vs) ≡ append_fields es vs)

-- The code gives, for the variant in a container of this style, the name that the variant's
-- attributes set, or else its identifier in that style, and then what the value carries.
abbrev pub Serves : Variant → Text → (Payload → List Text) → Type 0
Serves v style append =
    (body : Payload → List Text) × Appends v.fields (texts (codes "rename_all") v.attrs) style body
    × ((p : Payload)
        → append p ≡ first_or (texts (codes "name") v.attrs) (rename v.ident style) ∷ body p)

-- What a bind that succeeds has bound
ok_of :
    {A B : Type 0} (r : Result A SynError) (f : A → Result B SynError) (b : B)
    → (r >>= f) ≡ ok b
    → (a : A) × (r ≡ ok a) × (f a ≡ ok b)
ok_of (ok a) f b h = (a, refl, h)
ok_of (err e) f b h = cc

ok_injective : {A : Type 0} (a b : A) → ◌≡◌ {A = Result A SynError} (ok a) (ok b) → a ≡ b
ok_injective a b h = cc

named_text-texts :
    (key : Text) (ms : List Meta) (d : Text)
    → unwrap_or (named_text key ms) d ≡ first_or (texts_in key ms) d
named_text-texts key [] d = refl
named_text-texts key (path n ∷ ms) d = named_text-texts key ms d
named_text-texts key (list n ∷ ms) d = named_text-texts key ms d
named_text-texts key (name_value n (text_literal t) ∷ ms) d = elim (Bool-cases (n == key)) [
  | inl same ↦ rw same refl
  | inr other ↦ rw other (named_text-texts key ms d)
]
named_text-texts key (name_value n (char_literal c) ∷ ms) d = elim (Bool-cases (n == key)) [
  | inl same ↦ rw same (named_text-texts key ms d)
  | inr other ↦ rw other (named_text-texts key ms d)
]
named_text-texts key (name_value n (bool_literal c) ∷ ms) d = elim (Bool-cases (n == key)) [
  | inl same ↦ rw same (named_text-texts key ms d)
  | inr other ↦ rw other (named_text-texts key ms d)
]
named_text-texts key (name_value n (tokens c) ∷ ms) d = elim (Bool-cases (n == key)) [
  | inl same ↦ rw same (named_text-texts key ms d)
  | inr other ↦ rw other (named_text-texts key ms d)
]

unwrap_or-or_next :
    (o next : Option Text) (d : Text)
    → unwrap_or (or_next o next) d ≡ unwrap_or o (unwrap_or next d)
unwrap_or-or_next none next d = refl
unwrap_or-or_next (some x) next d = refl

first_or-append :
    (xs ys : List Text) (d : Text) → first_or (xs ++ ys) d ≡ first_or xs (first_or ys d)
first_or-append [] ys d = refl
first_or-append (x ∷ xs) ys d = refl

-- The style that attributes set, or else the one given
container_rename_all-texts :
    (attrs : List Attribute) (d : Text)
    → unwrap_or (container_rename_all attrs) d ≡ first_or (texts (codes "rename_all") attrs) d
unfolding container_rename_all
container_rename_all-texts [] d = refl
container_rename_all-texts (a ∷ attrs) d = elim (Bool-cases (a.name == codes "command")) [
  | inl same ↦ rw same (metas a.metas (container_rename_all-texts attrs d))
  | inr other ↦ rw other (container_rename_all-texts attrs d)
]
  where
    metas :
        (ms : Option (List Meta))
        → unwrap_or (container_rename_all attrs) d ≡ first_or (texts (codes "rename_all") attrs) d
        → unwrap_or (or_next (rename_all_in ms) (container_rename_all attrs)) d
          ≡ first_or
              (texts_in (codes "rename_all") (parts_of ms) ++ texts (codes "rename_all") attrs)
              d
    metas none later = later
    metas (some ms) later =
        unwrap_or-or_next (named_text (codes "rename_all") ms) (container_rename_all attrs) d
        ∙ ap (unwrap_or (named_text (codes "rename_all") ms)) later
        ∙ named_text-texts (codes "rename_all") ms _
        ∙ sym (first_or-append (texts_in (codes "rename_all") ms) _ d)

variant_name-texts :
    (attrs : List Attribute) (ident style name : Text)
    → variant_name attrs ident style ≡ ok name
    → name ≡ first_or (texts (codes "name") attrs) (rename ident style)
unfolding variant_name
variant_name-texts [] ident style name h = sym (ok_injective _ name h)
variant_name-texts (a ∷ attrs) ident style name h =
    go (a.name == codes "command") h (variant_name-texts attrs ident style name)
  where
    Later : Type 0
    Later =
        variant_name attrs ident style ≡ ok name
        → name ≡ first_or (texts (codes "name") attrs) (rename ident style)

    metas :
        (ms : Option (List Meta))
        → name_in ms (variant_name attrs ident style) ≡ ok name
        → Later
        → name
          ≡ first_or
              (texts_in (codes "name") (parts_of ms) ++ texts (codes "name") attrs)
              (rename ident style)
    metas none e later = cc
    metas (some ms) e later =
        elim (Option-cases (named_text (codes "name") ms)) [
          | inl unset ↦
              later (ground arith)
              ∙ ap (λ o. unwrap_or o (first_or (texts (codes "name") attrs) (rename ident style)))
                  (sym unset)
          | inr (x, set) ↦ ground arith
        ]
        ∙ named_text-texts (codes "name") ms _
        ∙ sym (first_or-append (texts_in (codes "name") ms) _ (rename ident style))

    go :
        (b : Bool)
        → (if b
            then name_in a.metas (variant_name attrs ident style)
            else variant_name attrs ident style)
          ≡ ok name
        → Later
        → name
          ≡ first_or
              (if b
                then texts_in (codes "name") (parts_of a.metas) ++ texts (codes "name") attrs
                else texts (codes "name") attrs)
              (rename ident style)
    go true e later = metas a.metas e later
    go false e later = later e

expand_payload-Appends :
    (v : Variant) (style : Text) (body : Payload → List Text)
    → expand_payload v style ≡ ok body
    → Appends v.fields (texts (codes "rename_all") v.attrs) style body
unfolding expand_payload
expand_payload-Appends v style body h = go v.fields h
  where
    tuple :
        (n : ℕ) (b : Bool)
        → (n == 1) ≡ b
        → (if b then ok append_inner else err needs_one_payload) ≡ ok body
        → Appends (unnamed n) (texts (codes "rename_all") v.attrs) style body
    tuple n true same e =
        ((==_iff n 1).0 same, λ argv. ap (λ b. b (inner argv)) (sym (ok_injective _ body e)))
    tuple n false other e = cc

    go :
        (fs : Fields)
        → payload_of v.attrs style fs ≡ ok body
        → Appends fs (texts (codes "rename_all") v.attrs) style body
    go unit_fields e = ap (λ b. b no_payload) (sym (ok_injective _ body e))
    go (unnamed n) e = tuple n (n == 1) refl e
    go (named fs) e =
        let (es, made, e1) =
          ok_of (emit_fields fs (unwrap_or (container_rename_all v.attrs) style)) _ body e in
        (
          es,
          ap (emit_fields fs) (sym (container_rename_all-texts v.attrs style)) ∙ made,
          λ vs. ap (λ b. b (with_fields vs)) (sym (ok_injective _ body e1)),
        )

expand_enum-cons :
    (v : Variant) (vs : List Variant) (style : Text) (arms : List Arm)
    → expand_enum (v ∷ vs) style ≡ ok arms
    → (name : Text) × (body : Payload → List Text) × (rest : List Arm) × (variant_name v.attrs
          v.ident style
        ≡ ok name)
      × (expand_payload v style ≡ ok body)
      × (expand_enum vs style ≡ ok rest)
      × (record { ident = v.ident; command_name = name; appended = body } ∷ rest ≡ arms)
unfolding expand_enum
expand_enum-cons v vs style arms h =
    let (name, called, h1) = ok_of (variant_name v.attrs v.ident style) _ arms h in
    let (body, made, h2) = ok_of (expand_payload v style) _ arms h1 in
    let (rest, others, h3) = ok_of (expand_enum vs style) _ arms h2 in
    (name, body, rest, called, made, others, ok_injective _ arms h3)

passed_over :
    (u v : Variant)
    → u.ident ≢ v.ident
    → (a b : List Text) → (if u.ident == v.ident then a else b) ≡ b
passed_over u v ne a b = elim (Bool-cases (u.ident == v.ident)) [
  | inl same ↦ elim (ne ((==_iff u.ident v.ident).0 same)) [ ]
  | inr other ↦ ap (λ c. if c then a else b) other
]

expand_enum-Serves :
    (before : List Variant) (v : Variant) (after : List Variant) (style : Text) (arms : List Arm)
    → All (λ u. u.ident ≢ v.ident) before
    → expand_enum (before ++ v ∷ after) style ≡ ok arms
    → Serves v style (run_arms arms v.ident)
unfolding run_arms
expand_enum-Serves [] v after style arms h e =
    let (name, body, rest, called, made, others, same) = expand_enum-cons v after style arms e in
    let chosen = variant_name-texts v.attrs v.ident style name called in
    subst (λ xs. Serves v style (run_arms xs v.ident)) same
      (body, expand_payload-Appends v style body made, λ p. ground (arith, ==_refl v.ident))
expand_enum-Serves (u ∷ before) v after style arms (ne, h) e =
    let (name, body, rest, called, made, others, same) =
      expand_enum-cons u (before ++ v ∷ after) style arms e in
    let (b, b_ok, eq) = expand_enum-Serves before v after style rest h others in
    subst (λ xs. Serves v style (run_arms xs v.ident)) same
      (b, b_ok, λ p. passed_over u v ne _ _ ∙ eq p)

-- When the macro makes code for an enum, then the code appends, for a value of a variant whose
-- identifier no variant before it has, first the text of the variant's first `name`, or, where it
-- has none, its identifier in the style of the container's first `rename_all`, which is kebab-case
-- where there is none. Behind it come nothing for a variant without fields, the arguments of the
-- one payload of a tuple, and those of each named field in order, where the variant's own
-- `rename_all` goes first.
pub expand-Serves :
    (input : DeriveInput) (before : List Variant) (v : Variant) (after : List Variant)
    (code : Value → List Text)
    → input.data_of ≡ enum_data (before ++ v ∷ after)
    → All (λ u. u.ident ≢ v.ident) before
    → expand input ≡ ok code
    → Serves v
        (first_or (texts (codes "rename_all") input.attrs) (codes "kebab-case"))
        (λ p. code (variant_value v.ident p))
unfolding expand
expand-Serves input before v after code shape h e =
    let (arms, made, same) =
      ok_of (expand_enum (before ++ v ∷ after) (container_style input.attrs)) _ code
        (ap (λ d. expand_data d (container_style input.attrs)) (sym shape) ∙ e) in
    subst (λ style. Serves v style (λ p. code (variant_value v.ident p)))
      (container_rename_all-texts input.attrs (codes "kebab-case"))
      (subst (λ c. Serves v (container_style input.attrs) (λ p. c (variant_value v.ident p)))
        (ok_injective (of_enum arms) code same)
        (expand_enum-Serves before v after (container_style input.attrs) arms h made))
