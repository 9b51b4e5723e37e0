-- ===== src/Id/Valid.antt =====
-- What `validate_identifier` accepts, described without its code.
use outboard.Prelude.{
  starts_with_lem, ends_with_lem, ends_with-append, err, Result, ℕ, ◌≤◌, String, Text, ◌≡◌, ◌≢◌,
  ◌↔◌, ◌⊎◌, inl, inr, Bool, true, false, [], ◌∷◌, ◌++◌, refl, arith, Bool-cases, all, All,
  starts_with, ends_with, ok,
}
use outboard.Id.{IdentifierError, allowed, validate_identifier, new_id, PluginId, new_plugin_id}

-- A byte that an identifier may hold.
abbrev pub Allowed : Bool → ℕ → Type 0
Allowed allow_dot b =
    ((b'0' ≤ b) × (b ≤ b'9'))
    ⊎ ((b'A' ≤ b) × (b ≤ b'Z'))
    ⊎ ((b'a' ≤ b) × (b ≤ b'z'))
    ⊎ (b ≡ b'-')
    ⊎ (b ≡ b'_')
    ⊎ ((allow_dot ≡ true) × (b ≡ b'.'))

-- Not empty, no dash at either end, and allowed bytes only.
pub record IsIdentifier (allow_dot : Bool) (value : Text) : Type 0 where
  pub non_empty : value ≢ []
  pub first : (s : Text) → value ≢ b'-' ∷ s
  pub last : (s : Text) → value ≢ s ++ b'-' ∷ []
  pub bytes : All (Allowed allow_dot) value

allowed_iff : (dot : Bool) (b : ℕ) → (allowed dot b ≡ true) ↔ Allowed dot b
unfolding allowed
allowed_iff dot b = (λ h. ground arith, λ h. ground arith)

all-allowed_iff : (dot : Bool) (s : Text) → (all (allowed dot) s ≡ true) ↔ All (Allowed dot) s
all-allowed_iff dot [] = (λ _. tt, λ _. refl)
all-allowed_iff dot (b ∷ s) = (
  λ h. ((allowed_iff dot b).0 (ground arith), (all-allowed_iff dot s).0 (ground arith)),
  λ h.
      let here = (allowed_iff dot b).1 h.0 in
      let later = (all-allowed_iff dot s).1 h.1 in ground arith,
)

validate_identifier_sound :
    (kind : String) (value : Text) (dot : Bool)
    → validate_identifier kind value dot ≡ ok tt
    → IsIdentifier dot value
unfolding validate_identifier
validate_identifier_sound kind value dot h = record {
  non_empty = λ e. ground arith;
  first = λ s e. ground arith;
  last = λ s e. ground (arith, ends_with-append b'-' s);
  bytes = (all-allowed_iff dot value).0 (ground arith);
}

validate_identifier_complete :
    (kind : String) (value : Text) (dot : Bool)
    → IsIdentifier dot value
    → validate_identifier kind value dot ≡ ok tt
unfolding validate_identifier
validate_identifier_complete kind [] dot v = absurd (v.non_empty refl)
validate_identifier_complete kind (c ∷ s) dot v =
    let bytes : all (allowed dot) (c ∷ s) ≡ true = (all-allowed_iff dot (c ∷ s)).1 v.bytes in
    elim (Bool-cases (starts_with b'-' (c ∷ s))) [
      | inl bad ↦ let (t, e) = starts_with_lem b'-' (c ∷ s) bad in absurd (v.first t e)
      | inr first ↦ elim (Bool-cases (ends_with b'-' (c ∷ s))) [
        | inl bad ↦ let (t, e) = ends_with_lem b'-' (c ∷ s) bad in absurd (v.last t e)
        | inr last ↦ rw (first, last, bytes)
      ]
    ]

-- `validate_identifier` accepts exactly the texts that are not empty, neither begin nor end with a
-- dash, and hold only ASCII letters, digits, `-`, `_` and, where it is allowed, `.`.
pub validate_identifier_iff :
    (kind : String) (value : Text) (dot : Bool)
    → (validate_identifier kind value dot ≡ ok tt) ↔ IsIdentifier dot value
validate_identifier_iff kind value dot =
    (validate_identifier_sound kind value dot, validate_identifier_complete kind value dot)

pub new_id_iff :
    (kind : String) (dot : Bool) (value : Text)
    → (new_id kind dot value ≡ ok value) ↔ IsIdentifier dot value
unfolding new_id
new_id_iff kind dot value = (
  λ h. validate_identifier_sound kind value dot (ground arith),
  λ v. rw (validate_identifier_complete kind value dot v),
)

pub new_id-value :
    (kind : String) (dot : Bool) (value : Text) {v : Text}
    → new_id kind dot value ≡ ok v
    → v ≡ value
unfolding new_id
new_id-value kind dot value h = ground arith

-- The three parts of an identity are identifiers without a dot.
pub record IsPluginId (id : PluginId) : Type 0 where
  pub namespace : IsIdentifier false id.namespace
  pub kind : IsIdentifier false id.kind
  pub name : IsIdentifier false id.name

new_plugin_id_sound :
    (id : PluginId) (r : PluginId)
    → new_plugin_id id.namespace id.kind id.name ≡ ok r
    → (r ≡ id) × IsPluginId id
unfolding new_plugin_id new_id
new_plugin_id_sound id r h = (
  ground arith,
  record {
    namespace = validate_identifier_sound "namespace" id.namespace false (ground arith);
    kind = validate_identifier_sound "plugin kind" id.kind false (ground arith);
    name = validate_identifier_sound "plugin name" id.name false (ground arith);
  },
)

new_plugin_id_complete :
    (id : PluginId) → IsPluginId id → new_plugin_id id.namespace id.kind id.name ≡ ok id
unfolding new_plugin_id new_id
new_plugin_id_complete id v = rw (
  validate_identifier_complete "namespace" id.namespace false v.namespace,
  validate_identifier_complete "plugin kind" id.kind false v.kind,
  validate_identifier_complete "plugin name" id.name false v.name,
)

-- `PluginId::new` gives back an identity with the three texts exactly when all three are identifiers
-- without a dot.
pub new_plugin_id_iff :
    (id : PluginId) → (new_plugin_id id.namespace id.kind id.name ≡ ok id) ↔ IsPluginId id
new_plugin_id_iff id = (λ h. (new_plugin_id_sound id id h).1, new_plugin_id_complete id)

-- A failed check gives an error, and one that passes gives the text back.
pub new_id-cases :
    (kind : String) (dot : Bool) (value : Text)
    → (new_id kind dot value ≡ ok value) ⊎ ((e : IdentifierError) × (new_id kind dot value ≡ err e))
unfolding new_id
new_id-cases kind dot value = go (validate_identifier kind value dot) refl
  where
    go :
        (r : Result (Unit {0}) IdentifierError)
        → validate_identifier kind value dot ≡ r
        → (new_id kind dot value ≡ ok value)
          ⊎ ((e : IdentifierError) × (new_id kind dot value ≡ err e))
    go (ok tt) p = inl (rw p)
    go (err e) p = inr (e, rw p)

pub new_plugin_id-cases :
    (id : PluginId)
    → (new_plugin_id id.namespace id.kind id.name ≡ ok id)
      ⊎ ((e : IdentifierError) × (new_plugin_id id.namespace id.kind id.name ≡ err e))
unfolding new_plugin_id
new_plugin_id-cases id = elim (new_id-cases "namespace" false id.namespace) [
  | inr (e, p) ↦ inr (e, rw p)
  | inl p ↦ elim (new_id-cases "plugin kind" false id.kind) [
    | inr (e, q) ↦ inr (e, rw (p, q))
    | inl q ↦ elim (new_id-cases "plugin name" false id.name) [
      | inr (e, r) ↦ inr (e, rw (p, q, r))
      | inl r ↦ inl (rw (p, q, r))
    ]
  ]
]
