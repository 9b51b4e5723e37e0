-- ===== src/Id.antt =====
-- crates/outboard-core/src/id.rs: identifiers and plugin identities.
-- Each newtype of the source is its text. Deserialisation makes such values without `new`, so a
-- value is any text, and what `new` and `validate` accept is a predicate on it (`Id/Valid.antt`).
pub mod Valid
pub mod Naming
use Prim.Native.Nat.{Ordering}
use outboard.Prelude.{
  then_with-swap, then_with_trans, text_ord, pair_ord, ℕ, String, Text, codes, Bool, true, false,
  not, ◌&&◌, ◌||◌, ◌==◌, nat_eq, ◌++◌, arith, ◌≡◌, ◌↔◌, leb, all, is_empty, if◌then◌else◌,
  starts_with, ends_with, Result, ok, err, ◌>>=◌, ◌>>◌, Ord, then_with, text_cmp, text_cmp_iff,
  then_with-eq_iff, Eq, is_eq,
}

pub record IdentifierError : Type 0 where
  pub kind : String
  pub value : Text
  pub reason : String

abbrev pub is_ascii_alphanumeric : ℕ → Bool
is_ascii_alphanumeric b =
    (leb b'0' b && leb b b'9') || (leb b'A' b && leb b b'Z') || (leb b'a' b && leb b b'z')

unfoldable pub allowed : Bool → ℕ → Bool
allowed allow_dot b = is_ascii_alphanumeric b || b == b'-' || b == b'_' || (allow_dot && b == b'.')

unfoldable pub validate_identifier : String → Text → Bool → Result (Unit {0}) IdentifierError
validate_identifier kind value allow_dot =
    if is_empty value
    then err (record { kind = kind; value = value; reason = "must not be empty" })
    else if starts_with b'-' value || ends_with b'-' value
    then err (record { kind = kind; value = value; reason = "must not start or end with '-'" })
    else if not (all (allowed allow_dot) value)
    then err (record {
      kind = kind;
      value = value;
      reason = "contains characters outside [A-Za-z0-9_-] (and '.' where allowed)";
    })
    else ok tt

-- The types that `id_newtype!` makes.
abbrev pub Namespace : Type 0
Namespace = Text

abbrev pub PluginKind : Type 0
PluginKind = Text

abbrev pub PluginName : Type 0
PluginName = Text

abbrev pub InterfaceId : Type 0
InterfaceId = Text

abbrev pub CapabilityId : Type 0
CapabilityId = Text

-- `new` of `id_newtype!`, with the macro's `$kind` and `$dot`.
unfoldable pub new_id : String → Bool → Text → Result Text IdentifierError
new_id kind dot value = do validate_identifier kind value dot; ok value

abbrev pub new_namespace : Text → Result Namespace IdentifierError
new_namespace = new_id "namespace" false

abbrev pub new_plugin_kind : Text → Result PluginKind IdentifierError
new_plugin_kind = new_id "plugin kind" false

abbrev pub new_plugin_name : Text → Result PluginName IdentifierError
new_plugin_name = new_id "plugin name" false

abbrev pub new_interface_id : Text → Result InterfaceId IdentifierError
new_interface_id = new_id "interface" true

abbrev pub new_capability_id : Text → Result CapabilityId IdentifierError
new_capability_id = new_id "capability" true

pub record PluginId : Type 0 where
  pub namespace : Namespace
  pub kind : PluginKind
  pub name : PluginName

unfoldable pub new_plugin_id : Text → Text → Text → Result PluginId IdentifierError
new_plugin_id namespace kind name = do
  ns ← new_namespace namespace
  k ← new_plugin_kind kind
  n ← new_plugin_name name
  ok (record { namespace = ns; kind = k; name = n })

unfoldable pub executable_name : PluginId → Text
executable_name id = id.namespace ++ (codes "-" ++ (id.kind ++ (codes "-" ++ id.name)))

unfoldable pub selector : PluginId → Text
selector id = id.kind ++ (codes ":" ++ id.name)

-- Display of `PluginId`
unfoldable pub display_plugin_id : PluginId → Text
display_plugin_id id = id.namespace ++ (codes "/" ++ (id.kind ++ (codes "/" ++ id.name)))

-- The derived order compares the fields in turn.
abbrev pub plugin_id_cmp : PluginId → PluginId → Ordering
plugin_id_cmp a b =
    then_with (text_cmp a.namespace b.namespace)
      (then_with (text_cmp a.kind b.kind) (text_cmp a.name b.name))

pub plugin_id_cmp_iff : (a b : PluginId) → (plugin_id_cmp a b ≡ Ordering.eq) ↔ (a ≡ b)
plugin_id_cmp_iff a b = (
  λ h. ground (
    arith,
    text_cmp_iff a.namespace b.namespace,
    text_cmp_iff a.kind b.kind,
    text_cmp_iff a.name b.name,
  ),
  λ h. ground (
    arith,
    text_cmp_iff a.namespace b.namespace,
    text_cmp_iff a.kind b.kind,
    text_cmp_iff a.name b.name,
  ),
)

pub plugin_id_cmp_swap :
    (a b : PluginId) → plugin_id_cmp a b ≡ Ordering.gt → plugin_id_cmp b a ≡ Ordering.lt
plugin_id_cmp_swap a b h =
    then_with-swap {B = PluginKind × PluginName} a.namespace b.namespace (a.kind, a.name)
      (b.kind, b.name) h

pub plugin_id_cmp_trans :
    (a b c : PluginId)
    → plugin_id_cmp a b ≡ Ordering.lt
    → plugin_id_cmp b c ≡ Ordering.lt
    → plugin_id_cmp a c ≡ Ordering.lt
plugin_id_cmp_trans a b c h k =
    then_with_trans {B = PluginKind × PluginName} a.namespace b.namespace c.namespace
      (a.kind, a.name) (b.kind, b.name) (c.kind, c.name) h k

instance abbrev pub plugin_id_ord : Ord PluginId
plugin_id_ord = record {
  cmp = plugin_id_cmp;
  cmp_iff = plugin_id_cmp_iff;
  cmp_swap = plugin_id_cmp_swap;
  cmp_trans = plugin_id_cmp_trans;
}

pub plugin_id_beq_iff : (a b : PluginId) → (is_eq (plugin_id_cmp a b) ≡ true) ↔ (a ≡ b)
plugin_id_beq_iff a b =
    (λ h. (plugin_id_cmp_iff a b).0 (ground arith), λ h. ground (arith, plugin_id_cmp_iff a b))

instance abbrev pub plugin_id_eq : Eq PluginId
plugin_id_eq = record { equal = λ a b. is_eq (plugin_id_cmp a b); equal_iff = plugin_id_beq_iff }
