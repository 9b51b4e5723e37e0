-- ===== src/Tests/Deriving.antt =====
-- Examples for the derive macro.
use outboard.Prelude.{
  ℕ, Text, codes, ◌≡◌, refl, false, List, [], ◌∷◌, map, some, All, ok, err, arith,
}
use outboard.Derive.{words, words_from, join_with, rename}
use outboard.Derive.Cases.{words-rename}
use outboard.Derive.Config.{
  FieldCfg, Attribute, path, name_value, char_literal, text_literal, default_cfg, parse_field,
  apply_arg,
}
use outboard.Derive.Emission.{Item, emit_vector, conversion, simple, emit_field, type_shape}
use outboard.Derive.Emission.ReadBack.{Free, read_values, emit_vector-read}
use outboard.Derive.Expansion.{
  Variant, DeriveInput, enum_data, unnamed, named, Value, variant_value, expand, expand_enum,
  expand_payload, variant_name, container_rename_all, emit_fields,
}
use outboard.Derive.Subcommands.{Serves, expand-Serves}

abbrev two_words : List Text
two_words = codes "max" ∷ codes "depth" ∷ []

words-rename_example :
    All
      (λ style. words (rename (join_with (codes "_") two_words) style) ≡ two_words)
      (codes "kebab-case"
        ∷ codes "snake_case"
        ∷ codes "SCREAMING_SNAKE_CASE"
        ∷ codes "PascalCase"
        ∷ codes "verbatim"
        ∷ [])
words-rename_example =
    words-rename two_words
      ((refl, (refl, (refl, tt))), ((refl, (refl, (refl, (refl, (refl, tt))))), tt))

renamed : rename (codes "max_depth") (codes "PascalCase") ≡ codes "MaxDepth"
unfolding rename words words_from
renamed = refl

-- #[arg(long, value_delimiter = ',')]
abbrev attributes : List Attribute
attributes =
    record {
      name = codes "arg";
      metas =
          some (path (codes "long") ∷ name_value (codes "value_delimiter") (char_literal 44) ∷ []);
    }
    ∷ []

abbrev cfg : FieldCfg
cfg = record default_cfg { long = some (codes "tag-names"); value_delimiter = some 44 }

parsed : parse_field attributes (codes "tag_names") (codes "kebab-case") ≡ ok cfg
unfolding parse_field apply_arg rename words words_from
parsed = refl

abbrev item : Text → Item
item t = record { shown = t; named = t; argv = [] }

abbrev tags : List Item
tags = item (codes "a") ∷ item (codes "bc") ∷ []

appended :
    emit_vector (some (codes "--tag-names")) cfg false tags
    ≡ codes "--tag-names" ∷ codes "a,bc" ∷ []
unfolding emit_vector
appended = refl

free : (d : ℕ) → some 44 ≡ some d → All (Free d) (map (conversion cfg) tags)
free d e = ground (arith)

emit_vector-read_example :
    read_values
      (some (codes "--tag-names"))
      cfg
      false
      (emit_vector (some (codes "--tag-names")) cfg false tags)
    ≡ some (codes "a" ∷ codes "bc" ∷ [])
emit_vector-read_example = emit_vector-read (some (codes "--tag-names")) cfg false tags free

-- A variant that has a name of its own and a payload, and one that has fields.
abbrev first_variant : Variant
first_variant = record {
  ident = codes "Add";
  attrs =
      record {
        name = codes "command";
        metas = some (name_value (codes "name") (text_literal (codes "put")) ∷ []);
      }
      ∷ [];
  fields = unnamed 1;
}

abbrev second_variant : Variant
second_variant = record {
  ident = codes "DoIt";
  attrs = [];
  fields = named (record { ident = codes "n"; attrs = []; ty = simple false (codes "u8") } ∷ []);
}

abbrev commands : DeriveInput
commands = record { attrs = []; data_of = enum_data (second_variant ∷ first_variant ∷ []) }

abbrev made_code : Value → List Text
made_code = elim (expand commands) [ ok code ↦ code | err e ↦ λ v. [] ]

expand-Serves_example :
    Serves first_variant (codes "kebab-case") (λ p. made_code (variant_value (codes "Add") p))
unfolding expand expand_enum expand_payload variant_name rename words words_from emit_fields
    parse_field emit_field type_shape container_rename_all
expand-Serves_example =
    expand-Serves commands (second_variant ∷ []) first_variant [] made_code refl ((λ h. cc (h)), tt)
      refl
