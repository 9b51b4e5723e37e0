-- ===== src/Derive.antt =====
-- crates/outboard-clap-derive/src/lib.rs: the derive macro that turns a value into the arguments
-- that give it back. This file is how the macro names flags and subcommands.
pub mod Words
pub mod Cases
pub mod Config
pub mod Emission
pub mod Expansion
pub mod Subcommands
use outboard.Prelude.{
  ℕ, ◌+◌, ◌-◌, Text, codes, ◌≡◌, Bool, true, false, not, ◌&&◌, ◌||◌, ◌==◌, nat_eq, list_eq, leb,
  List, [], ◌∷◌, ◌++◌, map, Option, none, some, if◌then◌else◌,
}

abbrev pub is_upper : ℕ → Bool
is_upper c = leb 65 c && leb c 90

abbrev pub is_lower : ℕ → Bool
is_lower c = leb 97 c && leb c 122

abbrev pub to_lower : ℕ → ℕ
to_lower c = if is_upper c then c + 32 else c

abbrev pub to_upper : ℕ → ℕ
to_upper c = if is_lower c then c - 32 else c

-- str::to_ascii_lowercase
abbrev pub lowercase : Text → Text
lowercase s = map to_lower s

-- str::to_ascii_uppercase
abbrev pub uppercase : Text → Text
uppercase s = map to_upper s

-- `out.push(cur.to_ascii_lowercase())`, where `cur` is not empty
abbrev pub and_word : Text → List Text → List Text
and_word [] out = out
and_word (c ∷ cur) out = lowercase (c ∷ cur) ∷ out

abbrev pub has_lower : Option ℕ → Bool
has_lower none = false
has_lower (some c) = is_lower c

abbrev pub first_of : Text → Option ℕ
first_of [] = none
first_of (c ∷ s) = some c

abbrev pub is_gap : ℕ → Bool
is_gap c = c == 95 || c == 45

-- Whether a word begins at `ch`, between the character before it and those behind it.
abbrev pub is_boundary : Option ℕ → Text → ℕ → Text → Bool
is_boundary before [] ch rest = false
is_boundary before (c ∷ cur) ch rest =
    is_upper ch && (has_lower before || has_lower (first_of rest))

-- The loop of `words`, with the character before and the word begun.
unfoldable pub words_from : Option ℕ → Text → Text → List Text
words_from before cur [] = and_word cur []
words_from before cur (ch ∷ rest) =
    let fresh = words_from (some ch) [] rest in
    let split = words_from (some ch) (ch ∷ []) rest in
    let longer = words_from (some ch) (cur ++ ch ∷ []) rest in
    if is_gap ch
    then and_word cur fresh
    else if is_boundary before cur ch rest
    then and_word cur split
    else longer

-- words
unfoldable pub words : Text → List Text
words name = words_from none [] name

abbrev pub capitalize : Text → Text
capitalize [] = []
capitalize (c ∷ s) = to_upper c ∷ s

-- slice::join
abbrev pub join_with : Text → List Text → Text
join_with sep [] = []
join_with sep (w ∷ []) = w
join_with sep (w ∷ v ∷ ws) = w ++ (sep ++ join_with sep (v ∷ ws))

abbrev pub concat : List Text → Text
concat [] = []
concat (w ∷ ws) = w ++ concat ws

abbrev pub pascal : List Text → Text
pascal ws = concat (map capitalize ws)

abbrev pub camel : List Text → Text
camel [] = []
camel (w ∷ ws) = w ++ pascal ws

-- rename
unfoldable pub rename : Text → Text → Text
rename name style =
    if style == codes "kebab-case"
    then join_with (codes "-") (words name)
    else if style == codes "snake_case"
    then join_with (codes "_") (words name)
    else if style == codes "SCREAMING_SNAKE_CASE"
    then uppercase (join_with (codes "_") (words name))
    else if style == codes "lower" || style == codes "lowercase"
    then lowercase (join_with [] (words name))
    else if style == codes "UPPER" || style == codes "UPPERCASE"
    then uppercase (join_with [] (words name))
    else if style == codes "camelCase"
    then camel (words name)
    else if style == codes "PascalCase"
    then pascal (words name)
    else if style == codes "verbatim"
    then name
    else join_with (codes "-") (words name)
