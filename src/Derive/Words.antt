-- ===== src/Derive/Words.antt =====
-- How the words of a name come through its renaming.
use mathlib.Core.List.{append-nil, append_assoc}
use outboard.Prelude.{
  ℕ, ◌≤◌, Text, ◌≡◌, refl, sym, ap, ◌∙◌, true, nat_eq, list_eq, List, [], ◌∷◌, ◌++◌, Option, some,
  All, arith, ◌⊎◌,
}
use outboard.Derive.{lowercase, and_word, is_gap, words_from, join_with}

-- A character of a word of a name: a lowercase letter or a digit.
abbrev pub IsPlain : ℕ → Type 0
IsPlain c = ((97 ≤ c) × (c ≤ 122)) ⊎ ((48 ≤ c) × (c ≤ 57))

abbrev pub IsWord : Text → Type 0
IsWord [] = ⊥
IsWord (c ∷ s) = All IsPlain (c ∷ s)

pub lowercase-plain : (s : Text) → All IsPlain s → lowercase s ≡ s
lowercase-plain [] h = refl
lowercase-plain (c ∷ s) (p, h) = ground (arith, lowercase-plain s h)

plain_step :
    (before : Option ℕ) (cur : Text) (c : ℕ) (rest : Text)
    → IsPlain c
    → words_from before cur (c ∷ rest) ≡ words_from (some c) (cur ++ c ∷ []) rest
unfolding words_from
plain_step before [] c rest p = ground arith
plain_step before (d ∷ cur) c rest p = ground arith

word_end :
    (before : Option ℕ) (cur s : Text)
    → All IsPlain s
    → words_from before cur s ≡ and_word (cur ++ s) []
unfolding words_from
word_end before cur [] h = ap (λ t. and_word t []) (sym (append-nil cur))
word_end before cur (c ∷ s) (p, h) =
    plain_step before cur c s p
    ∙ word_end (some c) (cur ++ c ∷ []) s h
    ∙ ap (λ t. and_word t []) (append_assoc cur (c ∷ []) s)

word_gap :
    (before : Option ℕ) (cur s : Text) (g : ℕ) (rest : Text)
    → All IsPlain s
    → is_gap g ≡ true
    → words_from before cur (s ++ g ∷ rest) ≡ and_word (cur ++ s) (words_from (some g) [] rest)
unfolding words_from
word_gap before cur [] g rest h gap = ground (arith, append-nil cur)
word_gap before cur (c ∷ s) g rest (p, h) gap =
    plain_step before cur c (s ++ g ∷ rest) p
    ∙ word_gap (some c) (cur ++ c ∷ []) s g rest h gap
    ∙ ap (λ t. and_word t (words_from (some g) [] rest)) (append_assoc cur (c ∷ []) s)

pub words_from-join :
    (before : Option ℕ) (g : ℕ) (ws : List Text)
    → is_gap g ≡ true
    → All IsWord ws
    → words_from before [] (join_with (g ∷ []) ws) ≡ ws
unfolding words_from
words_from-join before g [] gap h = refl
words_from-join before g ([] ∷ ws) gap (w, h) = absurd w
words_from-join before g ((c ∷ s) ∷ []) gap (w, h) =
    word_end before [] (c ∷ s) w ∙ ap (λ t. t ∷ []) (lowercase-plain (c ∷ s) w)
words_from-join before g ((c ∷ s) ∷ v ∷ ws) gap (w, h) =
    word_gap before [] (c ∷ s) g (join_with (g ∷ []) (v ∷ ws)) w gap
    ∙ ap (λ t. t ∷ words_from (some g) [] (join_with (g ∷ []) (v ∷ ws))) (lowercase-plain (c ∷ s) w)
    ∙ ap (λ t. (c ∷ s) ∷ t) (words_from-join (some g) g (v ∷ ws) gap h)
