-- ===== src/Derive/Cases.antt =====
-- How the words of a name come through a change of case.
use mathlib.Core.List.{append-nil, append_assoc}
use outboard.Prelude.{
  ℕ, Text, codes, ◌≡◌, refl, sym, ap, ◌∙◌, true, false, nat_eq, list_eq, List, [], ◌∷◌, ◌++◌, map,
  Option, none, some, All, arith, inl,
}
use outboard.Derive.{
  is_lower, to_upper, lowercase, uppercase, and_word, has_lower, first_of, is_gap, words_from,
  words, join_with, pascal, rename,
}
use outboard.Derive.Words.{IsPlain, IsWord, words_from-join}

map-append : (f : ℕ → ℕ) (xs ys : Text) → map f (xs ++ ys) ≡ map f xs ++ map f ys
map-append f [] ys = refl
map-append f (x ∷ xs) ys = ap (λ t. f x ∷ t) (map-append f xs ys)

lowercase-uppercase : (s : Text) → All IsPlain s → lowercase (uppercase s) ≡ s
lowercase-uppercase [] h = refl
lowercase-uppercase (c ∷ s) (p, h) = ground (arith, lowercase-uppercase s h)

-- No word begins within capitals.
loud_step :
    (before : Option ℕ) (cur : Text) (c : ℕ) (rest : Text)
    → IsPlain c
    → has_lower before ≡ false
    → has_lower (first_of rest) ≡ false
    → words_from before cur (to_upper c ∷ rest)
      ≡ words_from (some (to_upper c)) (cur ++ to_upper c ∷ []) rest
unfolding words_from
loud_step before [] c rest p b n = ground arith
loud_step before (d ∷ cur) c rest p b n = ground arith

quiet_first :
    (s : Text) (g : ℕ) (rest : Text)
    → All IsPlain s
    → is_gap g ≡ true
    → has_lower (first_of (uppercase s ++ g ∷ rest)) ≡ false
quiet_first [] g rest h gap = ground arith
quiet_first (c ∷ s) g rest (p, h) gap = ground arith

quiet_end : (s : Text) → All IsPlain s → has_lower (first_of (uppercase s)) ≡ false
quiet_end [] h = refl
quiet_end (c ∷ s) (p, h) = ground arith

loud_end :
    (before : Option ℕ) (cur s : Text)
    → All IsPlain s
    → has_lower before ≡ false
    → words_from before cur (uppercase s) ≡ and_word (cur ++ uppercase s) []
unfolding words_from
loud_end before cur [] h b = ap (λ t. and_word t []) (sym (append-nil cur))
loud_end before cur (c ∷ s) (p, h) b =
    loud_step before cur c (uppercase s) p b (quiet_end s h)
    ∙ loud_end (some (to_upper c)) (cur ++ to_upper c ∷ []) s h (ground arith)
    ∙ ap (λ t. and_word t []) (append_assoc cur (to_upper c ∷ []) (uppercase s))

loud_gap :
    (before : Option ℕ) (cur s : Text) (g : ℕ) (rest : Text)
    → All IsPlain s
    → has_lower before ≡ false
    → is_gap g ≡ true
    → words_from before cur (uppercase s ++ g ∷ rest)
      ≡ and_word (cur ++ uppercase s) (words_from (some g) [] rest)
unfolding words_from
loud_gap before cur [] g rest h b gap = ground (arith, append-nil cur)
loud_gap before cur (c ∷ s) g rest (p, h) b gap =
    loud_step before cur c (uppercase s ++ g ∷ rest) p b (quiet_first s g rest h gap)
    ∙ loud_gap (some (to_upper c)) (cur ++ to_upper c ∷ []) s g rest h (ground arith) gap
    ∙ ap (λ t. and_word t (words_from (some g) [] rest))
        (append_assoc cur (to_upper c ∷ []) (uppercase s))

pub words_from-uppercase :
    (before : Option ℕ) (ws : List Text)
    → has_lower before ≡ false
    → All IsWord ws
    → words_from before [] (uppercase (join_with (95 ∷ []) ws)) ≡ ws
unfolding words_from
words_from-uppercase before [] b h = refl
words_from-uppercase before ([] ∷ ws) b (w, h) = absurd w
words_from-uppercase before ((c ∷ s) ∷ []) b (w, h) =
    loud_end before [] (c ∷ s) w b ∙ ap (λ t. t ∷ []) (lowercase-uppercase (c ∷ s) w)
words_from-uppercase before ((c ∷ s) ∷ v ∷ ws) b (w, h) =
    ap (words_from before []) (map-append to_upper (c ∷ s) (95 ∷ join_with (95 ∷ []) (v ∷ ws)))
    ∙ loud_gap before [] (c ∷ s) 95 (uppercase (join_with (95 ∷ []) (v ∷ ws))) w b refl
    ∙ ap (λ t. t ∷ words_from (some 95) [] (uppercase (join_with (95 ∷ []) (v ∷ ws))))
        (lowercase-uppercase (c ∷ s) w)
    ∙ ap (λ t. (c ∷ s) ∷ t) (words_from-uppercase (some 95) (v ∷ ws) refl h)

-- A word of at least two letters.
abbrev pub IsLetters : Text → Type 0
IsLetters (c ∷ d ∷ s) = All (λ x. is_lower x ≡ true) (c ∷ d ∷ s)
IsLetters _ = ⊥

lowercase-letters : (s : Text) → All (λ x. is_lower x ≡ true) s → lowercase s ≡ s
lowercase-letters [] h = refl
lowercase-letters (c ∷ s) (p, h) = ground (arith, lowercase-letters s h)

letter_step :
    (before : Option ℕ) (cur : Text) (d : ℕ) (rest : Text)
    → is_lower d ≡ true
    → words_from before cur (d ∷ rest) ≡ words_from (some d) (cur ++ d ∷ []) rest
unfolding words_from
letter_step before [] d rest p = ground arith
letter_step before (c ∷ cur) d rest p = ground arith

-- Letters go to the word that was begun, and the last of them stands before what follows.
letters_run :
    (before : Option ℕ) (cur : Text) (d : ℕ) (s rest : Text)
    → All (λ x. is_lower x ≡ true) (d ∷ s)
    → (q : ℕ) × (is_lower q ≡ true)
      × (words_from before cur (d ∷ (s ++ rest)) ≡ words_from (some q) (cur ++ d ∷ s) rest)
letters_run before cur d [] rest (p, h) = (d, p, letter_step before cur d rest p)
letters_run before cur d (e ∷ s) rest (p, h) =
    let (q, lower, eq) = letters_run (some d) (cur ++ d ∷ []) e s rest h in
    (
      q,
      lower,
      letter_step before cur d (e ∷ (s ++ rest)) p
          ∙ eq
          ∙ ap (λ t. words_from (some q) t rest) (append_assoc cur (d ∷ []) (e ∷ s)),
    )

-- A capital behind a letter begins a word.
capital_step :
    (q : ℕ) (cur : Text) (c : ℕ) (rest : Text)
    → is_lower q ≡ true
    → is_lower c ≡ true
    → words_from (some q) cur (to_upper c ∷ rest)
      ≡ and_word cur (words_from (some (to_upper c)) (to_upper c ∷ []) rest)
unfolding words_from
capital_step q [] c rest lower p = ground arith
capital_step q (d ∷ cur) c rest lower p = ground arith

pascal_from :
    (q : ℕ) (cur : Text) (ws : List Text)
    → is_lower q ≡ true
    → All IsLetters ws
    → words_from (some q) cur (pascal ws) ≡ and_word cur ws
unfolding words_from
pascal_from q cur [] lower h = refl
pascal_from q cur ([] ∷ ws) lower (w, h) = absurd w
pascal_from q cur ((c ∷ []) ∷ ws) lower (w, h) = absurd w
pascal_from q cur ((c ∷ d ∷ s) ∷ ws) lower ((pc, w), h) =
    let (r, lower_r, eq) = letters_run (some (to_upper c)) (to_upper c ∷ []) d s (pascal ws) w in
    capital_step q cur c (d ∷ (s ++ pascal ws)) lower pc
    ∙ ap (and_word cur) (
        eq
        ∙ pascal_from r (to_upper c ∷ d ∷ s) ws lower_r h
        ∙ ap (λ t. t ∷ ws) (lowercase-capital c (d ∷ s) pc w))
  where
    lowercase-capital :
        (c : ℕ) (s : Text)
        → is_lower c ≡ true
        → All (λ x. is_lower x ≡ true) s
        → lowercase (to_upper c ∷ s) ≡ c ∷ s
    lowercase-capital c s p h = ground (arith, lowercase-letters s h)

pub words-pascal : (ws : List Text) → All IsLetters ws → words (pascal ws) ≡ ws
unfolding words words_from
words-pascal [] h = refl
words-pascal ([] ∷ ws) (w, h) = absurd w
words-pascal ((c ∷ []) ∷ ws) (w, h) = absurd w
words-pascal ((c ∷ d ∷ s) ∷ ws) ((pc, w), h) =
    first_capital ∙ pascal_from 97 [] ((c ∷ d ∷ s) ∷ ws) refl ((pc, w), h)
  where
    first_capital :
        words_from none [] (to_upper c ∷ (d ∷ (s ++ pascal ws)))
        ≡ words_from (some 97) [] (to_upper c ∷ (d ∷ (s ++ pascal ws)))
    first_capital = refl

letters-IsWord : (ws : List Text) → All IsLetters ws → All IsWord ws
letters-IsWord [] h = tt
letters-IsWord ([] ∷ ws) (w, h) = absurd w
letters-IsWord ((c ∷ []) ∷ ws) (w, h) = absurd w
letters-IsWord ((c ∷ d ∷ s) ∷ ws) (w, h) = (plain (c ∷ d ∷ s) w, letters-IsWord ws h)
  where
    plain : (s : Text) → All (λ x. is_lower x ≡ true) s → All IsPlain s
    plain [] h = tt
    plain (c ∷ s) (p, h) = (inl (ground arith, ground arith), plain s h)

-- A field's name made of words of two letters or more keeps these words in each of the styles that
-- show where a word begins.
pub words-rename :
    (ws : List Text)
    → All IsLetters ws
    → All
        (λ style. words (rename (join_with (codes "_") ws) style) ≡ ws)
        (codes "kebab-case"
          ∷ codes "snake_case"
          ∷ codes "SCREAMING_SNAKE_CASE"
          ∷ codes "PascalCase"
          ∷ codes "verbatim"
          ∷ [])
unfolding words rename
words-rename ws h =
    let plain = letters-IsWord ws h in
    let given : words (join_with (codes "_") ws) ≡ ws = words_from-join none 95 ws refl plain in
    (
      ap (λ vs. words (join_with (codes "-") vs)) given ∙ words_from-join none 45 ws refl plain,
      (
        ap (λ vs. words (join_with (codes "_") vs)) given ∙ given,
        (
          ap (λ vs. words (uppercase (join_with (codes "_") vs))) given
              ∙ words_from-uppercase none ws refl plain,
          (ap (λ vs. words (pascal vs)) given ∙ words-pascal ws h, (given, tt)),
        ),
      ),
    )
