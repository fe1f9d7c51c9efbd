-- ===== src/Evaluation/Words.antt =====
-- What internal/evaluation/evaluation.go uses of package strings, and its ratio of repeated words.
use aegis_ai_platform.Prelude.{
  ℕ, ◌+◌, ◌*◌, max, Text, text_eq, is_space, Bool, true, false, ◌&&◌, ◌||◌, List, [], ◌∷◌, ◌++◌,
  Option, none, some, lookup, insert, length, ltb, nat_beq, ◌==◌, if◌then◌else◌,
}

abbrev pub is_empty {ℓ} : {A : Type ℓ} → List A → Bool
is_empty [] = true
is_empty (x ∷ xs) = false

-- strings.Fields, with the word that is being read.
unfoldable pub fields_from : Text → Text → List Text
fields_from word [] = if is_empty word then [] else word ∷ []
fields_from word (c ∷ s) =
    let next = fields_from [] s in
    let longer = fields_from (word ++ c ∷ []) s in
    if is_space c then (if is_empty word then next else word ∷ next) else longer

abbrev count_of : Option ℕ → ℕ
count_of none = 0
count_of (some n) = n

-- The loop of repeatedRatio: the counts and their maximum.
unfoldable pub most_repeated : List (Text × ℕ) → ℕ → List Text → ℕ
most_repeated counts maximum [] = maximum
most_repeated counts maximum (word ∷ words) =
    let count = count_of (lookup word counts) + 1 in
    most_repeated (insert word count counts) (max maximum count) words

-- repeatedRatio(words) > 0.6. The quotient of two numbers below 2^50 is rounded to the double of 0.6
-- only where it is 3/5, so the comparison is that of the fractions.
unfoldable pub is_repetitive : List Text → Bool
unfolding most_repeated
is_repetitive words = ltb (3 * length words) (5 * most_repeated [] 0 words)

unfoldable pub has_prefix : Text → Text → Bool
has_prefix s [] = true
has_prefix [] (d ∷ p) = false
has_prefix (c ∷ s) (d ∷ p) = nat_beq c d && has_prefix s p

unfoldable pub has_suffix : Text → Text → Bool
has_suffix [] p = [] == p
has_suffix (c ∷ s) p = (c ∷ s) == p || has_suffix s p

unfoldable pub contains_text : Text → Text → Bool
unfolding has_prefix
contains_text [] p = has_prefix [] p
contains_text (c ∷ s) p = has_prefix (c ∷ s) p || contains_text s p
