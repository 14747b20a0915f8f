-- ===== src/Glob/Selection.antt =====
-- A list of patterns as a selection of entity ids.
use cpp_esphome_api.Base.{
  ℕ, ◌≡◌, refl, ap, ◌∙◌, inl, inr, Bool, true, false, ◌||◌, some, List, [], ◌∷◌, arith, ◌==◌,
  Bool-cases, All,
}
use cpp_esphome_api.Glob.{same_text, is_all_of, glob_match, any_of, first_match, glob_match_any}
use cpp_esphome_api.Glob.Meaning.{any_suffix, is_nil, matches}
use cpp_esphome_api.Glob.Reference.{wildcard-matches}

all_matched : (s : List ℕ) → any_suffix is_nil s ≡ true
unfolding any_suffix is_nil
all_matched [] = refl
all_matched (x ∷ xs) = all_matched xs

lone_star : (pat s : List ℕ) → same_text pat (42 ∷ []) ≡ true → matches pat s ≡ true
unfolding same_text matches
lone_star [] s h = absurd (ground (arith, h))
lone_star (q ∷ []) s h = let star : (q == 42) ≡ true = ground (arith, h) in rw star (all_matched s)
lone_star (q ∷ r ∷ qs) s h = absurd (ground (arith, h))

-- What a pattern selects: the texts that it matches, and the text that it is with ".*" behind it.
unfoldable pub covers : List ℕ → List ℕ → Bool
covers pat text = matches pat text || is_all_of pat text

glob_match-covers :
    (pat text : List ℕ)
    → All (λ c. (c == 42) ≡ false) text
    → glob_match pat text ≡ some (covers pat text)
unfolding glob_match covers
glob_match-covers pat text plain = elim (Bool-cases (same_text pat (42 ∷ []))) [
  | inl a ↦ rw (a, lone_star pat text a) refl
  | inr a ↦ elim (Bool-cases (is_all_of pat text)) [
    | inl b ↦ rw (a, b) (ap some (ground arith))
    | inr b ↦ rw (a, b) (wildcard-matches pat text plain ∙ ap some (ground arith))
  ]
]

unfoldable pub any_covers : List (List ℕ) → List ℕ → Bool
any_covers [] text = false
any_covers (p ∷ patterns) text = covers p text || any_covers patterns text

unfoldable pub selects : List (List ℕ) → List ℕ → Bool
selects [] text = true
selects (p ∷ patterns) text = any_covers (p ∷ patterns) text

first_match-any_covers :
    (patterns : List (List ℕ)) (text : List ℕ)
    → All (λ c. (c == 42) ≡ false) text
    → first_match patterns text ≡ some (any_covers patterns text)
unfolding first_match any_covers any_of
first_match-any_covers [] text plain = refl
first_match-any_covers (p ∷ patterns) text plain = elim (Bool-cases (covers p text)) [
  | inl a ↦ rw (glob_match-covers p text plain, a) refl
  | inr a ↦ rw (glob_match-covers p text plain, a) (first_match-any_covers patterns text plain)
]

-- On a text without stars, matching against any list of patterns ends, and it answers true exactly if the
-- list is empty or one of its patterns matches the text, a star for any characters and a question mark for
-- one, or is the text with ".*" behind it.
pub glob_match_any-selects :
    (patterns : List (List ℕ)) (text : List ℕ)
    → All (λ c. (c == 42) ≡ false) text
    → glob_match_any patterns text ≡ some (selects patterns text)
unfolding glob_match_any selects
glob_match_any-selects [] text plain = refl
glob_match_any-selects (p ∷ patterns) text plain = first_match-any_covers (p ∷ patterns) text plain
