-- ===== src/Glob/Tests.antt =====
-- Patterns at concrete texts.
use cpp_esphome_api.Base.{ℕ, ◌≡◌, refl, false, some, List, [], ◌∷◌}
use cpp_esphome_api.Base.Fuel.{budget}
use cpp_esphome_api.Glob.{
  fits, retry, turn, only_stars, onward, wildcard_loop, wildcard, glob_match_any,
}
use cpp_esphome_api.Glob.Selection.{selects, glob_match_any-selects}

-- "l*t.*" and "light.*", against "light".
abbrev patterns : List (List ℕ)
patterns = (108 ∷ 42 ∷ 116 ∷ 46 ∷ 42 ∷ []) ∷ (108 ∷ 105 ∷ 103 ∷ 104 ∷ 116 ∷ 46 ∷ 42 ∷ []) ∷ []

abbrev light : List ℕ
light = 108 ∷ 105 ∷ 103 ∷ 104 ∷ 116 ∷ []

glob_match_any-selects_example : glob_match_any patterns light ≡ some (selects patterns light)
glob_match_any-selects_example =
    glob_match_any-selects patterns light (refl, (refl, (refl, (refl, (refl, _)))))

-- The loop takes a star in the text for the star of the pattern: "*c" is not found in "*abc".
star_in_text : wildcard (42 ∷ 99 ∷ []) (42 ∷ 97 ∷ 98 ∷ 99 ∷ []) ≡ some false
unfolding wildcard wildcard_loop turn fits retry onward only_stars budget
star_in_text = refl
