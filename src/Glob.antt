-- ===== src/Glob.antt =====
-- bin/commands/glob.cpp: wildcard patterns over entity ids. An index into a text is the rest from there on.
pub mod Meaning
pub mod Reference
pub mod Selection
pub mod Tests
use cpp_esphome_api.Base.Fuel.{budget}
use cpp_esphome_api.Base.{
  ℕ, zero, suc, ◌+◌, Bool, true, false, ◌&&◌, ◌||◌, Option, none, some, List, [], ◌∷◌, ◌++◌, ◌==◌,
  if◌then◌else◌, length,
}

-- The star that was passed last: the pattern behind it, and the rest of the text at `mark`.
abbrev pub Star : Type 0
Star = Option (List ℕ × List ℕ)

pub record Position : Type 0 where
  pub p : List ℕ
  pub t : List ℕ
  pub star : Star

-- `pat[p] == '?' || pat[p] == s[t]`
unfoldable pub fits : ℕ → ℕ → Bool
fits q x = (q == 63) || (q == x)

-- The star takes one more character; `mark` is before the end as long as there is text.
unfoldable pub retry : Star → Option Position
retry none = none
retry (some (p, [])) = none
retry (some (p, y ∷ ys)) = some (record { p = p; t = ys; star = some (p, ys) })

-- A pass of the loop with text left; `none` is `return false`.
unfoldable pub turn : List ℕ → ℕ → List ℕ → Star → Option Position
turn [] x xs star = retry star
turn (q ∷ qs) x xs star =
    if fits q x
    then some (record { p = qs; t = xs; star = star })
    else if q == 42
    then some (record { p = qs; t = x ∷ xs; star = some (qs, x ∷ xs) })
    else retry star

-- What is left of the pattern is stars.
unfoldable pub only_stars : List ℕ → Bool
only_stars [] = true
only_stars (q ∷ qs) = (q == 42) && only_stars qs

unfoldable pub onward : Option Position → (Position → Option Bool) → Option Bool
onward none rest = some false
onward (some s) rest = rest s

-- `none` only if the fuel runs out.
unfoldable pub wildcard_loop : ℕ → List ℕ → List ℕ → Star → Option Bool
wildcard_loop zero p t star = none
wildcard_loop (suc fuel) p [] star = some (only_stars p)
wildcard_loop (suc fuel) p (x ∷ xs) star =
    onward (turn p x xs star) (λ s. wildcard_loop fuel s.p s.t s.star)

-- A star starts over at most once for each character of the text.
abbrev pub wildcard_fuel : List ℕ → List ℕ → ℕ
wildcard_fuel pat s = budget (length s + 1) (length pat + length s + 1) + length pat + length s + 1

unfoldable pub wildcard : List ℕ → List ℕ → Option Bool
wildcard pat s = wildcard_loop (wildcard_fuel pat s) pat s none

unfoldable pub same_text : List ℕ → List ℕ → Bool
same_text [] [] = true
same_text (x ∷ xs) (y ∷ ys) = (x == y) && same_text xs ys
same_text _ _ = false

-- The pattern is the text and ".*".
unfoldable pub is_all_of : List ℕ → List ℕ → Bool
is_all_of pattern_ text = same_text pattern_ (text ++ (46 ∷ 42 ∷ []))

unfoldable pub glob_match : List ℕ → List ℕ → Option Bool
glob_match pattern_ text =
    if same_text pattern_ (42 ∷ [])
    then some true
    else if is_all_of pattern_ text
    then some true
    else wildcard pattern_ text

-- `std::any_of`, which stops at the first pattern that matches.
unfoldable pub any_of : Option Bool → Option Bool → Option Bool
any_of none rest = none
any_of (some true) rest = some true
any_of (some false) rest = rest

unfoldable pub first_match : List (List ℕ) → List ℕ → Option Bool
first_match [] text = some false
first_match (p ∷ patterns) text = any_of (glob_match p text) (first_match patterns text)

unfoldable pub glob_match_any : List (List ℕ) → List ℕ → Option Bool
glob_match_any [] text = some true
glob_match_any (p ∷ patterns) text = first_match (p ∷ patterns) text
