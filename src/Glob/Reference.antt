-- ===== src/Glob/Reference.antt =====
-- What a wildcard pattern means, and that the loop with one star to go back to finds it.
use cpp_esphome_api.Base.{
  ℕ, zero, suc, ◌+◌, ◌≤◌, ◌<◌, ◌≡◌, refl, sym, ap, ◌∙◌, inl, inr, Bool, true, false, ◌&&◌, ◌||◌,
  none, some, List, [], ◌∷◌, arith, ◌==◌, Bool-cases, length, All,
}
use cpp_esphome_api.Base.Fuel.{budget, budget_mono}
use cpp_esphome_api.Glob.{
  Star, fits, retry, turn, only_stars, onward, wildcard_loop, wildcard_fuel, wildcard,
}
use cpp_esphome_api.Glob.Meaning.{
  any_suffix, later, head_fits, is_nil, matches, any_suffix-later, later-any_suffix, length-Linked,
  later-Linked, Linked, here, step,
}

-- What the star may still give.
again : Star → Bool
unfolding later matches
again none = false
again (some (sp, m)) = later (matches sp) m

IsPlain : List ℕ → Type 0
IsPlain s = All (λ c. (c == 42) ≡ false) s

-- A star goes with the position; the lengths stay within those of the arguments.
IsLinked : ℕ → ℕ → Star → List ℕ → List ℕ → Type 0
unfolding IsPlain
IsLinked lp lt none p t = Unit
IsLinked lp lt (some (sp, m)) p t = Linked sp m p t × IsPlain m × (length sp ≤ lp) × (length m ≤ lt)

-- How often the star can still be tried again.
tries : ℕ → Star → ℕ
tries lt none = lt + 1
tries lt (some (sp, m)) = length m

abbrev rank : ℕ → ℕ → List ℕ → List ℕ → Star → ℕ
rank lp lt p t star = budget (tries lt star) (lp + lt + 1) + length p + length t

only_stars-matches : (p : List ℕ) → only_stars p ≡ matches p []
unfolding only_stars matches any_suffix head_fits is_nil
only_stars-matches [] = refl
only_stars-matches (q ∷ qs) = elim (Bool-cases (q == 42)) [
  | inl e ↦ rw e (only_stars-matches qs)
  | inr e ↦ rw e refl
]

at_end : (lp lt : ℕ) (star : Star) (p : List ℕ) → IsLinked lp lt star p [] → again star ≡ false
unfolding IsLinked again
at_end lp lt none p h = refl
at_end lp lt (some (sp, m)) p (l, plain, hp, ht) = elim (Bool-cases (later (matches sp) m)) [
  | inl e ↦ absurd (ground (arith, later-Linked sp m p [] l e))
  | inr e ↦ e
]

-- The loop on some fuel answers the matches of what is left and of what the star may give.
Works : ℕ → ℕ → ℕ → Type 0
unfolding IsPlain IsLinked tries
Works lp lt fuel =
    (p t : List ℕ) (star : Star)
    → IsPlain t
    → IsLinked lp lt star p t
    → length p ≤ lp
    → length t ≤ lt
    → rank lp lt p t star < fuel
    → wildcard_loop fuel p t star ≡ some (matches p t || again star)

retry-Works :
    (lp lt fuel : ℕ) (p t : List ℕ) (x : ℕ) (star : Star)
    → Works lp lt fuel
    → IsLinked lp lt star p (x ∷ t)
    → rank lp lt p (x ∷ t) star < suc fuel
    → onward (retry star) (λ s. wildcard_loop fuel s.p s.t s.star) ≡ some (again star)
unfolding Works IsLinked IsPlain tries retry onward again later
retry-Works lp lt fuel p t x none works l r = refl
retry-Works lp lt fuel p t x (some (sp, [])) works (l, plain, hp, ht) r =
    let short = length-Linked sp [] p (x ∷ t) l in absurd (omega arith)
retry-Works lp lt fuel p t x (some (sp, y ∷ ys)) works (l, (c, plain), hp, ht) r =
    let less : budget (suc (length ys)) (lp + lt + 1)
        ≡ lp + lt + 1 + budget (length ys) (lp + lt + 1) =
      unfold budget in refl in
    works sp ys (some (sp, ys)) plain (here, plain, hp, omega arith) hp (omega arith)
      (omega (arith, less))
    ∙ ap some (sym (any_suffix-later (matches sp) ys))

tries-bound :
    (lp lt : ℕ) (star : Star) (p t : List ℕ)
    → IsLinked lp lt star p t
    → length t ≤ lt
    → length t ≤ tries lt star
unfolding IsLinked tries
tries-bound lp lt none p t l h = omega arith
tries-bound lp lt (some (sp, m)) p t (l, plain, hp, ht) h = length-Linked sp m p t l

-- After a fitting character the star goes with what is left.
IsLinked-step :
    (lp lt : ℕ) (star : Star) (q x : ℕ) (p t : List ℕ)
    → IsLinked lp lt star (q ∷ p) (x ∷ t)
    → (q == 42) ≡ false
    → IsLinked lp lt star p t
unfolding IsLinked
IsLinked-step lp lt none q x p t l e = _
IsLinked-step lp lt (some (sp, m)) q x p t (l, plain, hp, ht) e = (step q x p t l e, plain, hp, ht)

fits_plain : (q x : ℕ) → fits q x ≡ true → (x == 42) ≡ false → (q == 42) ≡ false
unfolding fits
fits_plain q x h e = ground arith

-- What an older star may give, the newer one gives too.
again-any_suffix :
    (lp lt : ℕ) (star : Star) (q : ℕ) (p t : List ℕ)
    → IsLinked lp lt star (q ∷ p) t
    → (q == 42) ≡ true
    → (any_suffix (matches p) t || again star) ≡ any_suffix (matches p) t
unfolding IsLinked again
again-any_suffix lp lt none q p t l e = ground arith
again-any_suffix lp lt (some (sp, m)) q p t (l, plain, hp, ht) e =
    elim (Bool-cases (later (matches sp) m)) [
      | inl a ↦
          let f : matches (q ∷ p) ≡ any_suffix (matches p) = unfold matches in rw e refl in
          let old = later-Linked sp m (q ∷ p) t l a in
          let new = later-any_suffix (matches p) t (sym (ap (λ g. later g t) f) ∙ old) in
          rw (a, new) refl
      | inr a ↦ rw a (ground arith)
    ]

matches-nil : (x : ℕ) (xs : List ℕ) → matches [] (x ∷ xs) ≡ false
unfolding matches is_nil
matches-nil x xs = refl

matches-star :
    (q : ℕ) (qs t : List ℕ) → (q == 42) ≡ true → matches (q ∷ qs) t ≡ any_suffix (matches qs) t
unfolding matches
matches-star q qs t e = rw e refl

matches-cons :
    (q : ℕ) (qs : List ℕ) (x : ℕ) (xs : List ℕ)
    → (q == 42) ≡ false
    → matches (q ∷ qs) (x ∷ xs) ≡ (fits q x && matches qs xs)
unfolding matches head_fits
matches-cons q qs x xs e = rw e refl

star-Works :
    (lp lt fuel q : ℕ) (qs : List ℕ) (x : ℕ) (xs : List ℕ) (star : Star)
    → Works lp lt fuel
    → IsPlain (x ∷ xs)
    → IsLinked lp lt star (q ∷ qs) (x ∷ xs)
    → length (q ∷ qs) ≤ lp
    → length (x ∷ xs) ≤ lt
    → rank lp lt (q ∷ qs) (x ∷ xs) star < suc fuel
    → (q == 42) ≡ true
    → wildcard_loop fuel qs (x ∷ xs) (some (qs, x ∷ xs))
      ≡ some (any_suffix (matches qs) (x ∷ xs) || again star)
unfolding Works IsLinked IsPlain again tries
star-Works lp lt fuel q qs x xs star works plain l hp ht r b =
    let older = tries-bound lp lt star (q ∷ qs) (x ∷ xs) l ht in
    let less = budget_mono (length (x ∷ xs)) (tries lt star) (lp + lt + 1) older in
    works qs (x ∷ xs) (some (qs, x ∷ xs)) plain (here, plain, omega arith, ht) (omega arith) ht
      (omega (arith, less))
    ∙ ap some (
        sym (any_suffix-later (matches qs) (x ∷ xs))
        ∙ sym (again-any_suffix lp lt star q qs (x ∷ xs) l b))

works : (lp lt fuel : ℕ) → Works lp lt fuel
unfolding Works wildcard_loop turn onward IsPlain
works lp lt zero p t star plain l hp ht r = absurd (omega arith)
works lp lt (suc fuel) p [] star plain l hp ht r =
    rw (at_end lp lt star p l, only_stars-matches p) (ground arith)
works lp lt (suc fuel) [] (x ∷ xs) star plain l hp ht r =
    let again_ = works lp lt fuel in
    rw (matches-nil x xs) (retry-Works lp lt fuel [] xs x star again_ l r)
works lp lt (suc fuel) (q ∷ qs) (x ∷ xs) star (c, plain) l hp ht r =
    let again_ = works lp lt fuel in
    elim (Bool-cases (fits q x)) [
      | inl a ↦
          let b = fits_plain q x a c in
          let l' = IsLinked-step lp lt star q x qs xs l b in
          rw (matches-cons q qs x xs b, a)
            (again_ qs xs star plain l' (omega arith) (omega arith) (omega arith))
      | inr a ↦ elim (Bool-cases (q == 42)) [
        | inl b ↦
            rw (matches-star q qs (x ∷ xs) b, a, b)
              (star-Works lp lt fuel q qs x xs star again_ (c, plain) l hp ht r b)
        | inr b ↦
            rw (matches-cons q qs x xs b, a, b)
              (retry-Works lp lt fuel (q ∷ qs) xs x star again_ l r)
      ]
    ]

-- A wildcard pattern on a text without stars: the loop ends, and it answers whether the pattern matches.
pub wildcard-matches :
    (pat s : List ℕ) → All (λ c. (c == 42) ≡ false) s → wildcard pat s ≡ some (matches pat s)
unfolding wildcard Works IsPlain IsLinked tries again
wildcard-matches pat s plain =
    works (length pat) (length s) (wildcard_fuel pat s) pat s none plain _ (omega arith)
      (omega arith) (omega arith)
    ∙ ap some (ground arith)
