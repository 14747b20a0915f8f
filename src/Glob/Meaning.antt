-- ===== src/Glob/Meaning.antt =====
-- What a wildcard pattern means, and what a star may still give.
use cpp_esphome_api.Base.{
  ℕ, suc, ◌≤◌, ◌≡◌, refl, sym, ap, ◌∙◌, inl, inr, Bool, true, false, ◌&&◌, ◌||◌, List, [], ◌∷◌,
  arith, ◌==◌, if◌then◌else◌, Bool-cases, length,
}
use cpp_esphome_api.Glob.{fits}

unfoldable pub any_suffix : (List ℕ → Bool) → List ℕ → Bool
any_suffix f [] = f []
any_suffix f (x ∷ xs) = let rest = any_suffix f xs in f (x ∷ xs) || rest

-- The suffixes behind the first character.
unfoldable pub later : (List ℕ → Bool) → List ℕ → Bool
unfolding any_suffix
later f [] = false
later f (x ∷ xs) = any_suffix f xs

unfoldable pub head_fits : ℕ → (List ℕ → Bool) → List ℕ → Bool
head_fits q f [] = false
head_fits q f (x ∷ xs) = fits q x && f xs

unfoldable pub is_nil : List ℕ → Bool
is_nil [] = true
is_nil (x ∷ xs) = false

-- A star stands for any text, a question mark for any character, another character for itself.
unfoldable pub matches : List ℕ → List ℕ → Bool
unfolding any_suffix head_fits is_nil
matches [] = is_nil
matches (q ∷ qs) = if q == 42 then any_suffix (matches qs) else head_fits q (matches qs)

pub any_suffix-later : (f : List ℕ → Bool) (s : List ℕ) → any_suffix f s ≡ (f s || later f s)
unfolding any_suffix later
any_suffix-later f [] = ground arith
any_suffix-later f (x ∷ xs) = refl

or_right : (a b : Bool) → b ≡ true → (a || b) ≡ true
or_right a b h = ground (arith, h)

any_suffix_of-later : (f : List ℕ → Bool) (s : List ℕ) → later f s ≡ true → any_suffix f s ≡ true
any_suffix_of-later f s h = any_suffix-later f s ∙ or_right (f s) (later f s) h

-- A match behind a further character is a later match.
later_of-head_fits :
    (q : ℕ) (f : List ℕ → Bool) (s : List ℕ)
    → any_suffix (head_fits q f) s ≡ true
    → later f s ≡ true
unfolding any_suffix head_fits later
later_of-head_fits q f [] h = absurd (ground (arith, h))
later_of-head_fits q f (y ∷ ys) h = elim (Bool-cases (fits q y && f ys)) [
  | inl a ↦ any_suffix-later f ys ∙ ground (arith, a)
  | inr a ↦ any_suffix_of-later f ys (later_of-head_fits q f ys (sym (rw a refl) ∙ h))
]

-- Two stars in a row are one.
any_suffix-any_suffix :
    (f : List ℕ → Bool) (s : List ℕ) → any_suffix (any_suffix f) s ≡ true → any_suffix f s ≡ true
unfolding any_suffix later
any_suffix-any_suffix f [] h = h
any_suffix-any_suffix f (x ∷ xs) h = elim (Bool-cases (any_suffix f (x ∷ xs))) [
  | inl a ↦ a
  | inr a ↦ any_suffix_of-later f (x ∷ xs) (any_suffix-any_suffix f xs (sym (rw a refl) ∙ h))
]

pub later-any_suffix :
    (f : List ℕ → Bool) (s : List ℕ) → later (any_suffix f) s ≡ true → any_suffix f s ≡ true
unfolding later
later-any_suffix f [] h = absurd (ground (arith, h))
later-any_suffix f (x ∷ xs) h = any_suffix_of-later f (x ∷ xs) (any_suffix-any_suffix f xs h)

-- `p` and `t` are what is left of `sp` and `m` behind as many fitting characters, no star among them.
pub data Linked (sp m : List ℕ) : List ℕ → List ℕ → Type 0 where
  here : Linked sp m sp m
  step :
      (q x : ℕ) (p t : List ℕ) → Linked sp m (q ∷ p) (x ∷ t) → (q == 42) ≡ false → Linked sp m p t

pub length-Linked : (sp m p t : List ℕ) → Linked sp m p t → length t ≤ length m
length-Linked sp m _ _ here = omega arith
length-Linked sp m _ _ (step q x p t l e) =
    let longer : suc (length t) ≤ length m = length-Linked sp m (q ∷ p) (x ∷ t) l in omega arith

-- A later match of the whole is a later match of what is left.
pub later-Linked :
    (sp m p t : List ℕ) → Linked sp m p t → later (matches sp) m ≡ true → later (matches p) t ≡ true
unfolding matches later
later-Linked sp m _ _ here h = h
later-Linked sp m _ _ (step q x p t l e) h =
    let whole = later-Linked sp m (q ∷ p) (x ∷ t) l h in
    let f : matches (q ∷ p) ≡ head_fits q (matches p) = rw e refl in
    later_of-head_fits q (matches p) t (sym (ap (λ g. any_suffix g t) f) ∙ whole)
