-- ===== src/Entities/ObjectId.antt =====
-- The object ids that `fill_entity_info` makes from names.
use cpp_esphome_api.Base.{
  ℕ, ◌+◌, ◌≤◌, ◌≡◌, refl, ◌⊎◌, inl, inr, List, [], ◌∷◌, ◌&&◌, arith, leb, ◌==◌, true, false, All,
  Bool-cases,
}
use cpp_esphome_api.Entities.Common.{tolower, snake_case, is_kept, object_id_from_name}

-- '-', '_', '0' to '9' and 'a' to 'z'.
abbrev pub IsIdChar : ℕ → Type 0
IsIdChar ch = (ch ≡ 45) ⊎ (ch ≡ 95) ⊎ ((48 ≤ ch) × (ch ≤ 57)) ⊎ ((97 ≤ ch) × (ch ≤ 122))

-- 'A' to 'Z'.
abbrev pub IsCapital : ℕ → Type 0
IsCapital ch = (65 ≤ ch) × (ch ≤ 90)

-- An id of a name: its capitals in lower case, '_' for a space, the characters of an id as they are, and
-- nothing for any other.
pub data IdOf : List ℕ → List ℕ → Type 0 where
  nothing : IdOf [] []
  capital :
      (ch : ℕ) {name id : List ℕ} → IsCapital ch → IdOf name id → IdOf (ch ∷ name) ((ch + 32) ∷ id)
  space : {name id : List ℕ} → IdOf name id → IdOf (32 ∷ name) (95 ∷ id)
  itself : (ch : ℕ) {name id : List ℕ} → IsIdChar ch → IdOf name id → IdOf (ch ∷ name) (ch ∷ id)
  dropped :
      (ch : ℕ) {name id : List ℕ}
      → ¬ IsCapital ch
      → ¬ (ch ≡ 32)
      → ¬ IsIdChar ch
      → IdOf name id
      → IdOf (ch ∷ name) id

kept : (ch : ℕ) → IsIdChar ch → is_kept ch ≡ true
unfolding is_kept
kept ch (inl e) = ground arith
kept ch (inr (inl e)) = ground arith
kept ch (inr (inr (inl (a, b)))) = ground arith
kept ch (inr (inr (inr (a, b)))) = ground arith

kept-IsIdChar : (ch : ℕ) → is_kept ch ≡ true → IsIdChar ch
unfolding is_kept
kept-IsIdChar ch h = elim (Bool-cases (ch == 45)) [
  | inl e ↦ inl (ground arith)
  | inr e ↦ elim (Bool-cases (ch == 95)) [
    | inl f ↦ inr (inl (ground arith))
    | inr f ↦ elim (Bool-cases (leb 48 ch && leb ch 57)) [
      | inl g ↦ inr (inr (inl (ground arith, ground arith)))
      | inr g ↦ inr (inr (inr (ground arith, ground arith)))
    ]
  ]
]

step-IdOf :
    (ch : ℕ) (name : List ℕ)
    → IdOf name (object_id_from_name name)
    → IdOf (ch ∷ name) (object_id_from_name (ch ∷ name))
unfolding object_id_from_name snake_case tolower
step-IdOf ch name h = elim (Bool-cases (leb 65 ch && leb ch 90)) [
  | inl c ↦
      let a : 65 ≤ ch = ground arith in
      let b : ch ≤ 90 = ground arith in
      let off : (ch + 32 == 32) ≡ false = ground arith in
      rw (c, off, kept (ch + 32) (inr (inr (inr (omega arith, omega arith))))) (capital ch (a, b) h)
  | inr c ↦
      let low : ¬ IsCapital ch = λ (a, b). ground (arith, a, b) in
      elim (Bool-cases (ch == 32)) [
        | inl s ↦
            let e : ch ≡ 32 = ground arith in rw (c, s, kept 95 (inr (inl refl))) (rw e (space h))
        | inr s ↦ elim (Bool-cases (is_kept ch)) [
          | inl k ↦ rw (c, s, k) (itself ch (kept-IsIdChar ch k) h)
          | inr k ↦ rw (c, s, k) (dropped ch low (λ e. ground arith) (λ i. cc (kept ch i, k)) h)
        ]
      ]
]

name-IdOf : (name : List ℕ) → IdOf name (object_id_from_name name)
name-IdOf [] = unfold object_id_from_name in nothing
name-IdOf (ch ∷ name) = step-IdOf ch name (name-IdOf name)

chars : {name id : List ℕ} → IdOf name id → All IsIdChar id
chars nothing = tt
chars (capital ch (a, b) h) = (inr (inr (inr (omega arith, omega arith))), chars h)
chars (space h) = (inr (inl refl), chars h)
chars (itself ch c h) = (c, chars h)
chars (dropped ch a b c h) = chars h

-- Of characters of an id the id is the text itself.
alone : {name id : List ℕ} → IdOf name id → All IsIdChar name → id ≡ name
alone nothing all = refl
alone (capital ch (a, b) h) (c, all) = absurd (ground (arith, a, b, c))
alone (space h) (c, all) = absurd (ground (arith, c))
alone (itself ch c h) (_, all) = rw (alone h all) refl
alone (dropped ch a b c h) (d, all) = absurd (c d)

-- The object id made from a name is the name with its capitals in lower case, '_' for every space, the
-- characters '-', '_', '0' to '9' and 'a' to 'z' as they are and no other; so it has these characters alone,
-- and made from itself it stays what it is.
pub object_id_from_name-IdOf :
    (name : List ℕ)
    → IdOf name (object_id_from_name name)
      × All IsIdChar (object_id_from_name name)
      × (object_id_from_name (object_id_from_name name) ≡ object_id_from_name name)
object_id_from_name-IdOf name =
    let h = name-IdOf name in (h, chars h, alone (name-IdOf (object_id_from_name name)) (chars h))
