-- ===== src/Discovery/NameBounds.antt =====
-- Names: no read leaves the packet, and the loop over pointers and labels ends.
use cpp_esphome_api.Base.{
  ℕ, zero, suc, ◌+◌, ◌-◌, ◌≤◌, ◌<◌, bit_and, ◌≡◌, refl, inl, inr, Option, some, List, [], ◌∷◌,
  arith, ltb, leb, ◌==◌, ltb-false→le, le→ltb-false, take, drop, length-take, length-drop,
  Bool-cases, length, get_elem?,
}
use cpp_esphome_api.Base.Fuel.{budget}
use cpp_esphome_api.Discovery.{
  read_u16, slice, Cursor, Pass, leave, repeat, follow_pointer, label_pass, name_pass, proceed,
  name_loop, name_fuel, name_start, read_name,
}

abbrev pub IsSome : {A : Type 0} → Option A → Type 0
IsSome {A} o = (a : A) × (o ≡ some a)

pub get_elem-IsSome : (xs : List ℕ) (i : ℕ) → i < length xs → IsSome (get_elem? xs i)
get_elem-IsSome [] i h = absurd (omega arith)
get_elem-IsSome (x ∷ xs) zero h = (x, refl)
get_elem-IsSome (x ∷ xs) (suc i) h = get_elem-IsSome xs i (omega arith)

pub read_u16-IsSome : (buf : List ℕ) (pos : ℕ) → pos + 2 ≤ length buf → IsSome (read_u16 buf pos)
unfolding read_u16
read_u16-IsSome buf pos h =
    let (high, eh) = get_elem-IsSome buf pos (omega arith) in
    let (low, el) = get_elem-IsSome buf (pos + 1) (omega arith) in rw (eh, el) (_, refl)

pub slice-IsSome :
    (buf : List ℕ) (pos n : ℕ)
    → pos + n ≤ length buf
    → (bs : List ℕ) × (slice buf pos n ≡ some bs) × (length bs ≡ n)
unfolding slice
slice-IsSome buf pos n h =
    rw (le→ltb-false (length buf) (pos + n) h) (
      take n (drop pos buf),
      refl,
      length-take n (drop pos buf) (omega (arith, length-drop pos buf)),
    )

-- What bounds the passes that are left.
abbrev pub rank : List ℕ → Cursor → ℕ
rank buf c = budget (129 - c.guard) (length buf + 1) + (length buf - c.pos)

GoesOn : List ℕ → Cursor → Pass → Type 0
GoesOn buf c (leave d) = Unit
GoesOn buf c (repeat d) = (d.guard ≤ 128) × (rank buf d < rank buf c)

abbrev IsPass : List ℕ → Cursor → Option Pass → Type 0
IsPass buf c o = (p : Pass) × (o ≡ some p) × GoesOn buf c p

one_hop : (g bytes : ℕ) → g ≤ 128 → budget (129 - g) bytes ≡ bytes + budget (129 - (g + 1)) bytes
unfolding budget
one_hop g bytes h = let s : 129 - g ≡ suc (129 - (g + 1)) = omega arith in rw s refl

follow_pointer-IsPass :
    (buf : List ℕ) (label_len : ℕ) (c : Cursor)
    → c.guard ≤ 128
    → c.pos < length buf
    → IsPass buf c (follow_pointer buf label_len c)
unfolding follow_pointer GoesOn
follow_pointer-IsPass buf label_len c g h = elim (Bool-cases (leb (length buf) (c.pos + 1))) [
  | inl e ↦ rw e (leave c, refl, _)
  | inr e ↦
      let (low, el) = get_elem-IsSome buf (c.pos + 1) (ground (arith, e)) in
      let hop = one_hop c.guard (length buf + 1) g in
      elim (Bool-cases (ltb 128 (c.guard + 1))) [
        | inl b ↦ rw (e, el, b) (_, refl, _)
        | inr b ↦ rw (e, el, b) (_, refl, (ltb-false→le _ _ b, omega arith))
      ]
]

label_pass-IsPass :
    (buf : List ℕ) (label_len : ℕ) (c : Cursor)
    → c.guard ≤ 128
    → c.pos < length buf
    → IsPass buf c (label_pass buf label_len c)
unfolding label_pass GoesOn
label_pass-IsPass buf label_len c g h = elim (Bool-cases (bit_and label_len 0xc0 == 0xc0)) [
  | inl e ↦ rw e (follow_pointer-IsPass buf label_len c g h)
  | inr e ↦ elim (Bool-cases (label_len == 0)) [
    | inl z ↦ rw (e, z) (_, refl, _)
    | inr z ↦ elim (Bool-cases (ltb (length buf) (c.pos + 1 + label_len))) [
      | inl b ↦ rw (e, z, b) (_, refl, _)
      | inr b ↦
          let (label, el, size) = slice-IsSome buf (c.pos + 1) label_len (ltb-false→le _ _ b) in
          rw (e, z, b, el) (_, refl, (g, ground (arith, b)))
    ]
  ]
]

name_pass-IsPass : (buf : List ℕ) (c : Cursor) → c.guard ≤ 128 → IsPass buf c (name_pass buf c)
unfolding name_pass GoesOn
name_pass-IsPass buf c g = elim (Bool-cases (leb (length buf) c.pos)) [
  | inl e ↦ rw e (leave c, refl, _)
  | inr e ↦
      let inside : c.pos < length buf = ground (arith, e) in
      let (label_len, el) = get_elem-IsSome buf c.pos inside in
      rw (e, el) (label_pass-IsPass buf label_len c g inside)
]

proceed-IsSome :
    (buf : List ℕ) (c : Cursor) (p : Pass) (rest : Cursor → Option Cursor)
    → GoesOn buf c p
    → ((d : Cursor) → d.guard ≤ 128 → rank buf d < rank buf c → IsSome (rest d))
    → IsSome (proceed (some p) rest)
unfolding proceed GoesOn
proceed-IsSome buf c (leave d) rest h next = (d, refl)
proceed-IsSome buf c (repeat d) rest (g, less) next = next d g less

pub name_loop-IsSome :
    (fuel : ℕ) (buf : List ℕ) (c : Cursor)
    → c.guard ≤ 128
    → rank buf c < fuel
    → IsSome (name_loop fuel buf c)
unfolding name_loop
name_loop-IsSome zero buf c g h = absurd (omega arith)
name_loop-IsSome (suc fuel) buf c g h =
    let (p, e, goes) = name_pass-IsPass buf c g in
    rw e (
      proceed-IsSome buf c p (name_loop fuel buf) goes
        (λ d gd less. name_loop-IsSome fuel buf d gd (omega arith)))

pub enough : (buf : List ℕ) (pos : ℕ) → rank buf (name_start pos) < name_fuel buf
unfolding name_fuel
enough buf pos =
    let hop : budget 130 (length buf + 1) ≡ length buf + 1 + budget 129 (length buf + 1) =
      unfold budget in refl in
    omega arith

pub read_name-IsSome : (buf : List ℕ) (pos : ℕ) → IsSome (read_name buf pos)
unfolding read_name
read_name-IsSome buf pos =
    let (c, e) =
      name_loop-IsSome (name_fuel buf) buf (name_start pos) (omega arith) (enough buf pos) in
    rw e (_, refl)
