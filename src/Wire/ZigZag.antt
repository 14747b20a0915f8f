-- ===== src/Wire/ZigZag.antt =====
-- The zigzag maps of wire.hpp. `k` is 31 for the 32-bit pair and 63 for the 64-bit pair: a signed
-- number has `k` bits beside its sign.
use native.Mathlib.Nat.{one-le-pow, pow-suc, mod-eq_of_lt, mod-eq-sub-mod, mod_self}
use cpp_esphome_api.Base.{
  ℕ, suc, ◌+◌, ◌-◌, ◌*◌, ◌/◌, ◌%◌, ◌^◌, ◌<◌, bit_and, bit_xor, ◌≡◌, refl, ap, ◌∙◌, inl, inr, arith,
  ltb, ◌==◌, if◌then◌else◌, lt→ltb, le→ltb-false, ==_iff, Bool-cases,
}
use cpp_esphome_api.Base.Bits.{bit_xor_ones, bit_and_mask, bit_xor-zero}

-- Two's complement: `pos n` is n, `negsuc n` is -(n + 1).
pub data ℤ : Type 0 where
  pos negsuc : ℕ → ℤ

-- Numbers that `k` bits and a sign hold.
abbrev pub IsSigned : ℕ → ℤ → Type 0
IsSigned k (pos n) = n < 2 ^ k
IsSigned k (negsuc n) = n < 2 ^ k

-- The casts between the signed and the unsigned type of `suc k` bits.
abbrev pub to_unsigned : ℕ → ℤ → ℕ
to_unsigned k (pos n) = n
to_unsigned k (negsuc n) = 2 ^ suc k - 1 - n

abbrev pub to_signed : ℕ → ℕ → ℤ
to_signed k v = if ltb v (2 ^ k) then pos v else negsuc (2 ^ suc k - 1 - v)

-- `v >> k`, which keeps the sign: 0 or -1.
abbrev pub sign_of : ℤ → ℤ
sign_of (pos n) = pos 0
sign_of (negsuc n) = negsuc 0

unfoldable pub zigzag_encode : ℕ → ℤ → ℕ
zigzag_encode k v = bit_xor (to_unsigned k v * 2 % 2 ^ suc k) (to_unsigned k (sign_of v))

-- `~` is the complement to all ones, and the sum wraps.
unfoldable pub zigzag_decode : ℕ → ℕ → ℤ
zigzag_decode k v = to_signed k (bit_xor (v / 2) ((2 ^ suc k - 1 - bit_and v 1 + 1) % 2 ^ suc k))

abbrev pub zigzag_encode32 : ℤ → ℕ
zigzag_encode32 = zigzag_encode 31

abbrev pub zigzag_decode32 : ℕ → ℤ
zigzag_decode32 = zigzag_decode 31

abbrev pub zigzag_encode64 : ℤ → ℕ
zigzag_encode64 = zigzag_encode 63

abbrev pub zigzag_decode64 : ℕ → ℤ
zigzag_decode64 = zigzag_decode 63

-- The order 0, -1, 1, -2, 2, …
unfoldable pub zigzag : ℤ → ℕ
zigzag (pos n) = 2 * n
zigzag (negsuc n) = 2 * n + 1

-- The encoder computes it on every number of the type.
encode_order : (k : ℕ) (v : ℤ) → IsSigned k v → zigzag_encode k v ≡ zigzag v
unfolding zigzag_encode zigzag
encode_order k (pos n) h =
    let p = pow-suc 2 k in
    let e : n * 2 % 2 ^ suc k ≡ 2 * n = mod-eq_of_lt (omega arith) ∙ omega arith in
    rw (e, bit_xor-zero (2 * n)) refl
encode_order k (negsuc n) h =
    let p = pow-suc 2 k in
    let m : ℕ = 2 ^ suc k in
    let wraps : (m - 1 - n) * 2 % m ≡ ((m - 1 - n) * 2 - m) % m = mod-eq-sub-mod (omega arith) in
    let stays : ((m - 1 - n) * 2 - m) % m ≡ (m - 1 - n) * 2 - m = mod-eq_of_lt (omega arith) in
    let flips = bit_xor_ones (suc k) ((m - 1 - n) * 2 - m) (omega arith) in
    let nought : m - 1 - 0 ≡ m - 1 = omega arith in rw (wraps ∙ stays, nought) (flips ∙ omega arith)

-- The number at a place of the order.
unfoldable pub unzigzag : ℕ → ℤ
unzigzag v = if v % 2 == 0 then pos (v / 2) else negsuc (v / 2)

mask_even : (k : ℕ) → 2 ^ suc k - 1 - 0 + 1 ≡ 2 ^ suc k
mask_even k = let p = one-le-pow (suc k) 2 (omega arith) in omega arith

mask_odd : (k : ℕ) → 2 ^ suc k - 1 - 1 + 1 ≡ 2 ^ suc k - 1
mask_odd k = let p = pow-suc 2 k in let q = one-le-pow k 2 (omega arith) in omega arith

decode_order : (k v : ℕ) → v < 2 ^ suc k → zigzag_decode k v ≡ unzigzag v
unfolding zigzag_decode unzigzag
decode_order k v h =
    let p = pow-suc 2 k in
    let m : ℕ = 2 ^ suc k in
    let q = one-le-pow k 2 (omega arith) in
    let low : bit_and v 1 ≡ v % 2 = bit_and_mask 1 v in
    elim (Bool-cases (v % 2 == 0)) [
      | inl e ↦
          let even : v % 2 ≡ 0 = (==_iff (v % 2) 0).0 e in
          let mask : (m - 1 - bit_and v 1 + 1) % m ≡ 0 =
            ap (λ (t : ℕ). (m - 1 - t + 1) % m) (low ∙ even) ∙ (rw (mask_even k) (mod_self m)) in
          let x : bit_xor (v / 2) ((m - 1 - bit_and v 1 + 1) % m) ≡ v / 2 =
            ap (bit_xor (v / 2)) mask ∙ bit_xor-zero (v / 2) in
          rw (x, lt→ltb (v / 2) (2 ^ k) (omega arith), e) refl
      | inr e ↦
          let odd : v % 2 ≡ 1 = ground arith in
          let mask : (m - 1 - bit_and v 1 + 1) % m ≡ m - 1 =
            ap (λ (t : ℕ). (m - 1 - t + 1) % m) (low ∙ odd)
            ∙ (rw (mask_odd k) (mod-eq_of_lt (omega arith))) in
          let x : bit_xor (v / 2) ((m - 1 - bit_and v 1 + 1) % m) ≡ m - 1 - v / 2 =
            ap (bit_xor (v / 2)) mask ∙ bit_xor_ones (suc k) (v / 2) (omega arith) in
          let back : m - 1 - (m - 1 - v / 2) ≡ v / 2 = omega arith in
          rw (x, le→ltb-false (m - 1 - v / 2) (2 ^ k) (omega arith), back, e) refl
    ]

unzigzag-zigzag : (v : ℤ) → unzigzag (zigzag v) ≡ v
unfolding unzigzag zigzag
unzigzag-zigzag (pos n) =
    let even : 2 * n % 2 ≡ 0 = omega arith in
    let half : 2 * n / 2 ≡ n = omega arith in rw (even, half) refl
unzigzag-zigzag (negsuc n) =
    let odd : (2 * n + 1) % 2 ≡ 1 = omega arith in
    let half : (2 * n + 1) / 2 ≡ n = omega arith in rw (odd, half) refl

zigzag-unzigzag : (v : ℕ) → zigzag (unzigzag v) ≡ v
unfolding unzigzag zigzag
zigzag-unzigzag v = elim (Bool-cases (v % 2 == 0)) [
  | inl e ↦ let even : v % 2 ≡ 0 = (==_iff (v % 2) 0).0 e in rw e (omega arith)
  | inr e ↦ let odd : v % 2 ≡ 1 = ground arith in rw e (omega arith)
]

zigzag_fits : (k : ℕ) (v : ℤ) → IsSigned k v → zigzag v < 2 ^ suc k
unfolding zigzag
zigzag_fits k (pos n) h = let p = pow-suc 2 k in omega arith
zigzag_fits k (negsuc n) h = let p = pow-suc 2 k in omega arith

unzigzag-IsSigned : (k v : ℕ) → v < 2 ^ suc k → IsSigned k (unzigzag v)
unfolding unzigzag
unzigzag-IsSigned k v h =
    let p = pow-suc 2 k in
    elim (Bool-cases (v % 2 == 0)) [ inl e ↦ rw e (omega arith) | inr e ↦ rw e (omega arith) ]

-- Every number of `k` bits and a sign comes back from its code, which is an unsigned number of
-- `suc k` bits.
pub zigzag_decode-zigzag_encode :
    (k : ℕ) (v : ℤ)
    → IsSigned k v
    → (zigzag_decode k (zigzag_encode k v) ≡ v) × (zigzag_encode k v < 2 ^ suc k)
zigzag_decode-zigzag_encode k v h =
    let e = encode_order k v h in
    let fits = zigzag_fits k v h in rw e (decode_order k (zigzag v) fits ∙ unzigzag-zigzag v, fits)

-- Every unsigned number of `suc k` bits is the code of the number that it decodes to, which has `k`
-- bits and a sign.
pub zigzag_encode-zigzag_decode :
    (k u : ℕ)
    → u < 2 ^ suc k
    → (zigzag_encode k (zigzag_decode k u) ≡ u) × IsSigned k (zigzag_decode k u)
zigzag_encode-zigzag_decode k u h =
    let e = decode_order k u h in
    let fits = unzigzag-IsSigned k u h in
    rw e (encode_order k (unzigzag u) fits ∙ zigzag-unzigzag u, fits)
