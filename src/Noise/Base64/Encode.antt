-- ===== src/Noise/Base64/Encode.antt =====
-- Base64 as RFC 4648 defines it, and that decoding takes it back to its bytes.
use cpp_esphome_api.Base.{
  ℕ, ◌+◌, ◌-◌, ◌*◌, ◌/◌, ◌%◌, ◌^◌, ◌<◌, bit_and, ◌≡◌, refl, ◌∙◌, true, false, some, List, [], ◌∷◌,
  arith, ltb, ◌==◌, if◌then◌else◌, length, All,
}
use cpp_esphome_api.Base.Bits.{bit_or_fields, bit_and_mask}
use cpp_esphome_api.Bytes.{IsByte}
use cpp_esphome_api.Noise.Base64.{
  base64_value, byte_one, byte_two, byte_three, fourth, third, decode_quartets, base64_decode,
}

-- The alphabet: A to Z, a to z, 0 to 9, + and /.
unfoldable pub base64_char : ℕ → ℕ
base64_char v =
    if ltb v 26
    then v + b'A'
    else if ltb v 52
    then v - 26 + b'a'
    else if ltb v 62
    then v - 52 + b'0'
    else if v == 62
    then b'+'
    else b'/'

unfoldable pub base64_encode : List ℕ → List ℕ
base64_encode [] = []
base64_encode (a ∷ []) = base64_char (a / 4) ∷ base64_char (a % 4 * 16) ∷ b'=' ∷ b'=' ∷ []
base64_encode (a ∷ b ∷ []) =
    base64_char (a / 4) ∷ base64_char (a % 4 * 16 + b / 16) ∷ base64_char (b % 16 * 4) ∷ b'=' ∷ []
base64_encode (a ∷ b ∷ c ∷ rest) =
    base64_char (a / 4)
    ∷ base64_char (a % 4 * 16 + b / 16)
    ∷ base64_char (b % 16 * 4 + c / 64)
    ∷ base64_char (c % 64)
    ∷ base64_encode rest

value-char : (v : ℕ) → v < 64 → base64_value (base64_char v) ≡ some v
unfolding base64_value base64_char
value-char v h = ground arith

char_not_padding : (v : ℕ) → v < 64 → (base64_char v == b'=') ≡ false
unfolding base64_char
char_not_padding v h = ground arith

-- A character with a value is the one of the alphabet, and no padding.
pub char-value : (c v : ℕ) → base64_value c ≡ some v → (v < 64) × (c ≡ base64_char v)
unfolding base64_value base64_char
char-value c v e = ground arith

-- The three bytes of four values.
pub byte_one-sum : (v0 v1 : ℕ) → v0 < 64 → v1 < 64 → byte_one v0 v1 ≡ v0 * 4 + v1 / 16
unfolding byte_one
byte_one-sum v0 v1 h k = omega (arith, bit_or_fields 2 v0 (v1 / 16) (omega arith))

pub byte_two-sum : (v1 v2 : ℕ) → v1 < 64 → v2 < 64 → byte_two v1 v2 ≡ v1 % 16 * 16 + v2 / 4
unfolding byte_two
byte_two-sum v1 v2 h k = omega (arith, bit_or_fields 4 v1 (v2 / 4) (omega arith))

pub byte_three-sum : (v2 v3 : ℕ) → v2 < 64 → v3 < 64 → byte_three v2 v3 ≡ v2 % 4 * 64 + v3
unfolding byte_three
byte_three-sum v2 v3 h k = omega (arith, bit_or_fields 6 v2 v3 k)

quartet_of_three :
    (a b c : ℕ) (text bs : List ℕ)
    → IsByte a
    → IsByte b
    → IsByte c
    → decode_quartets text ≡ some bs
    → decode_quartets (
        base64_char (a / 4)
        ∷ base64_char (a % 4 * 16 + b / 16)
        ∷ base64_char (b % 16 * 4 + c / 64)
        ∷ base64_char (c % 64)
        ∷ text)
      ≡ some (a ∷ b ∷ c ∷ bs)
unfolding decode_quartets third fourth
quartet_of_three a b c text bs ha hb hc e =
    let v0 : ℕ = a / 4 in
    let v1 : ℕ = a % 4 * 16 + b / 16 in
    let v2 : ℕ = b % 16 * 4 + c / 64 in
    let v3 : ℕ = c % 64 in
    let one : byte_one v0 v1 ≡ a = byte_one-sum v0 v1 (omega arith) (omega arith) ∙ omega arith in
    let two : byte_two v1 v2 ≡ b = byte_two-sum v1 v2 (omega arith) (omega arith) ∙ omega arith in
    let three : byte_three v2 v3 ≡ c =
      byte_three-sum v2 v3 (omega arith) (omega arith) ∙ omega arith in
    rw
      (
        value-char v0 (omega arith),
        value-char v1 (omega arith),
        char_not_padding v2 (omega arith),
        value-char v2 (omega arith),
        char_not_padding v3 (omega arith),
        value-char v3 (omega arith),
        e,
        one,
        two,
        three,
      )
      refl

-- The low bits that padding leaves over are zero.
no_spare : (k v : ℕ) → v % 2 ^ k ≡ 0 → (bit_and v (2 ^ k - 1) == 0) ≡ true
no_spare k v e = rw (bit_and_mask k v ∙ e) refl

quartet_of_one :
    (a : ℕ)
    → IsByte a
    → decode_quartets (base64_char (a / 4) ∷ base64_char (a % 4 * 16) ∷ b'=' ∷ b'=' ∷ [])
      ≡ some (a ∷ [])
unfolding decode_quartets third
quartet_of_one a ha =
    let v0 : ℕ = a / 4 in
    let v1 : ℕ = a % 4 * 16 in
    let one : byte_one v0 v1 ≡ a = byte_one-sum v0 v1 (omega arith) (omega arith) ∙ omega arith in
    rw (value-char v0 (omega arith), value-char v1 (omega arith), no_spare 4 v1 (omega arith), one)
      refl

quartet_of_two :
    (a b : ℕ)
    → IsByte a
    → IsByte b
    → decode_quartets (
        base64_char (a / 4)
        ∷ base64_char (a % 4 * 16 + b / 16)
        ∷ base64_char (b % 16 * 4)
        ∷ b'='
        ∷ [])
      ≡ some (a ∷ b ∷ [])
unfolding decode_quartets third fourth
quartet_of_two a b ha hb =
    let v0 : ℕ = a / 4 in
    let v1 : ℕ = a % 4 * 16 + b / 16 in
    let v2 : ℕ = b % 16 * 4 in
    let one : byte_one v0 v1 ≡ a = byte_one-sum v0 v1 (omega arith) (omega arith) ∙ omega arith in
    let two : byte_two v1 v2 ≡ b = byte_two-sum v1 v2 (omega arith) (omega arith) ∙ omega arith in
    rw
      (
        value-char v0 (omega arith),
        value-char v1 (omega arith),
        char_not_padding v2 (omega arith),
        value-char v2 (omega arith),
        no_spare 2 v2 (omega arith),
        one,
        two,
      )
      refl

decode-encode : (bs : List ℕ) → All IsByte bs → decode_quartets (base64_encode bs) ≡ some bs
unfolding base64_encode
decode-encode [] h = unfold decode_quartets in refl
decode-encode (a ∷ []) (ha, h) = quartet_of_one a ha
decode-encode (a ∷ b ∷ []) (ha, (hb, h)) = quartet_of_two a b ha hb
decode-encode (a ∷ b ∷ c ∷ rest) (ha, (hb, (hc, h))) =
    quartet_of_three a b c (base64_encode rest) rest ha hb hc (decode-encode rest h)

whole_quartets : (bs : List ℕ) → length (base64_encode bs) % 4 ≡ 0
unfolding base64_encode
whole_quartets [] = refl
whole_quartets (a ∷ []) = refl
whole_quartets (a ∷ b ∷ []) = refl
whole_quartets (a ∷ b ∷ c ∷ rest) = omega (arith, whole_quartets rest)

-- Every list of bytes comes back from its base64 text.
pub base64_decode-base64_encode :
    (bs : List ℕ) → All IsByte bs → base64_decode (base64_encode bs) ≡ some bs
unfolding base64_decode
base64_decode-base64_encode bs h = rw (whole_quartets bs) (decode-encode bs h)
