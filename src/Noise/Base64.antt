-- ===== src/Noise/Base64.antt =====
-- base64_decode of src/crypto/primitives.cpp. Text is the list of its characters' codes.
pub mod Encode
pub mod Inverse
use cpp_esphome_api.Base.{
  ◌>>=◌, ℕ, ◌+◌, ◌-◌, ◌*◌, ◌/◌, ◌%◌, ◌^◌, bit_and, bit_or, Bool, true, false, ◌&&◌, Option, none,
  some, List, [], ◌∷◌, leb, ◌==◌, if◌then◌else◌, length,
}

-- `none` is the source's -1.
unfoldable pub base64_value : ℕ → Option ℕ
base64_value c =
    if leb b'A' c && leb c b'Z'
    then some (c - b'A')
    else if leb b'a' c && leb c b'z'
    then some (c - b'a' + 26)
    else if leb b'0' c && leb c b'9'
    then some (c - b'0' + 52)
    else if c == b'+'
    then some 62
    else if c == b'/'
    then some 63
    else none

-- `(v0 << 2) | (v1 >> 4)`, `(v1 << 4) | (v2 >> 2)` and `(v2 << 6) | v3`, as bytes.
unfoldable pub byte_one : ℕ → ℕ → ℕ
byte_one v0 v1 = bit_or (v0 * 2 ^ 2) (v1 / 2 ^ 4) % 256

unfoldable pub byte_two : ℕ → ℕ → ℕ
byte_two v1 v2 = bit_or (v1 * 2 ^ 4) (v2 / 2 ^ 2) % 256

unfoldable pub byte_three : ℕ → ℕ → ℕ
byte_three v2 v3 = bit_or (v2 * 2 ^ 6) v3 % 256

-- `i + 4 == n`
abbrev pub is_last : List ℕ → Bool
is_last [] = true
is_last (c ∷ cs) = false

-- A quartet from its fourth character on; `more` is what the rest of the text decodes to.
unfoldable pub fourth : ℕ → ℕ → ℕ → ℕ → List ℕ → Option (List ℕ) → Option (List ℕ)
fourth b0 b1 v2 c3 rest more =
    if c3 == b'='
    then (if is_last rest && (bit_and v2 0x03 == 0) then some (b0 ∷ b1 ∷ []) else none)
    else do v3 ← base64_value c3; bs ← more; some (b0 ∷ b1 ∷ byte_three v2 v3 ∷ bs)

unfoldable pub third : ℕ → ℕ → ℕ → ℕ → List ℕ → Option (List ℕ) → Option (List ℕ)
third b0 v1 c2 c3 rest more =
    if c2 == b'='
    then (if is_last rest && ((c3 == b'=') && (bit_and v1 0x0f == 0)) then some (b0 ∷ []) else none)
    else do v2 ← base64_value c2; fourth b0 (byte_two v1 v2) v2 c3 rest more

unfoldable pub decode_quartets : List ℕ → Option (List ℕ)
decode_quartets [] = some []
decode_quartets (c0 ∷ c1 ∷ c2 ∷ c3 ∷ rest) =
    let more = decode_quartets rest in
    do v0 ← base64_value c0; v1 ← base64_value c1; third (byte_one v0 v1) v1 c2 c3 rest more
decode_quartets _ = none

unfoldable pub base64_decode : List ℕ → Option (List ℕ)
base64_decode text = if length text % 4 == 0 then decode_quartets text else none
