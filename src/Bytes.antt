-- ===== src/Bytes.antt =====
-- include/esphome/api/bytes.hpp and src/bytes.cpp: byte buffers, views and the base-128 varint codec.
-- A `ByteBuffer` or a `ByteView` is the list of its bytes, each a number below 256.
pub mod Format
pub mod Encode
pub mod Decode
pub mod RoundTrip
pub mod Tests
use mathlib.Core.Logic.{dite}
use mathlib.Core.WellFounded.{Acc}
use native.Mathlib.Decide.{dec_le}
use cpp_esphome_api.Base.{
  ℕ, ◌+◌, ◌*◌, ◌/◌, ◌%◌, ◌^◌, ◌≤◌, ◌<◌, bit_and, bit_or, arith, List, [], ◌∷◌, ◌++◌, ltb, leb, ◌==◌,
  if◌then◌else◌, length, drop, lt_wf,
}

abbrev pub IsByte : ℕ → Type 0
IsByte b = b < 256

abbrev pub IsU32 : ℕ → Type 0
IsU32 v = v < 2 ^ 32

abbrev pub IsU64 : ℕ → Type 0
IsU64 v = v < 2 ^ 64

-- ByteView::subview.
unfoldable pub subview : List ℕ → ℕ → List ℕ
subview view offset = if leb (length view) offset then [] else drop offset view

abbrev pub max_varint_bytes : ℕ
max_varint_bytes = 5

-- The out-parameters `value` and `consumed` are fields of `ok`, the only case that sets them.
pub data VarintStatus : Type 0 where
  ok : ℕ → ℕ → VarintStatus
  incomplete : VarintStatus
  overflow : VarintStatus

pub shift_shrinks : (v : ℕ) → 128 ≤ v → v / 128 < v
shift_shrinks v h = omega arith

unfoldable pub varint_size_loop : (value : ℕ) → Acc ◌<◌ value → ℕ → ℕ
varint_size_loop value (Acc.intro _ smaller) n =
    dite (dec_le 0x80 value)
      (λ h. varint_size_loop (value / 2 ^ 7) (smaller _ (shift_shrinks value h)) (n + 1)) (λ _. n)

unfoldable pub varint_size : ℕ → ℕ
unfolding varint_size_loop lt_wf dec_le
varint_size value = varint_size_loop value (lt_wf.apply value) 1

-- `static_cast<std::uint8_t>(value)` is `value % 256`.
unfoldable pub append_varint_loop : List ℕ → (value : ℕ) → Acc ◌<◌ value → List ℕ
append_varint_loop out value (Acc.intro _ smaller) =
    dite (dec_le 0x80 value)
      (λ h.
        append_varint_loop (out ++ (bit_or (value % 256) 0x80 ∷ [])) (value / 2 ^ 7)
          (smaller _ (shift_shrinks value h)))
      (λ _. out ++ (value % 256 ∷ []))

unfoldable pub append_varint : List ℕ → ℕ → List ℕ
unfolding append_varint_loop lt_wf dec_le
append_varint out value = append_varint_loop out value (lt_wf.apply value)

-- `result |= static_cast<std::uint64_t>(byte & 0x7F) << shift`
abbrev pub or_group : ℕ → ℕ → ℕ → ℕ
or_group result byte shift = bit_or result (bit_and byte 0x7f * 2 ^ shift % 2 ^ 64)

-- The first list is `data[i..len)`.
pub decode_varint_loop : List ℕ → ℕ → ℕ → ℕ → ℕ → ℕ → VarintStatus
decode_varint_loop [] i result shift len max_bytes =
    if leb max_bytes len then overflow else incomplete
decode_varint_loop (byte ∷ rest) i result shift len max_bytes =
    let result' = or_group result byte shift in
    let more = decode_varint_loop rest (i + 1) result' (shift + 7) len max_bytes in
    if leb max_bytes i
    then overflow
    else if bit_and byte 0x80 == 0
    then (if ltb 0xffffffff result' then overflow else ok (result' % 2 ^ 32) (i + 1))
    else more

unfoldable pub decode_varint : List ℕ → ℕ → VarintStatus
unfolding decode_varint_loop
decode_varint data_ max_bytes = decode_varint_loop data_ 0 0 0 (length data_) max_bytes
