-- ===== src/Bytes/Tests.antt =====
-- Runs of the varint codec, and its theorems at concrete inputs.
use cpp_esphome_api.Base.{ℕ, ◌≤◌, ◌<◌, ◌≡◌, refl, ◌↔◌, List, [], ◌∷◌, ◌++◌, arith, length, All}
use cpp_esphome_api.Bytes.{
  ok, incomplete, overflow, IsU32, varint_size, append_varint, decode_varint, subview,
}
use cpp_esphome_api.Bytes.RoundTrip.{decode_varint-append_varint}
use cpp_esphome_api.Bytes.Decode.{
  decode_varint_bounds, decode_varint-append, decode_varint_incomplete,
}

append_300 : append_varint [] 300 ≡ 0xac ∷ 0x02 ∷ []
unfolding append_varint
append_300 = refl

size_max : varint_size 0xffff_ffff ≡ 5
unfolding varint_size
size_max = refl

subview_past_end : subview (1 ∷ 2 ∷ []) 5 ≡ []
unfolding subview
subview_past_end = refl

decode_five : decode_varint (0xff ∷ 0xff ∷ 0xff ∷ 0xff ∷ 0x1f ∷ []) 5 ≡ overflow
unfolding decode_varint
decode_five = refl

size_300 : varint_size 300 ≡ 2
unfolding varint_size
size_300 = refl

decode_varint-append_varint_example :
    decode_varint (append_varint [] 300 ++ (9 ∷ [])) 4 ≡ ok 300 (varint_size 300)
unfolding varint_size
decode_varint-append_varint_example =
    decode_varint-append_varint 300 4 (9 ∷ []) (omega arith) (omega arith)

decode_padded : decode_varint (0x80 ∷ 0x00 ∷ 7 ∷ []) 4 ≡ ok 0 2
unfolding decode_varint
decode_padded = refl

decode_varint_bounds_example : (1 ≤ 2) × (2 ≤ 4) × (2 ≤ 3) × IsU32 0
decode_varint_bounds_example = decode_varint_bounds (0x80 ∷ 0x00 ∷ 7 ∷ []) 4 0 2 decode_padded

decode_varint-append_example :
    decode_varint ((0x80 ∷ 0x00 ∷ []) ++ (9 ∷ [])) 4 ≡ decode_varint (0x80 ∷ 0x00 ∷ []) 4
unfolding decode_varint
decode_varint-append_example = decode_varint-append (0x80 ∷ 0x00 ∷ []) (9 ∷ []) 4 (λ e. cc)

two_open : List ℕ
two_open = 0x80 ∷ 0xff ∷ []

decode_varint_incomplete_example :
    (decode_varint two_open 4 ≡ incomplete) ↔ ((length two_open < 4) × All (λ b. 128 ≤ b) two_open)
decode_varint_incomplete_example =
    decode_varint_incomplete two_open 4 (unfold two_open in omega arith)
