-- ===== src/Wire/Sizes.antt =====
-- The size helpers against the bytes that the writer puts down.
use cpp_esphome_api.Base.{
  ℕ, suc, ◌+◌, ◌*◌, ◌/◌, ◌%◌, ◌^◌, ◌<◌, ◌≡◌, refl, sym, ap, ◌∙◌, List, arith, length, length-append,
}
use cpp_esphome_api.Base.Bits.{bit_or_fields}
use cpp_esphome_api.Bytes.{IsU32}
use cpp_esphome_api.Bytes.Format.{IsVarint, last, more}
use cpp_esphome_api.Bytes.Encode.{varint_bytes, varint_bytes-IsVarint, IsVarint-unique}
use cpp_esphome_api.Wire.{varint_size, tag_size, write_varint, write_tag, WireType, number_of}
use cpp_esphome_api.Wire.Writer.{write_varint-bytes, varint_size-bytes}

length-write_varint :
    (out : List ℕ) (v : ℕ) → length (write_varint out v) ≡ length out + varint_size v
length-write_varint out v =
    rw (write_varint-bytes out v, varint_size-bytes v) (length-append out (varint_bytes v))

-- Numbers that differ in their low three bits have forms of the same length.
same_length :
    {a b : ℕ} {xs ys : List ℕ}
    → IsVarint a xs
    → IsVarint b ys
    → a / 8 ≡ b / 8
    → length xs ≡ length ys
same_length (last a h) (last b k) e = refl
same_length (last a h) (more b rest k r) e = absurd (omega arith)
same_length (more a rest h r) (last b k) e = absurd (omega arith)
same_length (more a rest h r) (more b rest' k r') e =
    let high : a / 128 ≡ b / 128 = omega arith in
    ap (λ (zs : List ℕ). suc (length zs)) (IsVarint-unique (rw (sym high) r) r')

size_of_key : (a b : ℕ) → a / 8 ≡ b / 8 → varint_size a ≡ varint_size b
size_of_key a b e =
    rw (varint_size-bytes a, varint_size-bytes b)
      (same_length (varint_bytes-IsVarint a) (varint_bytes-IsVarint b) e)

-- A writer's buffer grows by exactly what the size helpers say: varint_size for a varint, and
-- tag_size for a tag of any three-bit wire type.
pub length-write_tag :
    (out : List ℕ) (v field_number : ℕ) (wt : WireType)
    → IsU32 field_number
    → number_of wt < 8
    → (length (write_varint out v) ≡ length out + varint_size v)
      × (length (write_tag out field_number wt) ≡ length out + tag_size field_number)
unfolding write_tag tag_size
length-write_tag out v field_number wt fits small =
    let shifted : field_number * 2 ^ 3 % 2 ^ 64 ≡ field_number * 8 = omega arith in
    let key = bit_or_fields 3 field_number (number_of wt) small in
    let same : varint_size (field_number * 8 + number_of wt) ≡ varint_size (field_number * 8) =
      size_of_key _ _ (omega arith) in
    (
      length-write_varint out v,
      rw (shifted, key)
          (length-write_varint out (field_number * 8 + number_of wt)
            ∙ ap (λ (t : ℕ). length out + t) same),
    )
