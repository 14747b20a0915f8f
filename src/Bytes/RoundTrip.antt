-- ===== src/Bytes/RoundTrip.antt =====
-- `decode_varint` on what `append_varint` wrote: in full, cut short, and over the byte budget.
use native.Mathlib.Nat.{div-add-mod}
use cpp_esphome_api.Base.{
  ℕ, zero, suc, ◌+◌, ◌*◌, ◌/◌, ◌%◌, ◌^◌, ◌≤◌, ◌<◌, ◌≡◌, ap, ◌∙◌, arith, List, [], ◌++◌, length,
  take, length-take,
}
use cpp_esphome_api.Base.Bits.{top_bit}
use cpp_esphome_api.Bytes.{
  IsU32, decode_varint_loop, decode_varint, ok, incomplete, overflow, or_group, append_varint,
  varint_size,
}
use cpp_esphome_api.Bytes.Format.{IsVarint, last, more}
use cpp_esphome_api.Bytes.Encode.{
  varint_bytes, varint_bytes-IsVarint, append_varint-bytes, varint_size-length,
}
use cpp_esphome_api.Bytes.Decode.{shift_seven, group_fits, decode_last, decode_more}

-- The lowest group and the other groups, both moved up by `s`.
pub split_group : (v s : ℕ) → v * 2 ^ s ≡ v % 128 * 2 ^ s + v / 128 * 2 ^ (s + 7)
split_group v s = omega (
  arith,
  ap (λ (t : ℕ). t * 2 ^ s) (div-add-mod v 128),
  ap (λ (t : ℕ). v / 128 * t) (shift_seven s),
)

pub decode_form :
    {v : ℕ} {bs : List ℕ} (rest : List ℕ) (i result shift len max_bytes : ℕ)
    → IsVarint v bs
    → i + length bs ≤ max_bytes
    → result < 2 ^ shift
    → IsU32 (result + v * 2 ^ shift)
    → decode_varint_loop (bs ++ rest) i result shift len max_bytes
      ≡ ok (result + v * 2 ^ shift) (i + length bs)
decode_form rest i result shift len max_bytes (last v h) budget hr fits =
    decode_last v rest i result shift len max_bytes h (omega arith) hr fits
decode_form rest i result shift len max_bytes (more v bs h form) budget hr fits =
    decode_more (v % 128) (bs ++ rest) i result shift len max_bytes (omega arith) (omega arith) hr
      (omega (arith, split_group v shift))
    ∙ decode_form rest (i + 1) (result + v % 128 * 2 ^ shift) (shift + 7) len max_bytes form
        (omega arith) (group_fits result (v % 128) shift hr (omega arith))
        (omega (arith, split_group v shift))
    ∙ ground (arith, split_group v shift)

-- Reading behind `append_varint` gives back a 32-bit value and the count of its bytes, whatever
-- follows, if the budget allows that many bytes.
pub decode_varint-append_varint :
    (value max_bytes : ℕ) (rest : List ℕ)
    → IsU32 value
    → varint_size value ≤ max_bytes
    → decode_varint (append_varint [] value ++ rest) max_bytes ≡ ok value (varint_size value)
unfolding decode_varint
decode_varint-append_varint value max_bytes rest fits budget =
    let form = varint_bytes-IsVarint value in
    rw (append_varint-bytes [] value, varint_size-length form)
      (decode_form rest 0 0 0 _ max_bytes form (omega (arith, varint_size-length form))
          (omega arith) (omega arith)
        ∙ ground arith)

decode_prefix :
    (n : ℕ) {v : ℕ} {bs : List ℕ} (i result shift len max_bytes : ℕ)
    → IsVarint v bs
    → n < length bs
    → i + length bs ≤ max_bytes
    → len < max_bytes
    → decode_varint_loop (take n bs) i result shift len max_bytes ≡ incomplete
unfolding decode_varint_loop
decode_prefix zero i result shift len max_bytes form h budget short = ground arith
decode_prefix (suc n) i result shift len max_bytes (last v hv) h budget short = absurd (omega arith)
decode_prefix (suc n) i result shift len max_bytes (more v bs hv form) h budget short = ground (
  arith,
  top_bit (v % 128 + 128),
  decode_prefix n (i + 1) (or_group result (v % 128 + 128) shift) (shift + 7) len max_bytes form,
)

-- Every proper prefix of what `append_varint` wrote is answered by `incomplete`, if the budget allows
-- the whole of it.
pub decode_varint-take :
    (value max_bytes n : ℕ)
    → varint_size value ≤ max_bytes
    → n < varint_size value
    → decode_varint (take n (append_varint [] value)) max_bytes ≡ incomplete
unfolding decode_varint
decode_varint-take value max_bytes n budget h =
    let form = varint_bytes-IsVarint value in
    let size = varint_size-length form in
    rw (append_varint-bytes [] value) (
      decode_prefix n 0 0 0 _ max_bytes form (omega (arith, size)) (omega (arith, size))
        (omega (arith, size, length-take n (varint_bytes value) (omega (arith, size)))))

decode_over_budget :
    {v : ℕ} {bs : List ℕ} (rest : List ℕ) (i result shift len max_bytes : ℕ)
    → IsVarint v bs
    → i ≤ max_bytes
    → max_bytes < i + length bs
    → decode_varint_loop (bs ++ rest) i result shift len max_bytes ≡ overflow
unfolding decode_varint_loop
decode_over_budget rest i result shift len max_bytes (last v h) hi over = ground arith
decode_over_budget rest i result shift len max_bytes (more v bs h form) hi over = ground (
  arith,
  top_bit (v % 128 + 128),
  decode_over_budget rest (i + 1) (or_group result (v % 128 + 128) shift) (shift + 7) len max_bytes
      form,
)

-- A value whose encoding is longer than the budget cannot be read back.
pub decode_varint_over_budget :
    (value max_bytes : ℕ) (rest : List ℕ)
    → max_bytes < varint_size value
    → decode_varint (append_varint [] value ++ rest) max_bytes ≡ overflow
unfolding decode_varint
decode_varint_over_budget value max_bytes rest over =
    let form = varint_bytes-IsVarint value in
    rw (append_varint-bytes [] value) (
      decode_over_budget rest 0 0 0 _ max_bytes form (omega arith)
        (omega (arith, varint_size-length form)))
