-- ===== src/Wire/RoundTrip.antt =====
-- The reader behind the writer: varints, tags, fixed-width integers and regions with their length.
use native.Mathlib.Numerals.{towards_suc}
use native.Mathlib.Nat.{
  div-add-mod, div-div-eq-div-mul, mod-eq-sub-mul-div, mod-lt, mod-eq_of_lt, one-le-pow,
  mul-le-mul_right, pow-le-pow_right,
}
use native.Mathlib.Decide.{dec_lt}
use cpp_esphome_api.Base.{
  ℕ, zero, suc, ◌+◌, ◌-◌, ◌*◌, ◌/◌, ◌%◌, ◌^◌, ◌≤◌, ◌<◌, bit_and, bit_or, ◌≡◌, refl, sym, ap, ◌∙◌,
  false, some, List, [], ◌∷◌, ◌++◌, append_assoc, arith, ltb, leb, le→ltb-false, length, take, drop,
  length-append, take-append, drop-append,
}
use cpp_esphome_api.Base.Bits.{top_bit, bit_or_fields, bit_and_mask, bit_or_shifted}
use cpp_esphome_api.Bytes.{IsU32, IsU64, or_group}
use cpp_esphome_api.Bytes.Format.{IsVarint, IsVarint-nonempty, last, more}
use cpp_esphome_api.Bytes.Encode.{varint_bytes, varint_bytes-IsVarint}
use cpp_esphome_api.Bytes.Decode.{shift_seven, group_fits, or_group-add}
use cpp_esphome_api.Bytes.RoundTrip.{split_group}
use cpp_esphome_api.Wire.{
  ProtoReader, read_varint_loop, read_varint, write_varint, write_tag, read_tag, reader, wire_type,
  WireType, varint, fixed64, length_delimited, fixed32, other, le_bytes, or_bytes, read_fixed,
  write_fixed32, write_fixed64, read_fixed32, read_fixed64, region, write_length_delimited,
  read_length_delimited, sub_reader,
}
use cpp_esphome_api.Wire.Writer.{write_varint-bytes}

read_last :
    (b : ℕ) (rest : List ℕ) (result shift : ℕ) (r : ProtoReader)
    → b < 128
    → shift < 64
    → result < 2 ^ shift
    → IsU64 (result + b * 2 ^ shift)
    → read_varint_loop (b ∷ rest) result shift r
      ≡ (record r { rest = rest }, some (result + b * 2 ^ shift))
unfolding read_varint_loop
read_last b rest result shift r hb hs hr fits =
    let e : b % 128 ≡ b = omega arith in
    let g : or_group result b shift ≡ result + b * 2 ^ shift =
      rw e at (or_group-add result b shift (omega arith) hr (rw e (omega arith))) in
    ground (arith, top_bit b, g)

read_more :
    (g : ℕ) (rest : List ℕ) (result shift : ℕ) (r : ProtoReader)
    → g < 128
    → shift < 64
    → result < 2 ^ shift
    → IsU64 (g * 2 ^ shift)
    → read_varint_loop ((g + 128) ∷ rest) result shift r
      ≡ read_varint_loop rest (result + g * 2 ^ shift) (shift + 7) r
unfolding read_varint_loop
read_more g rest result shift r hg hs hr fits =
    let e : (g + 128) % 128 ≡ g = omega arith in
    let s : or_group result (g + 128) shift ≡ result + g * 2 ^ shift =
      rw e at (or_group-add result (g + 128) shift (omega arith) hr (rw e fits)) in
    ground (arith, top_bit (g + 128), s)

-- Groups that still hold something lie below bit 64.
more_fits : (v shift : ℕ) → 128 ≤ v → IsU64 (v * 2 ^ shift) → shift + 7 < 64
more_fits v shift h fits = elim (dec_lt (shift + 7) 64) [
  | yes lt ↦ lt
  | no ge ↦
      let up : 2 ^ 64 ≤ 2 ^ (shift + 7) =
        pow-le-pow_right {n = 2} (omega arith) {i = 64} {j = shift + 7} (omega arith) in
      let step = shift_seven shift in
      let wide : 128 * 2 ^ shift ≤ v * 2 ^ shift = mul-le-mul_right (2 ^ shift) h in
      absurd (omega arith)
]

read_form :
    {v : ℕ} {bs : List ℕ} (rest : List ℕ) (result shift : ℕ) (r : ProtoReader)
    → IsVarint v bs
    → shift < 64
    → result < 2 ^ shift
    → IsU64 (result + v * 2 ^ shift)
    → read_varint_loop (bs ++ rest) result shift r
      ≡ (record r { rest = rest }, some (result + v * 2 ^ shift))
read_form rest result shift r (last v h) hs hr fits = read_last v rest result shift r h hs hr fits
read_form rest result shift r (more v bs h form) hs hr fits =
    let low : result + v % 128 * 2 ^ shift + v / 128 * 2 ^ (shift + 7) ≡ result + v * 2 ^ shift =
      omega (arith, split_group v shift) in
    rw (sym low) (
      read_more (v % 128) (bs ++ rest) result shift r (omega arith) hs hr
        (omega (arith, split_group v shift))
      ∙ read_form rest (result + v % 128 * 2 ^ shift) (shift + 7) r form
          (more_fits v shift h (omega arith)) (group_fits result (v % 128) shift hr (omega arith))
          (omega (arith, split_group v shift)))

-- Reading behind `varint` gives back every 64-bit value and leaves what follows.
pub read_varint-write_varint :
    (v : ℕ) (rest : List ℕ)
    → IsU64 v
    → read_varint (reader (write_varint [] v ++ rest)) ≡ (reader rest, some v)
unfolding read_varint
read_varint-write_varint v rest fits = rw (write_varint-bytes [] v) (
    read_form rest 0 0 (reader (varint_bytes v ++ rest)) (varint_bytes-IsVarint v) (omega arith)
      (omega arith) (omega arith)
    ∙ ground arith)

-- The byte above the low part `v % p`.
next_byte : (v p : ℕ) → 1 ≤ p → v % (p * 256) ≡ v % p + v / p % 256 * p
next_byte v p h = omega (
  arith,
  div-add-mod v p,
  div-div-eq-div-mul v p 256,
  mod-eq-sub-mul-div v (p * 256),
  ap (λ (t : ℕ). p * t) (div-add-mod (v / p) 256),
  ap (λ (t : ℕ). p * 256 * t) (div-div-eq-div-mul v p 256),
)

byte_power : (i : ℕ) → 2 ^ (8 * (i + 1)) ≡ 2 ^ (8 * i) * 256
byte_power i =
    let e : 8 * (i + 1) ≡ 8 * i + 8 = omega arith in rw e (simp towards_suc (omega arith))

length-le_bytes : (n i v : ℕ) → length (le_bytes n i v) ≡ n
unfolding le_bytes
length-le_bytes zero i v = refl
length-le_bytes (suc n) i v = omega (arith, length-le_bytes n (i + 1) v)

or_bytes-le_bytes :
    (n i v : ℕ) → or_bytes (le_bytes n i v) i (v % 2 ^ (8 * i)) ≡ v % 2 ^ (8 * (i + n))
unfolding or_bytes le_bytes
or_bytes-le_bytes zero i v = let e : i + 0 ≡ i = omega arith in rw e refl
or_bytes-le_bytes (suc n) i v =
    let p : ℕ = 2 ^ (8 * i) in
    let pos : 1 ≤ p = one-le-pow (8 * i) 2 (omega arith) in
    let laid = bit_or_shifted (8 * i) (v % p) (v / p % 256) (mod-lt v pos) in
    let e : bit_or (v % p) (v / p % 256 * p) ≡ v % 2 ^ (8 * (i + 1)) =
      laid ∙ (sym (next_byte v p pos) ∙ ap (λ (t : ℕ). v % t) (sym (byte_power i))) in
    let s : i + suc n ≡ i + 1 + n = omega arith in
    ap (λ (t : ℕ). or_bytes (le_bytes n (i + 1) v) (i + 1) t) e
    ∙ or_bytes-le_bytes n (i + 1) v
    ∙ ap (λ (t : ℕ). v % 2 ^ (8 * t)) (sym s)

-- A range that starts with the `n` bytes asked for.
has_room : (n : ℕ) (bs rest : List ℕ) → length bs ≡ n → ltb (length (bs ++ rest)) n ≡ false
has_room n bs rest e = le→ltb-false _ _ (omega (arith, length-append bs rest))

taken : (n : ℕ) (bs rest : List ℕ) → length bs ≡ n → take n (bs ++ rest) ≡ bs
taken n bs rest e = rw (sym e) (take-append bs rest)

dropped : (n : ℕ) (bs rest : List ℕ) → length bs ≡ n → drop n (bs ++ rest) ≡ rest
dropped n bs rest e = rw (sym e) (drop-append bs rest)

-- `ptr_` does not pass `end_`.
not_past : (n : ℕ) (bs rest : List ℕ) → length bs ≡ n → n - length (bs ++ rest) ≡ 0
not_past n bs rest e = omega (arith, length-append bs rest)

mod_small : (v n : ℕ) → v < 2 ^ (8 * n) → v % 2 ^ (8 * (0 + n)) ≡ v
mod_small v n fits = let e : 0 + n ≡ n = omega arith in rw e (mod-eq_of_lt fits)

read_fixed-le_bytes :
    (n v : ℕ) (rest : List ℕ)
    → v < 2 ^ (8 * n)
    → read_fixed n (reader (le_bytes n 0 v ++ rest)) ≡ (reader rest, some v)
unfolding read_fixed
read_fixed-le_bytes n v rest fits =
    let bs = le_bytes n 0 v in
    let len : length bs ≡ n = length-le_bytes n 0 v in
    let nothing : v % 2 ^ (8 * 0) ≡ 0 = omega arith in
    let whole : or_bytes bs 0 0 ≡ v =
      ap (λ (t : ℕ). or_bytes bs 0 t) (sym nothing)
      ∙ or_bytes-le_bytes n 0 v
      ∙ mod_small v n fits in
    rw (
      has_room n bs rest len,
      taken n bs rest len,
      dropped n bs rest len,
      not_past n bs rest len,
      whole,
    )

-- A 32-bit value comes back from its four little-endian bytes, and what follows is left.
pub read_fixed32-write_fixed32 :
    (v : ℕ) (rest : List ℕ)
    → IsU32 v
    → read_fixed32 (reader (write_fixed32 [] v ++ rest)) ≡ (reader rest, some v)
unfolding read_fixed32 write_fixed32
read_fixed32-write_fixed32 v rest fits = read_fixed-le_bytes 4 v rest fits

-- A 64-bit value comes back from its eight little-endian bytes, and what follows is left.
pub read_fixed64-write_fixed64 :
    (v : ℕ) (rest : List ℕ)
    → IsU64 v
    → read_fixed64 (reader (write_fixed64 [] v ++ rest)) ≡ (reader rest, some v)
unfolding read_fixed64 write_fixed64
read_fixed64-write_fixed64 v rest fits = read_fixed-le_bytes 8 v rest fits

-- The length first, then the bytes; what follows is left.
pub region-write_length_delimited :
    (bs rest : List ℕ)
    → IsU64 (length bs)
    → region (read_varint (reader (write_length_delimited [] bs ++ rest))) ≡ (reader rest, some bs)
unfolding region write_length_delimited
region-write_length_delimited bs rest fits =
    rw
      (
        append_assoc (write_varint [] (length bs)) bs rest,
        read_varint-write_varint (length bs) (bs ++ rest) fits,
      )
      (rw (
        has_room (length bs) bs rest refl,
        take-append bs rest,
        drop-append bs rest,
        not_past (length bs) bs rest refl,
      ))

-- Bytes behind their length, of 64 bits at most, come back, and so does a reader over them; what
-- follows is left.
pub read_length_delimited-write_length_delimited :
    (bs rest : List ℕ)
    → IsU64 (length bs)
    → (read_length_delimited (reader (write_length_delimited [] bs ++ rest))
        ≡ (reader rest, some bs))
      × (sub_reader (reader (write_length_delimited [] bs ++ rest))
          ≡ (reader rest, some (reader bs)))
unfolding read_length_delimited sub_reader
read_length_delimited-write_length_delimited bs rest fits =
    let e = region-write_length_delimited bs rest fits in (e, rw e refl)

nonempty : (v : ℕ) (rest : List ℕ) → leb (length (write_varint [] v ++ rest)) 0 ≡ false
nonempty v rest =
    let some_byte = IsVarint-nonempty (varint_bytes-IsVarint v) in
    rw (write_varint-bytes [] v) (ground (arith, length-append (varint_bytes v) rest))

read_key :
    (field_number n : ℕ) (rest : List ℕ)
    → IsU32 field_number
    → n < 8
    → read_tag (reader (write_varint [] (bit_or (field_number * 2 ^ 3 % 2 ^ 64) n) ++ rest))
      ≡ (reader rest, some (field_number, wire_type n))
read_key field_number n rest fits small =
    let key : ℕ = field_number * 8 + n in
    let shifted : field_number * 2 ^ 3 % 2 ^ 64 ≡ field_number * 8 = omega arith in
    let e : bit_or (field_number * 2 ^ 3 % 2 ^ 64) n ≡ key =
      ap (λ (t : ℕ). bit_or t n) shifted ∙ bit_or_fields 3 field_number n small in
    let field : key / 2 ^ 3 % 2 ^ 32 ≡ field_number = omega arith in
    let low : bit_and key 0x7 ≡ n = bit_and_mask 3 key ∙ omega arith in
    ap (λ (t : ℕ). read_tag (reader (write_varint [] t ++ rest))) e
    ∙ (unfold read_tag in
        rw (nonempty key rest, read_varint-write_varint key rest (omega arith), field, low) refl)

-- The wire types that the format uses.
abbrev pub IsKnown : WireType → Type 0
IsKnown (other n) = ⊥
IsKnown _ = Unit

-- A tag gives back its 32-bit field number and its wire type.
pub read_tag-write_tag :
    (field_number : ℕ) (wt : WireType) (rest : List ℕ)
    → IsU32 field_number
    → IsKnown wt
    → read_tag (reader (write_tag [] field_number wt ++ rest))
      ≡ (reader rest, some (field_number, wt))
unfolding write_tag
read_tag-write_tag field_number varint rest fits k = read_key field_number 0 rest fits (omega arith)
read_tag-write_tag field_number fixed64 rest fits k =
    read_key field_number 1 rest fits (omega arith)
read_tag-write_tag field_number length_delimited rest fits k =
    read_key field_number 2 rest fits (omega arith)
read_tag-write_tag field_number fixed32 rest fits k =
    read_key field_number 5 rest fits (omega arith)
read_tag-write_tag field_number (other n) rest fits k = elim k [ ]
