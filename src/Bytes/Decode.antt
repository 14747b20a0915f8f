-- ===== src/Bytes/Decode.antt =====
-- One round of `decode_varint`, and what holds of every answer it gives.
use native.Mathlib.Numerals.{towards_suc}
use cpp_esphome_api.Base.{
  ℕ, ◌+◌, ◌*◌, ◌%◌, ◌^◌, ◌≤◌, ◌<◌, ◌≡◌, refl, sym, ◌∙◌, ◌≢◌, ◌↔◌, List, [], ◌∷◌, ◌++◌, arith,
  length, All, length-append,
}
use cpp_esphome_api.Base.Bits.{low_bits, top_bit, bit_or_shifted}
use cpp_esphome_api.Bytes.{
  IsByte, IsU32, IsU64, or_group, VarintStatus, decode_varint_loop, decode_varint, ok, incomplete,
  overflow,
}

pub shift_seven : (s : ℕ) → 2 ^ (s + 7) ≡ 128 * 2 ^ s
shift_seven s = simp towards_suc (omega arith)

-- A group of seven bits laid over the bits below `shift`.
pub or_group-add :
    (result byte shift : ℕ)
    → IsByte byte
    → result < 2 ^ shift
    → IsU64 (byte % 128 * 2 ^ shift)
    → or_group result byte shift ≡ result + byte % 128 * 2 ^ shift
or_group-add result byte shift hb hr fits =
    ground (arith, low_bits byte, bit_or_shifted shift result (byte % 128))

-- The groups read so far fill the bits below the next shift.
pub group_fits :
    (result g shift : ℕ) → result < 2 ^ shift → g < 128 → result + g * 2 ^ shift < 2 ^ (shift + 7)
group_fits result g shift hr hg = rw (shift_seven shift) (grind arith)

pub decode_last :
    (b : ℕ) (rest : List ℕ) (i result shift len max_bytes : ℕ)
    → b < 128
    → i < max_bytes
    → result < 2 ^ shift
    → IsU32 (result + b * 2 ^ shift)
    → decode_varint_loop (b ∷ rest) i result shift len max_bytes
      ≡ ok (result + b * 2 ^ shift) (i + 1)
unfolding decode_varint_loop
decode_last b rest i result shift len max_bytes hb hi hr fits =
    let e : b % 128 ≡ b = omega arith in
    let g : or_group result b shift ≡ result + b * 2 ^ shift =
      rw e at (or_group-add result b shift (omega arith) hr (rw e (omega arith))) in
    ground (arith, top_bit b, g)

pub decode_more :
    (g : ℕ) (rest : List ℕ) (i result shift len max_bytes : ℕ)
    → g < 128
    → i < max_bytes
    → result < 2 ^ shift
    → IsU64 (g * 2 ^ shift)
    → decode_varint_loop ((g + 128) ∷ rest) i result shift len max_bytes
      ≡ decode_varint_loop rest (i + 1) (result + g * 2 ^ shift) (shift + 7) len max_bytes
unfolding decode_varint_loop
decode_more g rest i result shift len max_bytes hg hi hr fits =
    let e : (g + 128) % 128 ≡ g = omega arith in
    let s : or_group result (g + 128) shift ≡ result + g * 2 ^ shift =
      rw e at (or_group-add result (g + 128) shift (omega arith) hr (rw e fits)) in
    ground (arith, top_bit (g + 128), s)

decode_loop_bounds :
    (bs : List ℕ) (i result shift len max_bytes v n : ℕ)
    → decode_varint_loop bs i result shift len max_bytes ≡ ok v n
    → (i < n) × (n ≤ max_bytes) × (n ≤ i + length bs) × IsU32 v
unfolding decode_varint_loop
decode_loop_bounds [] i result shift len max_bytes v n e = ground arith
decode_loop_bounds (b ∷ bs) i result shift len max_bytes v n e =
    ground
      (arith, decode_loop_bounds bs (i + 1) (or_group result b shift) (shift + 7) len max_bytes v n)

-- A value that `decode_varint` returns fits 32 bits, and it took at least one byte, no more than
-- the budget and no more than there were.
pub decode_varint_bounds :
    (bs : List ℕ) (max_bytes v n : ℕ)
    → decode_varint bs max_bytes ≡ ok v n
    → (1 ≤ n) × (n ≤ max_bytes) × (n ≤ length bs) × IsU32 v
unfolding decode_varint
decode_varint_bounds bs max_bytes v n e =
    ground (arith, decode_loop_bounds bs 0 0 0 (length bs) max_bytes v n)

-- The answer `ok` does not depend on what stands behind the number, nor on the length passed down.
pub decode_loop_local :
    (bs more : List ℕ) (i result shift len len' max_bytes v n : ℕ)
    → decode_varint_loop bs i result shift len max_bytes ≡ ok v n
    → decode_varint_loop (bs ++ more) i result shift len' max_bytes ≡ ok v n
unfolding decode_varint_loop
decode_loop_local [] more i result shift len len' max_bytes v n e = ground arith
decode_loop_local (b ∷ bs) more i result shift len len' max_bytes v n e = ground (
  arith,
  decode_loop_local bs more (i + 1) (or_group result b shift) (shift + 7) len len' max_bytes v n,
)

decode_loop_overflow :
    (bs more : List ℕ) (i result shift len len' max_bytes : ℕ)
    → len ≡ i + length bs
    → len' ≡ len + length more
    → decode_varint_loop bs i result shift len max_bytes ≡ overflow
    → decode_varint_loop (bs ++ more) i result shift len' max_bytes ≡ overflow
unfolding decode_varint_loop
decode_loop_overflow [] [] i result shift len len' max_bytes p q e = ground arith
decode_loop_overflow [] (m ∷ more) i result shift len len' max_bytes p q e = ground arith
decode_loop_overflow (b ∷ bs) more i result shift len len' max_bytes p q e = ground (
  arith,
  decode_loop_overflow bs more (i + 1) (or_group result b shift) (shift + 7) len len' max_bytes,
)

-- More input changes neither an answer `ok` nor an answer `overflow`.
pub decode_varint-append :
    (bs more : List ℕ) (max_bytes : ℕ)
    → decode_varint bs max_bytes ≢ incomplete
    → decode_varint (bs ++ more) max_bytes ≡ decode_varint bs max_bytes
decode_varint-append bs more max_bytes h = go (decode_varint bs max_bytes) refl
  where
    go :
        (r : VarintStatus)
        → decode_varint bs max_bytes ≡ r
        → decode_varint (bs ++ more) max_bytes ≡ decode_varint bs max_bytes
    go (ok v n) e =
        unfold decode_varint in decode_loop_local bs more 0 0 0 _ _ max_bytes v n e ∙ sym e
    go incomplete e = absurd (h e)
    go overflow e =
        unfold decode_varint in
        decode_loop_overflow bs more 0 0 0 _ _ max_bytes (omega arith)
          (omega (arith, length-append bs more)) e
        ∙ sym e

decode_loop_incomplete :
    (bs : List ℕ) (i result shift len max_bytes : ℕ)
    → All IsByte bs
    → len ≡ i + length bs
    → (decode_varint_loop bs i result shift len max_bytes ≡ incomplete)
      ↔ ((len < max_bytes) × All (λ b. 128 ≤ b) bs)
unfolding decode_varint_loop
decode_loop_incomplete [] i result shift len max_bytes hb p = ground arith
decode_loop_incomplete (b ∷ bs) i result shift len max_bytes hb p = ground (
  arith,
  top_bit b,
  decode_loop_incomplete bs (i + 1) (or_group result b shift) (shift + 7) len max_bytes hb.1,
)

-- `incomplete` means exactly that the budget is not used up and every byte asks for another one.
pub decode_varint_incomplete :
    (bs : List ℕ) (max_bytes : ℕ)
    → All IsByte bs
    → (decode_varint bs max_bytes ≡ incomplete) ↔ ((length bs < max_bytes) × All (λ b. 128 ≤ b) bs)
unfolding decode_varint
decode_varint_incomplete bs max_bytes hb =
    decode_loop_incomplete bs 0 0 0 (length bs) max_bytes hb (omega arith)
