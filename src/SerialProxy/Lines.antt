-- ===== src/SerialProxy/Lines.antt =====
-- SerialProxyLineStates against its bit mask.
use cpp_esphome_api.Base.{
  ℕ, ◌+◌, ◌*◌, ◌/◌, ◌%◌, ◌≡◌, refl, ◌∙◌, ◌⊎◌, inl, inr, bit_and, Bool, true, false, not, arith,
  ◌==◌,
}
use cpp_esphome_api.Base.Bits.{bit_and_mask, bit_and_step}
use cpp_esphome_api.SerialProxy.{SerialProxyLineStates, from_bits, to_bits}

bit_zero : (bits : ℕ) → bit_and bits 1 ≡ bits % 2
bit_zero bits = bit_and_mask 1 bits

bit_one : (bits : ℕ) → bit_and bits 2 ≡ bits / 2 % 2 * 2
bit_one bits = ground (arith, bit_and_step bits 2, bit_zero (bits / 2))

both :
    (rts dtr : ℕ)
    → (rts ≡ 0) ⊎ (rts ≡ 1)
    → (dtr ≡ 0) ⊎ (dtr ≡ 1)
    → to_bits (record { rts = not (rts == 0); dtr = not (dtr * 2 == 0) }) ≡ rts + dtr * 2
unfolding to_bits
both rts dtr h k = elim h [
  | inl a ↦ elim k [ inl b ↦ rw (a, b) refl | inr b ↦ rw (a, b) refl ]
  | inr a ↦ elim k [ inl b ↦ rw (a, b) refl | inr b ↦ rw (a, b) refl ]
]

digit : (x : ℕ) → (x % 2 ≡ 0) ⊎ (x % 2 ≡ 1)
digit x = ground arith

lines_kept :
    (rts dtr : Bool)
    → from_bits (to_bits (record { rts = rts; dtr = dtr })) ≡ record { rts = rts; dtr = dtr }
unfolding from_bits to_bits
lines_kept true true = refl
lines_kept true false = refl
lines_kept false true = refl
lines_kept false false = refl

-- The line states come back from their mask, and a mask is made again of the two lowest bits of the mask
-- that was read: every other bit of it is dropped.
pub from_bits-to_bits :
    (lines : SerialProxyLineStates) (bits : ℕ)
    → (from_bits (to_bits lines) ≡ lines) × (to_bits (from_bits bits) ≡ bits % 4)
unfolding from_bits
from_bits-to_bits lines bits = (
  lines_kept lines.rts lines.dtr,
  rw (bit_zero bits, bit_one bits)
      (both (bits % 2) (bits / 2 % 2) (digit bits) (digit (bits / 2)) ∙ omega arith),
)
