-- ===== src/Base/Bits.antt =====
-- The native bit operations as arithmetic, on fields and masks of every width and on one byte.
use Prim.Native.Nat.{ℕ, zero, suc, ◌+◌, ◌-◌, ◌*◌, ◌/◌, ◌%◌, ◌^◌, ◌≤◌, ◌<◌, min, max}
use Prim.Native.Nat.{bit_and, bit_or, bit_xor, digits, differ, bitwise}
use Prim.Native.Nat.{bit_and-bitwise, bit_or-bitwise, bit_xor-bitwise}
use mathlib.Core.Path.{◌≡◌, refl, ap, ◌∙◌}
use mathlib.Core.Bool.{Bool, true, ◌&&◌}
use mathlib.Core.WellFounded
use native.Mathlib.Decide.{dec_le}
use native.Mathlib.Nat.{pow-suc, one-le-pow}
use native.Mathlib.Omega.{arith}
use cpp_esphome_api.Base.Tests.{◌==◌, ==_iff, lt_wf}

-- A bit operation by its lowest digit. `z` answers once the first number has run out, `f` combines
-- two digits.
module _ (z : ℕ → ℕ) (f : ℕ → ℕ → ℕ) where
  abbrev join : ℕ → ℕ → ℕ → ℕ
  join a b high = high * 2 + f (a % 2) (b % 2)

  one_more : (n a b : ℕ) → a ≤ n → digits z f (suc n) a b ≡ digits z f n a b
  one_more n zero b h = at_zero n
    where
      at_zero : (n : ℕ) → digits z f (suc n) zero b ≡ digits z f n zero b
      at_zero zero = refl
      at_zero (suc n) = refl
  one_more zero (suc a) b h = elim h [ ]
  one_more (suc n) (suc a) b h = ap (join (suc a) b) (one_more n (suc a / 2) (b / 2) (omega arith))

  fuelled : (n a b : ℕ) → a ≤ n → digits z f n a b ≡ bitwise z f a b
  fuelled zero a b h = let none_left : a ≡ 0 = omega arith in rw none_left
  fuelled (suc n) a b h = elim (dec_le a n) [
    | yes less ↦ one_more n a b less ∙ fuelled n a b less
    | no all_used ↦ let e : a ≡ suc n = omega arith in rw e
  ]

  peel :
      ((b : ℕ) → z b ≡ join 0 b (z (b / 2)))
      → (a b : ℕ) → bitwise z f a b ≡ join a b (bitwise z f (a / 2) (b / 2))
  peel run_out zero b = run_out b
  peel run_out (suc a) b = ap (join (suc a) b) (fuelled a (suc a / 2) (b / 2) (omega arith))

pub bit_or_step : (a b : ℕ) → bit_or a b ≡ bit_or (a / 2) (b / 2) * 2 + max (a % 2) (b % 2)
bit_or_step a b = simp bit_or-bitwise (peel (λ y. y) max (λ y. omega arith) a b)

pub bit_and_step : (a b : ℕ) → bit_and a b ≡ bit_and (a / 2) (b / 2) * 2 + min (a % 2) (b % 2)
bit_and_step a b = simp bit_and-bitwise (peel (λ y. 0) min (λ y. omega arith) a b)

pub bit_xor_step : (a b : ℕ) → bit_xor a b ≡ bit_xor (a / 2) (b / 2) * 2 + differ (a % 2) (b % 2)
bit_xor_step a b = simp bit_xor-bitwise (peel (λ y. y) differ (λ y. omega arith) a b)

-- Both go from `a / 2` to `a`.
pub bit_or-zero : (a : ℕ) → bit_or a 0 ≡ a
bit_or-zero a = WellFounded.induction lt_wf {C = λ n. bit_or n 0 ≡ n} a half
  where
    half : (n : ℕ) → ((m : ℕ) → m < n → bit_or m 0 ≡ m) → bit_or n 0 ≡ n
    half zero ih = refl
    half (suc n) ih = omega (arith, bit_or_step (suc n) 0, ih (suc n / 2) (omega arith))

pub bit_and-zero : (a : ℕ) → bit_and a 0 ≡ 0
bit_and-zero a = WellFounded.induction lt_wf {C = λ n. bit_and n 0 ≡ 0} a half
  where
    half : (n : ℕ) → ((m : ℕ) → m < n → bit_and m 0 ≡ 0) → bit_and n 0 ≡ 0
    half zero ih = refl
    half (suc n) ih = omega (arith, bit_and_step (suc n) 0, ih (suc n / 2) (omega arith))

differ-nought : (n : ℕ) → n < 2 → differ n 0 ≡ n
differ-nought zero h = refl
differ-nought (suc zero) h = refl
differ-nought (suc (suc n)) h = absurd (omega arith)

pub bit_xor-zero : (a : ℕ) → bit_xor a 0 ≡ a
bit_xor-zero a = WellFounded.induction lt_wf {C = λ n. bit_xor n 0 ≡ n} a half
  where
    half : (n : ℕ) → ((m : ℕ) → m < n → bit_xor m 0 ≡ m) → bit_xor n 0 ≡ n
    half zero ih = refl
    half (suc n) ih = omega (
      arith,
      bit_xor_step (suc n) 0,
      differ-nought (suc n % 2) (omega arith),
      ih (suc n / 2) (omega arith),
    )

scale-suc : (q k : ℕ) → q * 2 ^ suc k ≡ 2 * (q * 2 ^ k)
scale-suc q k = omega (arith, ap (λ (t : ℕ). q * t) (pow-suc 2 k))

-- `low | (high << k)` is a sum where `low` fits `k` bits.
pub bit_or_shifted : (k low high : ℕ) → low < 2 ^ k → bit_or low (high * 2 ^ k) ≡ low + high * 2 ^ k
bit_or_shifted zero low high fits = ground (arith, zero_or high)
  where
    zero_or : (n : ℕ) → bit_or 0 n ≡ n
    zero_or n = bit_or-bitwise 0 n
bit_or_shifted (suc k) low high fits = ground (
  arith,
  bit_or_step low (high * 2 ^ suc k),
  scale-suc high k,
  bit_or_shifted k (low / 2) high (omega arith),
)

-- `(high << k) | low`, the other way round.
pub bit_or_fields : (k high low : ℕ) → low < 2 ^ k → bit_or (high * 2 ^ k) low ≡ high * 2 ^ k + low
bit_or_fields zero high low fits = ground (arith, bit_or-zero high)
bit_or_fields (suc k) high low fits = ground (
  arith,
  bit_or_step (high * 2 ^ suc k) low,
  scale-suc high k,
  bit_or_fields k high (low / 2) (omega arith),
)

differ-one : (n : ℕ) → n < 2 → differ n 1 ≡ 1 - n
differ-one zero h = refl
differ-one (suc zero) h = refl
differ-one (suc (suc n)) h = absurd (omega arith)

-- Exclusive or with `k` ones takes the complement.
pub bit_xor_ones : (k a : ℕ) → a < 2 ^ k → bit_xor a (2 ^ k - 1) ≡ 2 ^ k - 1 - a
bit_xor_ones zero zero fits = refl
bit_xor_ones zero (suc a) fits = absurd (omega arith)
bit_xor_ones (suc k) a fits = ground (
  arith,
  bit_xor_step a (2 ^ suc k - 1),
  pow-suc 2 k,
  one-le-pow k 2,
  differ-one (a % 2),
  bit_xor_ones k (a / 2) (omega (arith, pow-suc 2 k)),
)

and_low_field : (k q r : ℕ) → r < 2 ^ k → bit_and (q * 2 ^ k + r) (2 ^ k - 1) ≡ r
and_low_field zero q r fits = rw bit_and-zero (omega arith)
and_low_field (suc k) q r fits = ground (
  arith,
  bit_and_step (q * 2 ^ suc k + r) (2 ^ suc k - 1),
  scale-suc q k,
  pow-suc 2 k,
  and_low_field k q (r / 2) (omega arith),
)

-- A mask of the low `k` bits is the remainder.
pub bit_and_mask : (k a : ℕ) → bit_and a (2 ^ k - 1) ≡ a % 2 ^ k
bit_and_mask k a = ground (arith, one-le-pow k 2, and_low_field k (a / 2 ^ k) (a % 2 ^ k))

-- Tables over one byte: two functions that agree on every byte, by evaluation.
same_from : (ℕ → ℕ) → (ℕ → ℕ) → ℕ → Bool
same_from f g zero = true
same_from f g (suc n) = (f n == g n) && same_from f g n

same : (f g : ℕ → ℕ) (n b : ℕ) → same_from f g n ≡ true → b < n → f b ≡ g b
unfolding same_from
same f g zero b e h = elim h [ ]
same f g (suc n) b e h = ground (arith, ==_iff (f n) (g n), same f g n b)

abbrev byte_count : ℕ
byte_count = 256

-- The masks of one byte.
pub low_bits : (b : ℕ) → b < 256 → bit_and b 0x7f ≡ b % 128
unfolding same_from
low_bits b = same (λ n. bit_and n 0x7f) (λ n. n % 128) byte_count b refl

pub top_bit : (b : ℕ) → b < 256 → bit_and b 0x80 ≡ b / 128 * 128
unfolding same_from
top_bit b = same (λ n. bit_and n 0x80) (λ n. n / 128 * 128) byte_count b refl

pub set_top_bit : (b : ℕ) → b < 256 → bit_or b 0x80 ≡ b % 128 + 128
unfolding same_from
set_top_bit b = same (λ n. bit_or n 0x80) (λ n. n % 128 + 128) byte_count b refl

pub top_two_bits : (b : ℕ) → b < 256 → bit_and b 0xc0 ≡ b / 64 * 64
unfolding same_from
top_two_bits b = same (λ n. bit_and n 0xc0) (λ n. n / 64 * 64) byte_count b refl

pub six_bits : (b : ℕ) → b < 256 → bit_and b 0x3f ≡ b % 64
unfolding same_from
six_bits b = same (λ n. bit_and n 0x3f) (λ n. n % 64) byte_count b refl
