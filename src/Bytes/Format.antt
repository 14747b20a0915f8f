-- ===== src/Bytes/Format.antt =====
-- What a base-128 varint is, apart from any code that writes or reads one.
use cpp_esphome_api.Base.{
  ℕ, zero, suc, ◌+◌, ◌/◌, ◌%◌, ◌^◌, ◌≤◌, ◌<◌, arith, List, [], ◌∷◌, length, All,
}

-- Seven bits a byte, lowest group first, the top bit set on all bytes but the last.
pub data IsVarint : ℕ → List ℕ → Type 0 where
  last : (v : ℕ) → v < 128 → IsVarint v (v ∷ [])
  more :
      (v : ℕ) (rest : List ℕ)
      → 128 ≤ v
      → IsVarint (v / 128) rest
      → IsVarint v ((v % 128 + 128) ∷ rest)

pub IsVarint-bytes : {v : ℕ} {bs : List ℕ} → IsVarint v bs → All (λ b. b < 256) bs
IsVarint-bytes (last v h) = omega arith
IsVarint-bytes (more v rest h r) = (omega arith, IsVarint-bytes r)

pub IsVarint-nonempty : {v : ℕ} {bs : List ℕ} → IsVarint v bs → 1 ≤ length bs
IsVarint-nonempty (last v h) = omega arith
IsVarint-nonempty (more v rest h r) = omega arith

-- `k` groups hold what is below `128 ^ k`.
pub IsVarint-length :
    (k : ℕ) {v : ℕ} {bs : List ℕ} → IsVarint v bs → v < 128 ^ suc k → length bs ≤ suc k
IsVarint-length k (last v h) fits = omega arith
IsVarint-length zero (more v rest h r) fits = absurd (omega arith)
IsVarint-length (suc k) (more v rest h r) fits = omega (arith, IsVarint-length k r (omega arith))
