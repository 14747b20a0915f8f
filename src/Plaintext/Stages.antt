-- ===== src/Plaintext/Stages.antt =====
-- What `encode` writes, and the stages of `parse` by what the varint at the cursor turns out to be.
use cpp_esphome_api.Base.{
  ℕ, suc, ◌+◌, ◌%◌, ◌^◌, ◌≤◌, ◌<◌, ◌≡◌, List, [], ◌∷◌, ◌++◌, append_assoc, arith, length, take,
  drop,
}
use cpp_esphome_api.Bytes.{append_varint, decode_varint}
use cpp_esphome_api.Bytes
use cpp_esphome_api.Bytes.Format.{IsVarint-length, IsVarint-nonempty}
use cpp_esphome_api.Bytes.Encode.{
  varint_bytes, varint_bytes-IsVarint, append_varint-bytes, varint_size-length,
}
use cpp_esphome_api.Bytes.RoundTrip.{decode_varint-append_varint, decode_varint-take}
use cpp_esphome_api.Frame.{max_frame_payload}
use cpp_esphome_api.Plaintext.{
  indicator, varint_budget, partial, take_payload, read_type, read_length, encode,
}

-- A frame that the format can carry: four varint bytes hold 28 bits.
pub record IsFrame (msg_type : ℕ) (payload : List ℕ) : Type 0 where
  pub type_fits : msg_type < 2 ^ 28
  pub payload_fits : length payload ≤ max_frame_payload

unfoldable pub frame_bytes : ℕ → List ℕ → List ℕ
frame_bytes msg_type payload =
    indicator ∷ (varint_bytes (length payload) ++ (varint_bytes msg_type ++ payload))

-- `encode` appends the indicator, the length, the type and the payload.
pub encode-frame_bytes :
    (msg_type : ℕ) (payload out : List ℕ)
    → length payload < 2 ^ 32
    → encode msg_type payload out ≡ out ++ frame_bytes msg_type payload
unfolding encode frame_bytes
encode-frame_bytes msg_type payload out h =
    let e : length payload % 2 ^ 32 ≡ length payload = omega arith in
    rw (e, append_varint-bytes) (rw append_varint-bytes (simp append_assoc))

-- Four bytes are enough for 28 bits.
length-varint_bytes :
    (v : ℕ) → v < 2 ^ 28 → (1 ≤ length (varint_bytes v)) × (length (varint_bytes v) ≤ 4)
length-varint_bytes v h = (
  IsVarint-nonempty (varint_bytes-IsVarint v),
  IsVarint-length 3 (varint_bytes-IsVarint v) (omega arith),
)

pub read_varint :
    (v : ℕ) (rest : List ℕ)
    → v < 2 ^ 28
    → decode_varint (varint_bytes v ++ rest) varint_budget
      ≡ Bytes.VarintStatus.ok v (length (varint_bytes v))
read_varint v rest h =
    let form = varint_bytes-IsVarint v in
    rw (append_varint-bytes [] v, varint_size-length form) at
      (decode_varint-append_varint v varint_budget rest (omega arith)
        (omega (arith, varint_size-length form, length-varint_bytes v h)))

pub read_varint_cut :
    (v n : ℕ)
    → v < 2 ^ 28
    → n < length (varint_bytes v)
    → decode_varint (take n (varint_bytes v)) varint_budget ≡ Bytes.VarintStatus.incomplete
read_varint_cut v n h short =
    let form = varint_bytes-IsVarint v in
    rw (append_varint-bytes [] v) at (
      decode_varint-take v varint_budget n
        (omega (arith, varint_size-length form, length-varint_bytes v h))
        (omega (arith, varint_size-length form)))

pub drop-cons : (n x : ℕ) (xs : List ℕ) → drop (1 + n) (x ∷ xs) ≡ drop n xs
drop-cons n x xs = let e : 1 + n ≡ suc n = omega arith in rw e

-- The stages of `parse` by what the varint at the cursor turns out to be.
module _ (p : List ℕ) (cursor : ℕ) where
  pub read_length_ok :
      (v n : ℕ)
      → decode_varint (drop cursor p) varint_budget ≡ Bytes.VarintStatus.ok v n
      → read_length p cursor ≡ read_type p (cursor + n) v
  unfolding read_length
  read_length_ok v n d = rw (d, read_length)

  pub read_length_cut :
      decode_varint (drop cursor p) varint_budget ≡ Bytes.VarintStatus.incomplete
      → read_length p cursor ≡ partial
  unfolding read_length
  read_length_cut d = rw (d, read_length)

  pub read_type_ok :
      (payload_len v n : ℕ)
      → decode_varint (drop cursor p) varint_budget ≡ Bytes.VarintStatus.ok v n
      → read_type p cursor payload_len ≡ take_payload p (cursor + n) payload_len v
  unfolding read_type
  read_type_ok payload_len v n d = rw (d, read_type)

  pub read_type_cut :
      (payload_len : ℕ)
      → decode_varint (drop cursor p) varint_budget ≡ Bytes.VarintStatus.incomplete
      → read_type p cursor payload_len ≡ partial
  unfolding read_type
  read_type_cut payload_len d = rw (d, read_type)
