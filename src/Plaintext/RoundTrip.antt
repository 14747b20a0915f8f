-- ===== src/Plaintext/RoundTrip.antt =====
-- What `encode` writes, and what `parse` makes of the whole and of a part of it.
use cpp_esphome_api.Base.{
  ℕ, zero, suc, ◌+◌, ◌-◌, ◌^◌, ◌<◌, ◌≡◌, refl, sym, ap, ◌∙◌, List, ◌∷◌, ◌++◌, append_assoc, arith,
  length, take, drop, length-append, length-take, take-append, drop-append, take-append_le,
  take-append_ge, drop-drop,
}
use native.Mathlib.Decide.{dec_lt}
use cpp_esphome_api.Bytes.Encode.{varint_bytes}
use cpp_esphome_api.Plaintext.{indicator, found, partial, take_payload, read_type, parse}
use cpp_esphome_api.Plaintext.Stages.{
  read_length_ok, read_type_ok, read_type_cut, read_length_cut, frame_bytes, read_varint,
  read_varint_cut, drop-cons, IsFrame,
}

-- The header of a frame with a payload of `len` bytes, before any bytes.
module _ (len msg_type : ℕ) (len_fits : len < 2 ^ 28) (type_fits : msg_type < 2 ^ 28) where
  header_len : ℕ
  header_len = 1 + length (varint_bytes len) + length (varint_bytes msg_type)

  abbrev with_length : List ℕ → List ℕ
  with_length rest = indicator ∷ (varint_bytes len ++ rest)

  parse_past_length :
      (rest : List ℕ)
      → parse (with_length rest) ≡ read_type (with_length rest) (1 + length (varint_bytes len)) len
  unfolding parse
  parse_past_length rest = read_length_ok (with_length rest) 1 len _ (read_varint len rest len_fits)

  drop-with_length :
      (rest : List ℕ) → drop (1 + length (varint_bytes len)) (with_length rest) ≡ rest
  drop-with_length rest =
      drop-cons (length (varint_bytes len)) indicator (varint_bytes len ++ rest)
      ∙ drop-append (varint_bytes len) rest

  parse_header :
      (rest : List ℕ)
      → let p = with_length (varint_bytes msg_type ++ rest) in
        parse p ≡ take_payload p header_len len msg_type
  unfolding header_len
  parse_header rest =
      parse_past_length (varint_bytes msg_type ++ rest)
      ∙ read_type_ok _ _ len msg_type _ (
          rw (drop-with_length (varint_bytes msg_type ++ rest))
            (read_varint msg_type rest type_fits))

  drop-header :
      (rest : List ℕ) → drop header_len (with_length (varint_bytes msg_type ++ rest)) ≡ rest
  unfolding header_len
  drop-header rest =
      sym (drop-drop (1 + length (varint_bytes len)) (length (varint_bytes msg_type)) _)
      ∙ ap (drop (length (varint_bytes msg_type)))
          (drop-with_length (varint_bytes msg_type ++ rest))
      ∙ drop-append (varint_bytes msg_type) rest

  length-header :
      (rest : List ℕ)
      → length (with_length (varint_bytes msg_type ++ rest)) ≡ header_len + length rest
  unfolding header_len
  length-header rest = omega (
    arith,
    length-append (varint_bytes len) (varint_bytes msg_type ++ rest),
    length-append (varint_bytes msg_type) rest,
  )

  parse_cut_type :
      (n : ℕ)
      → n < length (varint_bytes msg_type)
      → parse (with_length (take n (varint_bytes msg_type))) ≡ partial
  parse_cut_type n h =
      parse_past_length (take n (varint_bytes msg_type))
      ∙ read_type_cut _ _ len (
          rw (drop-with_length (take n (varint_bytes msg_type)))
            (read_varint_cut msg_type n type_fits h))

  parse_cut_length :
      (n : ℕ)
      → n < length (varint_bytes len)
      → parse (indicator ∷ take n (varint_bytes len)) ≡ partial
  unfolding parse
  parse_cut_length n h =
      read_length_cut (indicator ∷ take n (varint_bytes len)) 1 (read_varint_cut len n len_fits h)

-- A whole frame is found at the front of the bytes, and takes its own length.
pub parse-frame_bytes :
    (msg_type : ℕ) (payload rest : List ℕ)
    → IsFrame msg_type payload
    → parse (frame_bytes msg_type payload ++ rest)
      ≡ found msg_type payload (length (frame_bytes msg_type payload))
unfolding frame_bytes
parse-frame_bytes msg_type payload rest f =
    let len = length payload in
    let lf : len < 2 ^ 28 = omega (arith, f.payload_fits) in
    let tf : msg_type < 2 ^ 28 = f.type_fits in
    let p = with_length len msg_type lf tf (varint_bytes msg_type ++ (payload ++ rest)) in
    let whole : length (frame_bytes msg_type payload) ≡ header_len len msg_type lf tf + len =
      length-header len msg_type lf tf payload in
    rw
      (
        append_assoc (varint_bytes len) (varint_bytes msg_type ++ payload) rest,
        append_assoc (varint_bytes msg_type) payload rest,
      )
      (parse_header len msg_type lf tf (payload ++ rest)
        ∙ unfold take_payload in
          ground (
            arith,
            whole,
            f.payload_fits,
            length-header len msg_type lf tf (payload ++ rest),
            length-append payload rest,
            drop-header len msg_type lf tf (payload ++ rest),
            take-append payload rest,
          ))

cut_payload :
    (msg_type n : ℕ) (payload : List ℕ)
    → IsFrame msg_type payload
    → n < length payload
    → parse
        (indicator ∷ (varint_bytes (length payload) ++ (varint_bytes msg_type ++ take n payload)))
      ≡ partial
cut_payload msg_type n payload f h =
    let len = length payload in
    let lf : len < 2 ^ 28 = omega (arith, f.payload_fits) in
    parse_header len msg_type lf f.type_fits (take n payload)
    ∙ unfold take_payload in
      ground (
        arith,
        f.payload_fits,
        length-header len msg_type lf f.type_fits (take n payload),
        length-take n payload,
      )

-- A part of a frame is no frame yet, wherever it is cut.
pub parse-take_frame :
    (msg_type n : ℕ) (payload : List ℕ)
    → IsFrame msg_type payload
    → n < length (frame_bytes msg_type payload)
    → parse (take n (frame_bytes msg_type payload)) ≡ partial
unfolding frame_bytes
parse-take_frame msg_type zero payload f h = unfold parse in refl
parse-take_frame msg_type (suc n) payload f h = elim (dec_lt n (length L)) [
  | yes short ↦
      rw (take-append_le n L (T ++ payload) (omega arith))
        (parse_cut_length (length payload) msg_type lf f.type_fits n short)
  | no long ↦ elim (dec_lt (n - length L) (length T)) [
    | yes short ↦
        rw
          (
            take-append_ge n L (T ++ payload) (omega arith),
            take-append_le (n - length L) T payload (omega arith),
          )
          (parse_cut_type (length payload) msg_type lf f.type_fits (n - length L) short)
    | no longer ↦
        rw
          (
            take-append_ge n L (T ++ payload) (omega arith),
            take-append_ge (n - length L) T payload (omega arith),
          )
          (cut_payload msg_type (n - length L - length T) payload f
            (omega (arith, h, length-append L (T ++ payload), length-append T payload)))
  ]
]
  where
    L : List ℕ
    L = varint_bytes (length payload)

    T : List ℕ
    T = varint_bytes msg_type

    lf : length payload < 2 ^ 28
    lf = omega (arith, f.payload_fits)
