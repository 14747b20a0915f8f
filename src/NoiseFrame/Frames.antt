-- ===== src/NoiseFrame/Frames.antt =====
-- `next_raw`: what it takes off the buffer, and how it reads what a peer framed.
use cpp_esphome_api.Base.{
  zero, suc, true, lt→ltb, ℕ, ◌+◌, ◌/◌, ◌%◌, ◌^◌, ◌≤◌, ◌<◌, bit_and, ◌≡◌, refl, ◌∙◌, false, List,
  [], ◌∷◌, ◌++◌, arith, ltb, le→ltb-false, length, take, drop, length-append, length-take,
  take-append, drop_all,
}
use cpp_esphome_api.Base.Bits.{bit_or_fields, bit_and_mask}
use cpp_esphome_api.Frame.{max_frame_payload}
use cpp_esphome_api.NoiseFrame.{
  NoiseFrameHelper, frame, partial, append_u16, read_u16, indicator, compact, parse_raw, settle,
  next_raw,
}

-- The bytes that wait.
abbrev pub pending : NoiseFrameHelper → List ℕ
pending h = drop h.consumed h.buffer

compact-pending : (h : NoiseFrameHelper) → compact h ≡ record h { buffer = pending h; consumed = 0 }
unfolding compact
compact-pending h = ground (arith, drop_all h.consumed h.buffer)

pub next_raw-pending :
    (h : NoiseFrameHelper)
    → next_raw h ≡ settle (record h { buffer = pending h; consumed = 0 }) (parse_raw (pending h))
unfolding next_raw
next_raw-pending h = rw (compact-pending h)

-- A frame lies behind its header in the bytes it was found in.
pub parse_raw-fits :
    (p payload : List ℕ)
    → parse_raw p ≡ frame payload
    → (3 + length payload ≤ length p) × (payload ≡ take (length payload) (drop 3 p))
unfolding parse_raw
parse_raw-fits [] payload e = ground arith
parse_raw-fits (p0 ∷ []) payload e = ground arith
parse_raw-fits (p0 ∷ p1 ∷ []) payload e = ground arith
parse_raw-fits (p0 ∷ p1 ∷ p2 ∷ rest) payload e =
    let l = length-take (read_u16 p1 p2) rest in ground (arith, l)

-- A two-byte length comes back.
pub u16_bytes :
    (value : ℕ)
    → value < 2 ^ 16
    → read_u16 (bit_and (value / 2 ^ 8) 0xff) (bit_and value 0xff) ≡ value
unfolding read_u16
u16_bytes value h =
    let high = bit_and_mask 8 (value / 2 ^ 8) in
    let low = bit_and_mask 8 value in
    rw (high, low)
      (bit_or_fields 8 (value / 2 ^ 8 % 2 ^ 8) (value % 2 ^ 8) (omega arith) ∙ omega arith)

-- What a peer framed is found, whatever follows.
pub parse_raw-append_u16 :
    (ct rest : List ℕ)
    → length ct < 2 ^ 16
    → parse_raw ((append_u16 (indicator ∷ []) (length ct) ++ ct) ++ rest) ≡ frame ct
unfolding parse_raw append_u16
parse_raw-append_u16 ct rest h =
    let fits : ltb max_frame_payload (length ct) ≡ false = le→ltb-false _ _ (omega arith) in
    let room : ltb (length (ct ++ rest)) (length ct) ≡ false =
      le→ltb-false _ _ (omega (arith, length-append ct rest)) in
    rw (u16_bytes (length ct) h, fits, room, take-append ct rest) refl

-- A proper part of what a peer framed is no frame yet.
pub parse_raw-take :
    (n : ℕ) (ct : List ℕ)
    → length ct < 2 ^ 16
    → n < 3 + length ct
    → parse_raw (take n (append_u16 (indicator ∷ []) (length ct) ++ ct)) ≡ partial
unfolding parse_raw append_u16
parse_raw-take zero ct h lt = refl
parse_raw-take (suc zero) ct h lt = refl
parse_raw-take (suc (suc zero)) ct h lt = refl
parse_raw-take (suc (suc (suc n))) ct h lt =
    let fits : ltb max_frame_payload (length ct) ≡ false = le→ltb-false _ _ (omega arith) in
    let short : ltb (length (take n ct)) (length ct) ≡ true =
      lt→ltb _ _ (omega (arith, length-take n ct (omega arith))) in
    rw (u16_bytes (length ct) h, fits, short) refl
