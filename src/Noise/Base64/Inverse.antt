-- ===== src/Noise/Base64/Inverse.antt =====
-- `base64_decode` against an encoder written from RFC 4648.
use cpp_esphome_api.Base.{
  ℕ, ◌+◌, ◌*◌, ◌/◌, ◌%◌, ◌<◌, ◌≡◌, refl, sym, ◌∙◌, ◌⊎◌, inl, inr, Option, some, List, [], ◌∷◌,
  arith, ◌==◌, Bool-cases, length, All,
}
use cpp_esphome_api.Base.Bits.{bit_and_mask}
use cpp_esphome_api.Bytes.{IsByte}
use cpp_esphome_api.Noise.Base64.{
  base64_value, byte_one, byte_two, byte_three, fourth, third, decode_quartets, base64_decode,
}
use cpp_esphome_api.Noise.Base64.Encode.{
  base64_encode, char-value, byte_one-sum, byte_two-sum, byte_three-sum,
}

-- The other way: what `fourth` and `third` can have seen.
fourth_seen :
    (b0 b1 v2 c3 : ℕ) (rest : List ℕ) (more : Option (List ℕ)) (out : List ℕ)
    → fourth b0 b1 v2 c3 rest more ≡ some out
    → ((c3 ≡ b'=') × (rest ≡ []) × (v2 % 4 ≡ 0) × (out ≡ b0 ∷ b1 ∷ []))
      ⊎ ((v3 : ℕ) × (bs : List ℕ) × (base64_value c3 ≡ some v3)
          × (more ≡ some bs)
          × (out ≡ b0 ∷ b1 ∷ byte_three v2 v3 ∷ bs))
unfolding fourth
fourth_seen b0 b1 v2 c3 rest more out e = ground (arith, bit_and_mask 2 v2)

third_seen :
    (b0 v1 c2 c3 : ℕ) (rest : List ℕ) (more : Option (List ℕ)) (out : List ℕ)
    → third b0 v1 c2 c3 rest more ≡ some out
    → ((c2 ≡ b'=') × (c3 ≡ b'=') × (rest ≡ []) × (v1 % 16 ≡ 0) × (out ≡ b0 ∷ []))
      ⊎ ((v2 : ℕ) × (base64_value c2 ≡ some v2)
          × (fourth b0 (byte_two v1 v2) v2 c3 rest more ≡ some out))
unfolding third
third_seen b0 v1 c2 c3 rest more out e = ground (arith, bit_and_mask 4 v1)

quartet_seen :
    (c0 c1 c2 c3 : ℕ) (rest out : List ℕ)
    → decode_quartets (c0 ∷ c1 ∷ c2 ∷ c3 ∷ rest) ≡ some out
    → (v0 : ℕ) × (v1 : ℕ) × (base64_value c0 ≡ some v0)
      × (base64_value c1 ≡ some v1)
      × (third (byte_one v0 v1) v1 c2 c3 rest (decode_quartets rest) ≡ some out)
unfolding decode_quartets
quartet_seen c0 c1 c2 c3 rest out e = ground arith

abbrev Encodes : List ℕ → List ℕ → Type 0
Encodes out text = (base64_encode out ≡ text) × All IsByte out

one_seen :
    (c0 c1 v0 v1 : ℕ)
    → base64_value c0 ≡ some v0
    → base64_value c1 ≡ some v1
    → v1 % 16 ≡ 0
    → Encodes (byte_one v0 v1 ∷ []) (c0 ∷ c1 ∷ b'=' ∷ b'=' ∷ [])
unfolding base64_encode
one_seen c0 c1 v0 v1 e0 e1 spare =
    let (l0, p0) = char-value c0 v0 e0 in
    let (l1, p1) = char-value c1 v1 e1 in
    let s = byte_one-sum v0 v1 l0 l1 in
    let q0 : byte_one v0 v1 / 4 ≡ v0 = omega arith in
    let q1 : byte_one v0 v1 % 4 * 16 ≡ v1 = omega arith in
    (rw (q0, q1, p0, p1) refl, (omega arith, tt))

two_seen :
    (c0 c1 c2 v0 v1 v2 : ℕ)
    → base64_value c0 ≡ some v0
    → base64_value c1 ≡ some v1
    → base64_value c2 ≡ some v2
    → v2 % 4 ≡ 0
    → Encodes (byte_one v0 v1 ∷ byte_two v1 v2 ∷ []) (c0 ∷ c1 ∷ c2 ∷ b'=' ∷ [])
unfolding base64_encode
two_seen c0 c1 c2 v0 v1 v2 e0 e1 e2 spare =
    let (l0, p0) = char-value c0 v0 e0 in
    let (l1, p1) = char-value c1 v1 e1 in
    let (l2, p2) = char-value c2 v2 e2 in
    let s = byte_one-sum v0 v1 l0 l1 in
    let t = byte_two-sum v1 v2 l1 l2 in
    let q0 : byte_one v0 v1 / 4 ≡ v0 = omega arith in
    let q1 : byte_one v0 v1 % 4 * 16 + byte_two v1 v2 / 16 ≡ v1 = omega arith in
    let q2 : byte_two v1 v2 % 16 * 4 ≡ v2 = omega arith in
    (rw (q0, q1, q2, p0, p1, p2) refl, (omega arith, (omega arith, tt)))

three_seen :
    (c0 c1 c2 c3 v0 v1 v2 v3 : ℕ) (bs rest : List ℕ)
    → base64_value c0 ≡ some v0
    → base64_value c1 ≡ some v1
    → base64_value c2 ≡ some v2
    → base64_value c3 ≡ some v3
    → Encodes bs rest
    → Encodes (byte_one v0 v1 ∷ byte_two v1 v2 ∷ byte_three v2 v3 ∷ bs) (c0 ∷ c1 ∷ c2 ∷ c3 ∷ rest)
unfolding base64_encode
three_seen c0 c1 c2 c3 v0 v1 v2 v3 bs rest e0 e1 e2 e3 (text, fits) =
    let (l0, p0) = char-value c0 v0 e0 in
    let (l1, p1) = char-value c1 v1 e1 in
    let (l2, p2) = char-value c2 v2 e2 in
    let (l3, p3) = char-value c3 v3 e3 in
    let s = byte_one-sum v0 v1 l0 l1 in
    let t = byte_two-sum v1 v2 l1 l2 in
    let u = byte_three-sum v2 v3 l2 l3 in
    let q0 : byte_one v0 v1 / 4 ≡ v0 = omega arith in
    let q1 : byte_one v0 v1 % 4 * 16 + byte_two v1 v2 / 16 ≡ v1 = omega arith in
    let q2 : byte_two v1 v2 % 16 * 4 + byte_three v2 v3 / 64 ≡ v2 = omega arith in
    let q3 : byte_three v2 v3 % 64 ≡ v3 = omega arith in
    (
      rw (q0, q1, q2, q3, p0, p1, p2, p3, text) refl,
      (omega arith, (omega arith, (omega arith, fits))),
    )

-- Less than a quartet decodes only if there is nothing.
short_seen :
    (text out : List ℕ) → length text < 4 → decode_quartets text ≡ some out → Encodes out text
unfolding decode_quartets base64_encode
short_seen [] [] h e = (refl, tt)
short_seen [] (b ∷ out) h e = ground arith
short_seen (c0 ∷ []) out h e = ground arith
short_seen (c0 ∷ c1 ∷ []) out h e = ground arith
short_seen (c0 ∷ c1 ∷ c2 ∷ []) out h e = ground arith
short_seen (c0 ∷ c1 ∷ c2 ∷ c3 ∷ rest) out h e = absurd (omega arith)

encode-decode : (text out : List ℕ) → decode_quartets text ≡ some out → Encodes out text
encode-decode [] out e = short_seen [] out (omega arith) e
encode-decode (c0 ∷ []) out e = short_seen (c0 ∷ []) out (omega arith) e
encode-decode (c0 ∷ c1 ∷ []) out e = short_seen (c0 ∷ c1 ∷ []) out (omega arith) e
encode-decode (c0 ∷ c1 ∷ c2 ∷ []) out e = short_seen (c0 ∷ c1 ∷ c2 ∷ []) out (omega arith) e
encode-decode (c0 ∷ c1 ∷ c2 ∷ c3 ∷ rest) out e =
    let (v0, v1, e0, e1, e') = quartet_seen c0 c1 c2 c3 rest out e in
    elim (third_seen (byte_one v0 v1) v1 c2 c3 rest (decode_quartets rest) out e') [
      | inl (p2, p3, r, spare, o) ↦ rw (o, p2, p3, r) (one_seen c0 c1 v0 v1 e0 e1 spare)
      | inr (v2, e2, f) ↦
          (elim (fourth_seen (byte_one v0 v1) (byte_two v1 v2) v2 c3 rest (decode_quartets rest) out
            f) [
              | inl (p3, r, spare, o) ↦ rw (o, p3, r) (two_seen c0 c1 c2 v0 v1 v2 e0 e1 e2 spare)
              | inr (v3, bs, e3, m, o) ↦
                  rw o (
                    three_seen c0 c1 c2 c3 v0 v1 v2 v3 bs rest e0 e1 e2 e3
                      (encode-decode rest bs m))
            ])
    ]

-- A text that base64_decode accepts is the base64 text of the bytes that it gives, to the last bit of
-- padding: no other text is accepted.
pub base64_encode-base64_decode :
    (text out : List ℕ)
    → base64_decode text ≡ some out
    → (base64_encode out ≡ text) × All IsByte out
unfolding base64_decode
base64_encode-base64_decode text out e = elim (Bool-cases (length text % 4 == 0)) [
  | inl h ↦ encode-decode text out (sym (rw h refl) ∙ e)
  | inr h ↦ absurd (ground arith)
]
