-- ===== src/Plaintext/Bounds.antt =====
-- What `parse` may answer on any bytes: where a frame lies, and what more input changes.
use cpp_esphome_api.Base.{
  ℕ, ◌+◌, ◌-◌, ◌≤◌, ◌≡◌, refl, sym, ◌∙◌, ◌≢◌, inl, inr, List, [], ◌∷◌, ◌++◌, arith, ◌==◌,
  Bool-cases, length, take, drop, length-append, length-drop, length-take, take-append_le,
  drop-append_le, take-drop,
}
use cpp_esphome_api.Bytes.{decode_varint}
use cpp_esphome_api.Bytes
use cpp_esphome_api.Bytes.Decode.{decode_varint_bounds, decode_varint-append}
use cpp_esphome_api.Frame.{max_frame_payload}
use cpp_esphome_api.Errors.{Exception}
use cpp_esphome_api.Plaintext.{
  Parsed, malformed, indicator, varint_budget, found, partial, take_payload, read_type, read_length,
  parse,
}

-- A frame of `used` bytes lies at the front of `p`, its payload last.
pub record Lies (p : List ℕ) (payload : List ℕ) (used : ℕ) : Type 0 where
  pub within : used ≤ length p
  pub header : 3 + length payload ≤ used
  pub limit : length payload ≤ max_frame_payload
  pub tail : payload ≡ drop (used - length payload) (take used p)

take_payload_found :
    (p : List ℕ) (cursor payload_len msg_type t : ℕ) (payload : List ℕ) (used : ℕ)
    → take_payload p cursor payload_len msg_type ≡ found t payload used
    → (payload_len ≤ max_frame_payload)
      × (payload_len ≤ length p - cursor)
      × (payload ≡ take payload_len (drop cursor p))
      × (used ≡ cursor + payload_len)
      × (t ≡ msg_type)
unfolding take_payload
take_payload_found p cursor payload_len msg_type t payload used e = ground arith

take_payload-Lies :
    (p : List ℕ) (cursor payload_len msg_type t : ℕ) (payload : List ℕ) (used : ℕ)
    → 3 ≤ cursor
    → cursor ≤ length p
    → take_payload p cursor payload_len msg_type ≡ found t payload used
    → Lies p payload used
take_payload-Lies p cursor payload_len msg_type t payload used h3 hc e =
    let (fits, room, payload_eq, used_eq, _) =
      take_payload_found p cursor payload_len msg_type t payload used e in
    let len : length payload ≡ payload_len =
      rw payload_eq
        (length-take payload_len (drop cursor p) (omega (arith, length-drop cursor p))) in
    let start : used - length payload ≡ cursor = omega arith in
    record {
      within = omega arith;
      header = omega arith;
      limit = omega arith;
      tail = rw (start, used_eq) (payload_eq ∙ take-drop cursor payload_len p);
    }

read_type-Lies :
    (p : List ℕ) (cursor payload_len t : ℕ) (payload : List ℕ) (used : ℕ)
    → 2 ≤ cursor
    → cursor ≤ length p
    → read_type p cursor payload_len ≡ found t payload used
    → Lies p payload used
unfolding read_type
read_type-Lies p cursor payload_len t payload used h2 hc e =
    go (decode_varint (drop cursor p) varint_budget) refl
  where
    go :
        (r : Bytes.VarintStatus)
        → decode_varint (drop cursor p) varint_budget ≡ r
        → Lies p payload used
    go Bytes.VarintStatus.incomplete d = cc (rw (d, read_type) at e)
    go Bytes.VarintStatus.overflow d = cc (rw (d, read_type) at e)
    go (Bytes.VarintStatus.ok v n) d =
        let b = decode_varint_bounds (drop cursor p) varint_budget v n d in
        take_payload-Lies p (cursor + n) payload_len v t payload used (omega (arith, b))
          (omega (arith, b, length-drop cursor p)) (rw (d, read_type) at e)

read_length-Lies :
    (p : List ℕ) (t : ℕ) (payload : List ℕ) (used : ℕ)
    → 1 ≤ length p
    → read_length p 1 ≡ found t payload used
    → Lies p payload used
unfolding read_length
read_length-Lies p t payload used h e = go (decode_varint (drop 1 p) varint_budget) refl
  where
    go : (r : Bytes.VarintStatus) → decode_varint (drop 1 p) varint_budget ≡ r → Lies p payload used
    go Bytes.VarintStatus.incomplete d = cc (rw (d, read_length) at e)
    go Bytes.VarintStatus.overflow d = cc (rw (d, read_length) at e)
    go (Bytes.VarintStatus.ok v n) d =
        let b = decode_varint_bounds (drop 1 p) varint_budget v n d in
        read_type-Lies p (1 + n) v t payload used (omega (arith, b))
          (omega (arith, b, length-drop 1 p)) (rw (d, read_length) at e)

pub parse-Lies :
    (p : List ℕ) (t : ℕ) (payload : List ℕ) (used : ℕ)
    → parse p ≡ found t payload used
    → Lies p payload used
unfolding parse
parse-Lies [] t payload used e = cc
parse-Lies (p0 ∷ rest) t payload used e =
    read_length-Lies (p0 ∷ rest) t payload used (omega arith) (ground arith)

-- More input changes nothing once the front of the buffer is complete or malformed.
take_payload-append :
    (p more : List ℕ) (cursor payload_len msg_type : ℕ)
    → cursor ≤ length p
    → take_payload p cursor payload_len msg_type ≢ partial
    → take_payload (p ++ more) cursor payload_len msg_type
      ≡ take_payload p cursor payload_len msg_type
unfolding take_payload
take_payload-append p more cursor payload_len msg_type hc h = ground (
  arith,
  length-append p more,
  length-drop cursor p,
  drop-append_le cursor p more,
  take-append_le payload_len (drop cursor p) more,
)

decode_drop-append :
    (p more : List ℕ) (cursor : ℕ) (r : Bytes.VarintStatus)
    → cursor ≤ length p
    → r ≢ Bytes.VarintStatus.incomplete
    → decode_varint (drop cursor p) varint_budget ≡ r
    → decode_varint (drop cursor (p ++ more)) varint_budget ≡ r
decode_drop-append p more cursor r hc settled d =
    rw (drop-append_le cursor p more hc)
      (decode_varint-append (drop cursor p) more varint_budget (λ e. settled (sym d ∙ e)) ∙ d)

read_type-append :
    (p more : List ℕ) (cursor payload_len : ℕ)
    → cursor ≤ length p
    → read_type p cursor payload_len ≢ partial
    → read_type (p ++ more) cursor payload_len ≡ read_type p cursor payload_len
unfolding read_type
read_type-append p more cursor payload_len hc h =
    go (decode_varint (drop cursor p) varint_budget) refl
  where
    go :
        (r : Bytes.VarintStatus)
        → decode_varint (drop cursor p) varint_budget ≡ r
        → read_type (p ++ more) cursor payload_len ≡ read_type p cursor payload_len
    go Bytes.VarintStatus.incomplete d = absurd (h (rw (d, read_type)))
    go Bytes.VarintStatus.overflow d =
        rw (
          decode_drop-append p more cursor Bytes.VarintStatus.overflow hc (λ e. cc) d,
          d,
          read_type,
        )
    go (Bytes.VarintStatus.ok v n) d =
        let b = decode_varint_bounds (drop cursor p) varint_budget v n d in
        rw
          (
            decode_drop-append p more cursor (Bytes.VarintStatus.ok v n) hc (λ e. cc) d,
            d,
            read_type,
          )
          (take_payload-append p more (cursor + n) payload_len v
            (omega (arith, b, length-drop cursor p)) (rw (d, read_type) at h))

read_length-append :
    (p more : List ℕ)
    → 1 ≤ length p
    → read_length p 1 ≢ partial
    → read_length (p ++ more) 1 ≡ read_length p 1
unfolding read_length
read_length-append p more hc h = go (decode_varint (drop 1 p) varint_budget) refl
  where
    go :
        (r : Bytes.VarintStatus)
        → decode_varint (drop 1 p) varint_budget ≡ r
        → read_length (p ++ more) 1 ≡ read_length p 1
    go Bytes.VarintStatus.incomplete d = absurd (h (rw (d, read_length)))
    go Bytes.VarintStatus.overflow d =
        rw (decode_drop-append p more 1 Bytes.VarintStatus.overflow hc (λ e. cc) d, d, read_length)
    go (Bytes.VarintStatus.ok v n) d =
        let b = decode_varint_bounds (drop 1 p) varint_budget v n d in
        rw (decode_drop-append p more 1 (Bytes.VarintStatus.ok v n) hc (λ e. cc) d, d, read_length)
          (read_type-append p more (1 + n) v (omega (arith, b, length-drop 1 p))
            (rw (d, read_length) at h))

pub parse-append : (p more : List ℕ) → parse p ≢ partial → parse (p ++ more) ≡ parse p
unfolding parse
parse-append [] more h = absurd (h refl)
parse-append (p0 ∷ rest) more h = elim (Bool-cases (p0 == indicator)) [
  | inl e ↦ rw e (read_length-append (p0 ∷ rest) more (omega arith) (rw e at h))
  | inr e ↦ rw e
]

-- The three answers of `parse`, with what is known of a frame.
pub data Outcome (p : List ℕ) : Type 0 where
  is_partial : parse p ≡ partial → Outcome p
  is_malformed : (e : Exception) → parse p ≡ malformed e → Outcome p
  is_found :
      (t used : ℕ) (payload : List ℕ)
      → parse p ≡ found t payload used
      → Lies p payload used
      → Outcome p

pub outcome : (p : List ℕ) → Outcome p
outcome p = go (parse p) refl
  where
    go : (r : Parsed) → parse p ≡ r → Outcome p
    go partial d = is_partial d
    go (malformed e) d = is_malformed e d
    go (found t payload used) d = is_found t used payload d (parse-Lies p t payload used d)
