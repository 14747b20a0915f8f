-- ===== src/Wire/Range.antt =====
-- The reader on any input: it stays inside its range, and its flag tells a failure.
use cpp_esphome_api.Base.{
  ℕ, suc, ◌+◌, ◌*◌, ◌≤◌, bit_and, ◌≡◌, refl, ap, ◌∙◌, inl, inr, Bool, false, Option, none, some,
  List, [], ◌∷◌, arith, ltb, leb, ◌==◌, if◌then◌else◌, ltb-false→le, Bool-cases, length, drop,
  length-drop, drop-drop,
}
use cpp_esphome_api.Bytes.{or_group}
use cpp_esphome_api.Wire.{
  ProtoReader, read_varint_loop, read_varint, WireType, varint, fixed64, length_delimited, fixed32,
  other, read_fixed, read_fixed32, read_fixed64, region, read_length_delimited, skip_field, is_done,
}

-- `used` bytes of the range are gone, `ptr_` is no further behind `end_` than before; a value comes with the
-- flag as it was, a failure clears it.
pub record Reads {A : Type 0} (used : ℕ) (r : ProtoReader) (answer : ProtoReader × Option A)
    : Type 0 where
  pub within : used ≤ length r.rest
  pub left : answer.0.rest ≡ drop used r.rest
  pub pointer : answer.0.past ≡ r.past
  pub flag : answer.0.ok ≡ (elim answer.1 [ some a ↦ r.ok | none ↦ false ])

-- A failure where the range stands.
fails : {A : Type 0} (r : ProtoReader) → Reads {A = A} 0 r (record r { ok = false }, none)
fails r = record { within = omega arith; left = refl; pointer = refl; flag = refl }

-- `k` groups have been read: at most ten in all.
read_loop-Reads :
    (bs : List ℕ) (result shift k : ℕ) (r : ProtoReader)
    → shift ≡ 7 * k
    → k ≤ 10
    → (n : ℕ) × (n + k ≤ 10) × Reads n (record r { rest = bs }) (read_varint_loop bs result shift r)
unfolding read_varint_loop
read_loop-Reads [] result shift k r e le = (0, omega arith, fails _)
read_loop-Reads (b ∷ bs) result shift k r e le = elim (Bool-cases (leb 64 shift)) [
  | inl over ↦ rw over (0, omega arith, fails _)
  | inr more ↦
      let below : k ≤ 9 = ground arith in
      rw more (elim (Bool-cases (bit_and b 0x80 == 0)) [
        | inl stop ↦ rw stop (
          1,
          omega arith,
          record { within = omega arith; left = refl; pointer = refl; flag = refl },
        )
        | inr go ↦
            let (n, few, h) =
              read_loop-Reads bs (or_group result b shift) (shift + 7) (suc k) r (omega arith)
                (omega arith) in
            let w = h.within in
            rw go (
              suc n,
              omega arith,
              record { within = omega arith; left = h.left; pointer = h.pointer; flag = h.flag },
            )
      ])
]

-- On any input, reading a varint stays inside the range, takes at most ten bytes and leaves the rest;
-- its flag afterwards is the one before if there is a value and false if there is none.
pub read_varint-Reads : (r : ProtoReader) → (n : ℕ) × (n ≤ 10) × Reads n r (read_varint r)
unfolding read_varint
read_varint-Reads r =
    let (n, few, h) = read_loop-Reads r.rest 0 0 0 r (omega arith) (omega arith) in
    (n, omega arith, h)

read_fixed-Reads : (n : ℕ) (r : ProtoReader) → (m : ℕ) × Reads m r (read_fixed n r)
unfolding read_fixed
read_fixed-Reads n r = elim (Bool-cases (ltb (length r.rest) n)) [
  | inl e ↦ rw e (0, fails r)
  | inr e ↦
      let room : n ≤ length r.rest = ltb-false→le _ _ e in
      rw e (n, record { within = room; left = refl; pointer = omega arith; flag = refl })
]

read_fixed32-Reads : (r : ProtoReader) → (m : ℕ) × Reads m r (read_fixed32 r)
unfolding read_fixed32
read_fixed32-Reads r = read_fixed-Reads 4 r

read_fixed64-Reads : (r : ProtoReader) → (m : ℕ) × Reads m r (read_fixed64 r)
unfolding read_fixed64
read_fixed64-Reads r = read_fixed-Reads 8 r

region-Reads :
    (n : ℕ) (r : ProtoReader) (answer : ProtoReader × Option ℕ)
    → Reads n r answer
    → (m : ℕ) × Reads m r (region answer)
unfolding region
region-Reads n r (s, none) h =
    (n, record { within = h.within; left = h.left; pointer = h.pointer; flag = h.flag })
region-Reads n r (s, some len) h = elim (Bool-cases (ltb (length s.rest) len)) [
  | inl e ↦ rw e (n, record { within = h.within; left = h.left; pointer = h.pointer; flag = refl })
  | inr e ↦
      let room = ltb-false→le _ _ e in
      let whole : length s.rest ≡ length (drop n r.rest) = ap length h.left in
      let start = h.within in
      rw e (
        n + len,
        record {
          within = omega (arith, length-drop n r.rest);
          left = ap (drop len) h.left ∙ drop-drop n len r.rest;
          pointer = omega (arith, h.pointer);
          flag = h.flag;
        },
      )
]

read_length_delimited-Reads : (r : ProtoReader) → (m : ℕ) × Reads m r (read_length_delimited r)
unfolding read_length_delimited
read_length_delimited-Reads r =
    let (n, few, h) = read_varint-Reads r in region-Reads n r (read_varint r) h

-- The flag of a field that was skipped, and its bytes.
pub record Skips (used : ℕ) (r : ProtoReader) (answer : ProtoReader × Bool) : Type 0 where
  pub within : used ≤ length r.rest
  pub left : answer.0.rest ≡ drop used r.rest
  pub pointer : answer.0.past ≡ r.past
  pub flag : answer.0.ok ≡ (if answer.1 then r.ok else false)

done-Skips :
    {A : Type 0} (n : ℕ) (r : ProtoReader) (answer : ProtoReader × Option A)
    → Reads n r answer
    → Skips n r (is_done answer)
unfolding is_done
done-Skips n r (s, some a) h = record {
  within = h.within;
  left = h.left;
  pointer = h.pointer;
  flag = h.flag;
}
done-Skips n r (s, none) h = record {
  within = h.within;
  left = h.left;
  pointer = h.pointer;
  flag = h.flag;
}

-- On any input and for any wire type, skip_field passes over bytes of the range alone: it leaves an end of
-- it, `ptr_` comes no further behind `end_` than it was, and its
-- flag afterwards is the one before if it answers true and false if it answers false.
pub skip_field-Skips : (r : ProtoReader) (wt : WireType) → (n : ℕ) × Skips n r (skip_field r wt)
unfolding skip_field
skip_field-Skips r varint =
    let (n, few, h) = read_varint-Reads r in (n, done-Skips n r (read_varint r) h)
skip_field-Skips r fixed64 =
    let (n, h) = read_fixed64-Reads r in (n, done-Skips n r (read_fixed64 r) h)
skip_field-Skips r fixed32 =
    let (n, h) = read_fixed32-Reads r in (n, done-Skips n r (read_fixed32 r) h)
skip_field-Skips r length_delimited =
    let (n, h) = read_length_delimited-Reads r in (n, done-Skips n r (read_length_delimited r) h)
skip_field-Skips r (other t) =
    (0, record { within = omega arith; left = refl; pointer = refl; flag = refl })
