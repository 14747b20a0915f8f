-- ===== src/Wire.antt =====
-- include/esphome/api/proto/wire.hpp: the proto3 wire format. A reader is what is left of its range,
-- how far its pointer is behind the end, and its flag; a method that returns false answers `none`.
pub mod ZigZag
pub mod Writer
pub mod RoundTrip
pub mod Fields
pub mod Range
pub mod Sizes
pub mod Tests
use mathlib.Core.Logic.{dite}
use mathlib.Core.WellFounded.{Acc}
use native.Mathlib.Decide.{dec_le}
use cpp_esphome_api.Base.{
  ◌<◌, ℕ, zero, suc, ◌+◌, ◌-◌, ◌*◌, ◌/◌, ◌%◌, ◌^◌, bit_and, bit_or, Bool, true, false, Option, none,
  some, List, [], ◌∷◌, ◌++◌, ltb, leb, ◌==◌, if◌then◌else◌, lt_wf, length, take, drop,
}
use cpp_esphome_api.Bytes.{shift_shrinks, or_group}

pub data WireType : Type 0 where
  varint fixed64 length_delimited fixed32 : WireType
  other : ℕ → WireType

abbrev pub number_of : WireType → ℕ
number_of varint = 0
number_of fixed64 = 1
number_of length_delimited = 2
number_of fixed32 = 5
number_of (other n) = n

-- `static_cast<WireType>` of three bits.
abbrev pub wire_type : ℕ → WireType
wire_type n =
    if n == 0
    then varint
    else if n == 1
    then fixed64
    else if n == 2
    then length_delimited
    else if n == 5
    then fixed32
    else other n

varint_size_loop : (v : ℕ) → Acc ◌<◌ v → ℕ → ℕ
varint_size_loop v (Acc.intro _ smaller) n =
    dite (dec_le 0x80 v) (λ h. varint_size_loop (v / 2 ^ 7) (smaller _ (shift_shrinks v h)) (n + 1))
      (λ _. n)

unfoldable pub varint_size : ℕ → ℕ
unfolding varint_size_loop lt_wf dec_le
varint_size v = varint_size_loop v (lt_wf.apply v) 1

-- `static_cast<std::uint64_t>(field_number) << 3`
unfoldable pub tag_size : ℕ → ℕ
tag_size field_number = varint_size (field_number * 2 ^ 3 % 2 ^ 64)

-- The writer's buffer is the first argument.
abbrev pub raw_byte : List ℕ → ℕ → List ℕ
raw_byte out b = out ++ (b ∷ [])

write_varint_loop : List ℕ → (v : ℕ) → Acc ◌<◌ v → List ℕ
write_varint_loop out v (Acc.intro _ smaller) =
    dite (dec_le 0x80 v)
      (λ h.
        write_varint_loop (raw_byte out (bit_or (v % 256) 0x80)) (v / 2 ^ 7)
          (smaller _ (shift_shrinks v h)))
      (λ _. raw_byte out (v % 256))

unfoldable pub write_varint : List ℕ → ℕ → List ℕ
unfolding write_varint_loop lt_wf dec_le
write_varint out v = write_varint_loop out v (lt_wf.apply v)

unfoldable pub write_tag : List ℕ → ℕ → WireType → List ℕ
write_tag out field_number wt =
    write_varint out (bit_or (field_number * 2 ^ 3 % 2 ^ 64) (number_of wt))

-- The loop `b[i] = v >> (8 * i)` from `i` on, for `n` more bytes.
pub le_bytes : ℕ → ℕ → ℕ → List ℕ
le_bytes zero i v = []
le_bytes (suc n) i v = (v / 2 ^ (8 * i) % 256) ∷ le_bytes n (i + 1) v

unfoldable pub write_fixed32 : List ℕ → ℕ → List ℕ
write_fixed32 out v = out ++ le_bytes 4 0 v

unfoldable pub write_fixed64 : List ℕ → ℕ → List ℕ
write_fixed64 out v = out ++ le_bytes 8 0 v

unfoldable pub write_length_delimited : List ℕ → List ℕ → List ℕ
write_length_delimited out s = write_varint out (length s) ++ s

-- What lies between `ptr_` and `end_`, and how many bytes `ptr_` lies behind `end_`, where it has no
-- business: the constructor starts at 0, and the tests of the methods are written for 0.
pub record ProtoReader : Type 0 where
  pub rest : List ℕ
  pub past : ℕ
  pub ok : Bool

abbrev pub reader : List ℕ → ProtoReader
reader data_ = record { rest = data_; past = 0; ok = true }

-- `ptr_ += n`, unchecked.
abbrev pub advance : ℕ → ProtoReader → ProtoReader
advance n r = record r { rest = drop n r.rest; past = r.past + (n - length r.rest) }

abbrev pub eof : ProtoReader → Bool
eof r = leb (length r.rest) 0

abbrev pub fail : {A : Type 0} → ProtoReader → ProtoReader × Option A
fail r = (record r { ok = false }, none)

-- `shift < 64` is the loop's test; the bytes read are gone whether it succeeds or not.
pub read_varint_loop : List ℕ → ℕ → ℕ → ProtoReader → ProtoReader × Option ℕ
read_varint_loop [] result shift r = fail (record r { rest = [] })
read_varint_loop (b ∷ bs) result shift r =
    let result' = or_group result b shift in
    let more = read_varint_loop bs result' (shift + 7) r in
    if leb 64 shift
    then fail (record r { rest = b ∷ bs })
    else if bit_and b 0x80 == 0
    then (record r { rest = bs }, some result')
    else more

unfoldable pub read_varint : ProtoReader → ProtoReader × Option ℕ
read_varint r = read_varint_loop r.rest 0 0 r

unfoldable pub read_tag : ProtoReader → ProtoReader × Option (ℕ × WireType)
read_tag r =
    let (r', key) = read_varint r in
    if eof r then (r, none) else (
      r',
      elim key [ some k ↦ some (k / 2 ^ 3 % 2 ^ 32, wire_type (bit_and k 0x7)) | none ↦ none ],
    )

-- `v |= ptr[i] << (8 * i)` from `i` on.
pub or_bytes : List ℕ → ℕ → ℕ → ℕ
or_bytes [] i v = v
or_bytes (b ∷ bs) i v = or_bytes bs (i + 1) (bit_or v (b * 2 ^ (8 * i)))

pub read_fixed : ℕ → ProtoReader → ProtoReader × Option ℕ
read_fixed n r =
    if ltb (length r.rest) n then fail r else (advance n r, some (or_bytes (take n r.rest) 0 0))

unfoldable pub read_fixed32 : ProtoReader → ProtoReader × Option ℕ
unfolding read_fixed
read_fixed32 r = read_fixed 4 r

unfoldable pub read_fixed64 : ProtoReader → ProtoReader × Option ℕ
unfolding read_fixed
read_fixed64 r = read_fixed 8 r

-- The region behind a length, as the bytes that `length_delimited` copies, `sub_reader` covers and
-- `skip_field` passes over.
pub region : ProtoReader × Option ℕ → ProtoReader × Option (List ℕ)
region (r, none) = (r, none)
region (r, some len) =
    if ltb (length r.rest) len then fail r else (advance len r, some (take len r.rest))

unfoldable pub read_length_delimited : ProtoReader → ProtoReader × Option (List ℕ)
unfolding region
read_length_delimited r = region (read_varint r)

unfoldable pub sub_reader : ProtoReader → ProtoReader × Option ProtoReader
unfolding region
sub_reader r =
    let (r', bytes) = region (read_varint r) in
    (r', elim bytes [ some bs ↦ some (reader bs) | none ↦ none ])

is_done : {A : Type 0} → ProtoReader × Option A → ProtoReader × Bool
is_done (r, some a) = (r, true)
is_done (r, none) = (r, false)

unfoldable pub skip_field : ProtoReader → WireType → ProtoReader × Bool
unfolding is_done
skip_field r varint = is_done (read_varint r)
skip_field r fixed64 = is_done (read_fixed64 r)
skip_field r fixed32 = is_done (read_fixed32 r)
skip_field r length_delimited = is_done (read_length_delimited r)
skip_field r (other n) = (record r { ok = false }, false)
