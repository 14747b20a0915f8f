-- ===== src/Wire/Fields.antt =====
-- Fields of an unknown message: what the writer puts down, `skip_field` passes over.
use cpp_esphome_api.Base.{ℕ, ◌≡◌, refl, true, some, List, [], ◌++◌, length}
use cpp_esphome_api.Bytes.{IsU32, IsU64}
use cpp_esphome_api.Wire.{
  write_varint, write_tag, read_tag, reader, WireType, varint, fixed64, length_delimited, fixed32,
  write_fixed32, write_fixed64, write_length_delimited, skip_field, is_done,
}
use cpp_esphome_api.Wire.RoundTrip.{
  read_varint-write_varint, read_fixed32-write_fixed32, read_fixed64-write_fixed64,
  read_length_delimited-write_length_delimited, read_tag-write_tag,
}

-- A field's value, by the method of the writer that it takes.
pub data Field : Type 0 where
  varint_field fixed32_field fixed64_field : ℕ → Field
  bytes_field : List ℕ → Field

abbrev pub type_of : Field → WireType
type_of (varint_field v) = varint
type_of (fixed32_field v) = fixed32
type_of (fixed64_field v) = fixed64
type_of (bytes_field bs) = length_delimited

unfoldable pub write_value : Field → List ℕ
write_value (varint_field v) = write_varint [] v
write_value (fixed32_field v) = write_fixed32 [] v
write_value (fixed64_field v) = write_fixed64 [] v
write_value (bytes_field bs) = write_length_delimited [] bs

abbrev pub IsField : Field → Type 0
IsField (varint_field v) = IsU64 v
IsField (fixed32_field v) = IsU32 v
IsField (fixed64_field v) = IsU64 v
IsField (bytes_field bs) = IsU64 (length bs)

-- A reader that does not know a field gets past it: for a 32-bit field number and a value that fits
-- its type, read_tag gives back what the writer's tag put down, and behind it skip_field leaves
-- exactly what follows the value.
pub skip_field-write_value :
    (field_number : ℕ) (f : Field) (rest : List ℕ)
    → IsU32 field_number
    → IsField f
    → (read_tag (reader (write_tag [] field_number (type_of f) ++ (write_value f ++ rest)))
        ≡ (reader (write_value f ++ rest), some (field_number, type_of f)))
      × (skip_field (reader (write_value f ++ rest)) (type_of f) ≡ (reader rest, true))
unfolding skip_field write_value is_done
skip_field-write_value field_number (varint_field v) rest fits h =
    (read_tag-write_tag field_number varint _ fits tt, rw (read_varint-write_varint v rest h) refl)
skip_field-write_value field_number (fixed32_field v) rest fits h = (
  read_tag-write_tag field_number fixed32 _ fits tt,
  rw (read_fixed32-write_fixed32 v rest h) refl,
)
skip_field-write_value field_number (fixed64_field v) rest fits h = (
  read_tag-write_tag field_number fixed64 _ fits tt,
  rw (read_fixed64-write_fixed64 v rest h) refl,
)
skip_field-write_value field_number (bytes_field bs) rest fits h = (
  read_tag-write_tag field_number length_delimited _ fits tt,
  rw (read_length_delimited-write_length_delimited bs rest h).0 refl,
)
