-- ===== src/Wire/Tests.antt =====
-- Runs of the wire format, and its theorems at concrete inputs.
use cpp_esphome_api.Base.{
  ℕ, suc, ◌+◌, ◌^◌, ◌≤◌, ◌<◌, ◌≡◌, refl, true, none, some, List, [], ◌∷◌, ◌++◌, arith, length,
  replicate,
}
use cpp_esphome_api.Wire.{
  read_varint_loop, read_varint, write_varint, write_tag, read_tag, reader, length_delimited,
  fixed32, write_length_delimited, read_length_delimited, sub_reader, skip_field, varint_size,
  tag_size,
}
use cpp_esphome_api.Wire.RoundTrip.{
  read_varint-write_varint, read_length_delimited-write_length_delimited,
}
use cpp_esphome_api.Wire.Fields.{write_value, bytes_field, skip_field-write_value}
use cpp_esphome_api.Wire.Range.{Reads, read_varint-Reads, Skips, skip_field-Skips}
use cpp_esphome_api.Wire.Sizes.{length-write_tag}
use cpp_esphome_api.Wire.ZigZag.{
  negsuc, zigzag_encode, zigzag_decode, zigzag_encode32, zigzag_decode-zigzag_encode,
}

minus_one : zigzag_encode32 (negsuc 0) ≡ 1
unfolding zigzag_encode
minus_one = refl

varint_300 : write_varint [] 300 ≡ 0xac ∷ 0x02 ∷ []
unfolding write_varint
varint_300 = refl

-- Eleven groups are one too many.
too_long : (read_varint (reader (replicate 11 0x80))).1 ≡ none
unfolding read_varint read_varint_loop
too_long = refl

read_varint-write_varint_example :
    read_varint (reader (write_varint [] 300 ++ (7 ∷ []))) ≡ (reader (7 ∷ []), some 300)
read_varint-write_varint_example = read_varint-write_varint 300 (7 ∷ []) (omega arith)

skip_field-write_value_example :
    (read_tag (
        reader (
          write_tag [] 20 length_delimited ++ (write_value (bytes_field (1 ∷ 2 ∷ [])) ++ (9 ∷ []))))
      ≡ (reader (write_value (bytes_field (1 ∷ 2 ∷ [])) ++ (9 ∷ [])), some (20, length_delimited)))
    × (skip_field (reader (write_value (bytes_field (1 ∷ 2 ∷ [])) ++ (9 ∷ []))) length_delimited
        ≡ (reader (9 ∷ []), true))
skip_field-write_value_example =
    skip_field-write_value 20 (bytes_field (1 ∷ 2 ∷ [])) (9 ∷ []) (omega arith) (omega arith)

read_length_delimited-write_length_delimited_example :
    (read_length_delimited (reader (write_length_delimited [] (5 ∷ []) ++ (7 ∷ [])))
      ≡ (reader (7 ∷ []), some (5 ∷ [])))
    × (sub_reader (reader (write_length_delimited [] (5 ∷ []) ++ (7 ∷ [])))
        ≡ (reader (7 ∷ []), some (reader (5 ∷ []))))
read_length_delimited-write_length_delimited_example =
    read_length_delimited-write_length_delimited (5 ∷ []) (7 ∷ []) (omega arith)

skip_field-Skips_example :
    (n : ℕ) × Skips n
      (reader (3 ∷ 1 ∷ 2 ∷ []))
      (skip_field (reader (3 ∷ 1 ∷ 2 ∷ [])) length_delimited)
skip_field-Skips_example = skip_field-Skips (reader (3 ∷ 1 ∷ 2 ∷ [])) length_delimited

read_varint-Reads_example :
    (n : ℕ) × (n ≤ 10) × Reads n (reader (0x80 ∷ [])) (read_varint (reader (0x80 ∷ [])))
read_varint-Reads_example = read_varint-Reads (reader (0x80 ∷ []))

abbrev one_byte : List ℕ
one_byte = 1 ∷ []

length-write_tag_example :
    (length (write_varint one_byte 300) ≡ length one_byte + varint_size 300)
    × (length (write_tag one_byte 20 fixed32) ≡ length one_byte + tag_size 20)
length-write_tag_example = length-write_tag one_byte 300 20 fixed32 (omega arith) (omega arith)

zigzag_decode-zigzag_encode_example :
    (zigzag_decode 31 (zigzag_encode 31 (negsuc 4)) ≡ negsuc 4)
    × (zigzag_encode 31 (negsuc 4) < 2 ^ suc 31)
zigzag_decode-zigzag_encode_example = zigzag_decode-zigzag_encode 31 (negsuc 4) (omega arith)
