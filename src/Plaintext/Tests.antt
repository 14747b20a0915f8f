-- ===== src/Plaintext/Tests.antt =====
-- Runs of the plaintext framing, and its theorems at concrete inputs.
use cpp_esphome_api.Base.{ℕ, ◌≤◌, ◌≡◌, refl, List, [], ◌∷◌, arith, length, take}
use mathlib.Core.List.{flatten}
use cpp_esphome_api.Bytes.{append_varint, decode_varint}
use cpp_esphome_api.Frame.{ok, throws}
use cpp_esphome_api.Errors.{encryption_mismatch_error, protocol_error, text, number}
use cpp_esphome_api.Plaintext.{new, feed, next, encode}
use cpp_esphome_api.Plaintext.Stages.{IsFrame}
use cpp_esphome_api.Plaintext.Stream.{Consumes, next-Consumes, pending, waiting, receive}
use cpp_esphome_api.Plaintext.Stream.Chunks.{receive-flatten, receive-encode_all, encode_all}

encode_shape : encode 42 (0xde ∷ 0xad ∷ []) [] ≡ 0 ∷ 2 ∷ 42 ∷ 0xde ∷ 0xad ∷ []
unfolding encode append_varint
encode_shape = refl

two_frames : List ℕ
two_frames = 0 ∷ 1 ∷ 7 ∷ 9 ∷ 0 ∷ 0 ∷ 8 ∷ []

next_first : (next (feed new two_frames)).1 ≡ ok 7 (9 ∷ [])
unfolding next feed new two_frames decode_varint
next_first = refl

next_noise :
    (next (feed new (1 ∷ 0 ∷ []))).1
    ≡ throws (
        encryption_mismatch_error
          (text "device requires encryption; provide a Noise PSK with --key / -k" ∷ []))
unfolding next feed new
next_noise = refl

-- A byte 16 is printed as `0x16`.
next_bad :
    (next (feed new (16 ∷ []))).1
    ≡ throws (
        protocol_error (
          text "plaintext frame: bad indicator byte (got 0x"
          ∷ number 16
          ∷ text ", expected 0x00)"
          ∷ []))
unfolding next feed new
next_bad = refl

abbrev small_frame : IsFrame 7 (9 ∷ [])
small_frame = record { type_fits = omega arith; payload_fits = omega arith }

abbrev chunks : List (List ℕ)
chunks = (0 ∷ 1 ∷ []) ∷ (7 ∷ 9 ∷ 0 ∷ []) ∷ []

receive-encode_all_example :
    ((receive new chunks).frames ≡ (7, 9 ∷ []) ∷ [])
    × ((receive new chunks).ending ≡ waiting)
    × (pending (receive new chunks).helper ≡ take 1 (encode 7 (9 ∷ []) []))
unfolding encode encode_all append_varint flatten
receive-encode_all_example =
    receive-encode_all ((7, 9 ∷ []) ∷ []) chunks 7 1 (9 ∷ []) (small_frame, tt) small_frame
      (omega arith) refl

receive-flatten_example :
    ((receive new chunks).frames ≡ (receive new (flatten chunks ∷ [])).frames)
    × ((receive new chunks).ending ≡ (receive new (flatten chunks ∷ [])).ending)
receive-flatten_example = receive-flatten chunks

next-Consumes_example :
    Consumes (pending (feed new two_frames)) (next (feed new two_frames))
    × ((next (feed new two_frames)).0.consumed ≤ length (next (feed new two_frames)).0.buffer)
next-Consumes_example = next-Consumes (feed new two_frames)
