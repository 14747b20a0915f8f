-- ===== src/NoiseFrame/Tests.antt =====
-- The encrypted codec at concrete inputs, over the stand-ins for the cryptography.
use cpp_esphome_api.Base.{ℕ, ◌≡◌, refl, some, List, [], ◌∷◌, ◌++◌, arith}
use cpp_esphome_api.Frame.{ready, again}
use cpp_esphome_api.Noise.Tests.{toy, secret, secret_found}
use cpp_esphome_api.Noise.States.{initialize_key}
use cpp_esphome_api.Noise.Handshake.{
  initialize, responder, NoiseHandshake, write_message, read_message, split,
}
use cpp_esphome_api.NoiseFrame.{
  NoiseFrameHelper, transport, noise_prologue, feed, round, first_flight, connect_bytes, encode,
  of_key, until_nul,
}
use cpp_esphome_api.NoiseFrame.Frames.{pending}
use cpp_esphome_api.NoiseFrame.Session.{InStep, encode_all, deliver, deliver-encode_all}
use cpp_esphome_api.NoiseFrame.Opening.{framed, connect-round}

-- Two ends that have finished a handshake.
abbrev keyed : List ℕ → NoiseFrameHelper
keyed waiting = record (of_key toy secret []) {
  encrypt = initialize_key secret;
  decrypt = initialize_key secret;
  state = transport;
  buffer = waiting;
}

abbrev two_messages : List (ℕ × List ℕ)
two_messages = (7, []) ∷ (300, 1 ∷ 2 ∷ []) ∷ []

abbrev reader : NoiseFrameHelper
reader = keyed ((encode_all toy two_messages (keyed [])).1 ++ (1 ∷ []))

deliver-encode_all_example :
    ((deliver toy 2 reader).1 ≡ two_messages)
    × (pending (deliver toy 2 reader).0 ≡ 1 ∷ [])
    × InStep (encode_all toy two_messages (keyed [])).0 (deliver toy 2 reader).0
unfolding encode of_key
deliver-encode_all_example =
    deliver-encode_all toy two_messages (1 ∷ []) (keyed []) reader
      (
        record { type_fits = omega arith; payload_fits = omega arith },
        (record { type_fits = omega arith; payload_fits = omega arith }, _),
      )
      (record { state = refl; cipher = refl }) refl

connect-round_example :
    (m1 : List ℕ) × (m2 : List ℕ) × (d1 : NoiseHandshake) × (d2 : NoiseHandshake)
    × (h : NoiseFrameHelper) × (h1 : NoiseFrameHelper) × (h2 : NoiseFrameHelper) × (connect_bytes
          toy
          (1 ∷ [])
          (of_key toy secret (108 ∷ []))
        ≡ (h, first_flight m1))
    × (read_message toy m1 (initialize toy responder secret noise_prologue) ≡ (d1, some []))
    × (write_message toy (2 ∷ []) [] d1 ≡ (d2, some m2))
    × (round toy (feed h (framed (0x01 ∷ 108 ∷ 0 ∷ 70 ∷ []) ++ framed (0x00 ∷ m2))) ≡ (h1, again))
    × (round toy h1 ≡ (h2, ready))
    × (pending h2 ≡ [])
    × (h2.state ≡ transport)
    × (h2.encrypt ≡ (split toy d2).1)
    × (h2.decrypt ≡ (split toy d2).0)
unfolding until_nul
connect-round_example =
    connect-round toy secret (108 ∷ []) (1 ∷ []) (2 ∷ []) (108 ∷ 0 ∷ 70 ∷ []) [] secret secret_found
      refl (omega arith) (omega arith)
