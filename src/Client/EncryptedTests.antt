-- ===== src/Client/EncryptedTests.antt =====
-- The client over the encrypted codec, at concrete inputs.
use cpp_esphome_api.Base.{
  drop, append-nil, take-append-drop, ap, ◌∙◌, ℕ, ◌≡◌, refl, true, false, List, [], ◌∷◌, ◌++◌,
  arith, take,
}
use mathlib.Core.List.{flatten, map}
use cpp_esphome_api.Connection.State.{
  connected, ConnectionOptions, ProtoMessage, hello_request, hello_response, authentication_request,
  authentication_response, disconnect_request, disconnect_response, ping_request, ping_response,
  other, Messages, Connection, no_handlers,
}
use cpp_esphome_api.Connection.State
use cpp_esphome_api.Connection.Steps.{Input, bytes_read, timer_fired, disconnect_called}
use cpp_esphome_api.Connection.Steps
use cpp_esphome_api.Connection.Delivery.Log.{heard}
use cpp_esphome_api.Connection.Delivery.Reading.{frame_of}
use cpp_esphome_api.DeviceInfo.{no_device_info}
use cpp_esphome_api.Client.{Client, run}
use cpp_esphome_api.Client.Session.{HasTaken}
use cpp_esphome_api.Client.Delivery.{run-sent_encrypted}
use cpp_esphome_api.Noise.Tests.{toy, secret}
use cpp_esphome_api.Noise.States.{initialize_key}
use cpp_esphome_api.NoiseFrame.{NoiseFrameHelper, transport, of_key}
use cpp_esphome_api.NoiseFrame.Helper.{noise_codec}
use cpp_esphome_api.NoiseFrame.Frames
use cpp_esphome_api.NoiseFrame.Session
use cpp_esphome_api.Connection.Delivery.Encrypted.{run-heard_encrypted}
use cpp_esphome_api.Connection.Delivery.Encrypted
use cpp_esphome_api.Client.Samples.{
  options, id_of_message, content, known_messages, casts, sent, welcomed,
}
use cpp_esphome_api.Client.Tests.{sent-IsRead}

-- The two ends of an encrypted session, behind the handshake.
abbrev keyed : NoiseFrameHelper
keyed = record (of_key toy secret []) {
  encrypt = initialize_key secret;
  decrypt = initialize_key secret;
  state = transport;
}

abbrev welcomed_encrypted : Client NoiseFrameHelper
welcomed_encrypted = record {
  connection = record (State.new keyed) {
    state = connected;
    handlers = record no_handlers { any_handler = true };
  };
  store = welcomed.store;
  device_info = no_device_info;
  device_info_loaded = false;
  any_handlers = 40 ∷ [];
  created = λ _. false;
  calls = [];
  state_calls = [];
}

sealed_bytes : List ℕ
sealed_bytes = (Session.encode_all toy (map (frame_of known_messages) sent) keyed).1

abbrev cut_anywhere : List (List ℕ)
cut_anywhere = take 2 sealed_bytes ∷ drop 2 sealed_bytes ∷ []

cut_whole :
    flatten cut_anywhere ≡ (Session.encode_all toy (map (frame_of known_messages) sent) keyed).1
unfolding flatten sealed_bytes
cut_whole =
    ap (λ x. take 2 sealed_bytes ++ x) (append-nil (drop 2 sealed_bytes))
    ∙ take-append-drop 2 sealed_bytes

encrypted-IsOpen : Encrypted.Partial.IsOpen keyed welcomed_encrypted.connection
unfolding State.new of_key
encrypted-IsOpen = record {
  state = refl;
  any = refl;
  sound = omega arith;
  steps = record { state = refl; cipher = refl };
}

sent-AllMessages : Session.AllMessages toy (map (frame_of known_messages) sent)
unfolding frame_of id_of_message content
sent-AllMessages = (
  record { type_fits = omega arith; payload_fits = omega arith },
  (
    record { type_fits = omega arith; payload_fits = omega arith },
    (record { type_fits = omega arith; payload_fits = omega arith }, tt),
  ),
)

nothing_waits_encrypted : Frames.pending welcomed_encrypted.connection.frames ≡ []
unfolding State.new of_key
nothing_waits_encrypted = refl

run-heard_encrypted_example :
    (heard
        (Steps.run
          (noise_codec toy (1 ∷ []))
          known_messages
          options
          (map bytes_read cut_anywhere)
          welcomed_encrypted.connection).log
      ≡ heard welcomed_encrypted.connection.log ++ sent)
    × Encrypted.Partial.IsOpen
        (Session.encode_all toy (map (frame_of known_messages) sent) keyed).0
        (Steps.run
          (noise_codec toy (1 ∷ []))
          known_messages
          options
          (map bytes_read cut_anywhere)
          welcomed_encrypted.connection)
    × (Frames.pending
          (Steps.run
            (noise_codec toy (1 ∷ []))
            known_messages
            options
            (map bytes_read cut_anywhere)
            welcomed_encrypted.connection).frames
        ≡ [])
run-heard_encrypted_example =
    run-heard_encrypted toy (1 ∷ []) known_messages options sent cut_anywhere keyed
      welcomed_encrypted.connection encrypted-IsOpen nothing_waits_encrypted sent-IsRead
      sent-AllMessages cut_whole

run-sent_encrypted_example : HasTaken known_messages casts 7 sent welcomed_encrypted (
    run
      (noise_codec toy (1 ∷ []))
      known_messages
      casts
      options
      (map bytes_read cut_anywhere)
      welcomed_encrypted)
run-sent_encrypted_example =
    run-sent_encrypted toy (1 ∷ []) known_messages casts options sent cut_anywhere keyed 7
      welcomed_encrypted encrypted-IsOpen nothing_waits_encrypted sent-IsRead sent-AllMessages
      cut_whole
