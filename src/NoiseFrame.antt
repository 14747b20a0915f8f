-- ===== src/NoiseFrame.antt =====
-- include/esphome/api/frame/noise_frame_helper.hpp and src/frame/noise_frame_helper.cpp: the encrypted
-- framing `01, length, ciphertext` and the handshake frames before it.
pub mod Helper
pub mod Frames
pub mod Session
pub mod Opening
pub mod Tests
use cpp_esphome_api.Base.{
  ℕ, ◌+◌, ◌*◌, ◌/◌, ◌^◌, bit_and, bit_or, ◌⊎◌, inl, inr, Bool, true, false, not, ◌&&◌, Option, none,
  some, List, [], ◌∷◌, ◌++◌, ltb, leb, ◌==◌, if◌then◌else◌, length, take, drop,
}
use cpp_esphome_api.Errors.{
  Exception, What, text, raw, api_error, protocol_error, encryption_mismatch_error,
}
use cpp_esphome_api.Frame.{
  FrameStatus, Round, status, ready, again, handshake_failed, max_frame_payload,
}
use cpp_esphome_api.Frame
use cpp_esphome_api.Noise.Primitives.{Detail, key_len}
use cpp_esphome_api.Noise.Base64.{base64_decode}
use cpp_esphome_api.Noise.States.{CipherState, keyless, encrypt_with_ad, decrypt_with_ad}
use cpp_esphome_api.Noise.Handshake.{
  NoiseHandshake, initiator, initialize, write_message, read_message, split,
}

-- "NoiseAPIInit" and two zeros.
abbrev pub noise_prologue : List ℕ
noise_prologue = 78 ∷ 111 ∷ 105 ∷ 115 ∷ 101 ∷ 65 ∷ 80 ∷ 73 ∷ 73 ∷ 110 ∷ 105 ∷ 116 ∷ 0x00 ∷ 0x00 ∷ []

unfoldable pub append_u16 : List ℕ → ℕ → List ℕ
append_u16 out value = out ++ (bit_and (value / 2 ^ 8) 0xff ∷ bit_and value 0xff ∷ [])

pub record NoiseConfig : Type 0 where
  pub psk_base64 : List ℕ
  pub expected_name : List ℕ

-- `transport` is State::Ready, which a round of `next` has the name of.
pub data State : Type 0 where
  expect_server_hello expect_handshake transport failed : State

-- The two callbacks are the rounds `ready` and `handshake_failed`; `plaintext_` only keeps the payload
-- that `next` returns alive.
pub record NoiseFrameHelper : Type 0 where
  pub expected_name : List ℕ
  pub server_name : List ℕ
  pub handshake : NoiseHandshake
  pub encrypt : CipherState
  pub decrypt : CipherState
  pub state : State
  pub buffer : List ℕ
  pub consumed : ℕ

abbrev pub indicator : ℕ
indicator = 0x01

unfoldable pub feed : NoiseFrameHelper → List ℕ → NoiseFrameHelper
feed h data_ = record h { buffer = h.buffer ++ data_ }

unfoldable pub compact : NoiseFrameHelper → NoiseFrameHelper
compact h =
    if h.consumed == 0
    then h
    else if leb (length h.buffer) h.consumed
    then record h { buffer = []; consumed = 0 }
    else record h { buffer = drop h.consumed h.buffer; consumed = 0 }

-- What `next_raw` finds at the front of the buffer.
pub data Raw : Type 0 where
  frame : List ℕ → Raw
  partial : Raw
  malformed : Exception → Raw

-- The two bytes of a length, the first one high.
unfoldable pub read_u16 : ℕ → ℕ → ℕ
read_u16 high low = bit_or (high * 2 ^ 8) low

unfoldable pub parse_raw : List ℕ → Raw
parse_raw (p0 ∷ p1 ∷ p2 ∷ rest) =
    let len = read_u16 p1 p2 in
    if not (p0 == indicator)
    then (if p0 == 0x00
        then malformed (
            encryption_mismatch_error
              (text "device is not using encryption; retry without --key / -k" ∷ []))
        else malformed
            (protocol_error (text "noise frame: bad indicator byte (expected 0x01)" ∷ [])))
    else if ltb max_frame_payload len
    then malformed (protocol_error (text "noise frame: length exceeds maximum" ∷ []))
    else if ltb (length rest) len
    then partial
    else frame (take len rest)
parse_raw _ = partial

unfoldable pub settle : NoiseFrameHelper → Raw → NoiseFrameHelper × Raw
settle h (frame payload) = (record h { consumed = 3 + length payload }, frame payload)
settle h partial = (h, partial)
settle h (malformed e) = (h, malformed e)

unfoldable pub next_raw : NoiseFrameHelper → NoiseFrameHelper × Raw
next_raw h = let c = compact h in settle c (parse_raw c.buffer)

unfoldable pub report_error : What → NoiseFrameHelper → NoiseFrameHelper × Round
report_error what h = (record h { state = failed }, handshake_failed what)

-- The bytes before the first NUL.
unfoldable pub until_nul : List ℕ → List ℕ
until_nul [] = []
until_nul (b ∷ bs) = let name = until_nul bs in if b == 0x00 then [] else b ∷ name

unfoldable pub same_bytes : List ℕ → List ℕ → Bool
same_bytes [] [] = true
same_bytes (x ∷ xs) (y ∷ ys) = (x == y) && same_bytes xs ys
same_bytes _ _ = false

unfoldable pub is_empty : List ℕ → Bool
is_empty [] = true
is_empty (b ∷ bs) = false

unfoldable pub handle_server_hello : List ℕ → NoiseFrameHelper → NoiseFrameHelper × Round
unfolding same_bytes is_empty
handle_server_hello [] h = report_error (text "empty server hello" ∷ []) h
handle_server_hello (chosen_proto ∷ rest) h =
    let named = record h { server_name = until_nul rest } in
    if not (chosen_proto == 0x01)
    then report_error (text "device selected an unsupported encryption protocol" ∷ []) h
    else if not (is_empty h.expected_name) && not (same_bytes (until_nul rest) h.expected_name)
    then report_error
        (text "connected to '"
          ∷ raw (until_nul rest)
          ∷ text "' but expected '"
          ∷ raw h.expected_name
          ∷ text "'"
          ∷ [])
        named
    else (record named { state = expect_handshake }, again)

abbrev pub invalid_psk : Exception
invalid_psk = api_error (text "invalid Noise PSK: expected base64 of a 32-byte key" ∷ [])

-- The inner frame of a message.
unfoldable pub parse_inner : List ℕ → FrameStatus
parse_inner (p0 ∷ p1 ∷ p2 ∷ p3 ∷ rest) =
    let msg_len = read_u16 p2 p3 in
    if ltb (length rest) msg_len
    then Frame.FrameStatus.throws
        (protocol_error (text "noise frame: inner length exceeds plaintext" ∷ []))
    else Frame.FrameStatus.ok (read_u16 p0 p1) (take msg_len rest)
parse_inner _ =
    Frame.FrameStatus.throws (protocol_error (text "noise frame: inner header too short" ∷ []))

unfoldable pub opened : NoiseFrameHelper → CipherState × Option (List ℕ) → NoiseFrameHelper × Round
opened h (c, none) = (
  record h { decrypt = c },
  status (
      Frame.FrameStatus.throws (
        protocol_error (
          text "noise frame decrypt failed: "
          ∷ text "AEAD authentication failed (bad key or corrupt frame)"
          ∷ []))),
)
opened h (c, some pt) = (record h { decrypt = c }, status (parse_inner pt))

unfoldable pub first_flight : List ℕ → List ℕ
first_flight handshake_msg =
    append_u16 (indicator ∷ 0x00 ∷ 0x00 ∷ indicator ∷ []) (length handshake_msg + 1)
    ++ (0x00 ∷ handshake_msg)

-- An initiator's first message is always written; `none` is there for the responder's.
unfoldable pub sent :
    NoiseFrameHelper → NoiseHandshake × Option (List ℕ) → NoiseFrameHelper × List ℕ
sent h (n, none) = (record h { handshake = n }, [])
sent h (n, some msg) = (record h { handshake = n }, first_flight msg)

module _ (P : Detail) where
  -- A message that was read completes the handshake; the payload is not looked at.
  unfoldable pub handshake_read :
      NoiseFrameHelper → NoiseHandshake × Option (List ℕ) → NoiseFrameHelper × Round
  handshake_read h (n, none) =
      report_error (text "Noise handshake failed (wrong PSK?)" ∷ []) (record h { handshake = n })
  handshake_read h (n, some payload) =
      let (send, recv) = split P n in
      (record h { handshake = n; encrypt = send; decrypt = recv; state = transport }, ready)

  unfoldable pub handle_server_handshake : List ℕ → NoiseFrameHelper → NoiseFrameHelper × Round
  handle_server_handshake [] h = report_error (text "empty handshake message" ∷ []) h
  handle_server_handshake (marker ∷ rest) h =
      if not (marker == 0x00)
      then report_error (text "handshake rejected by device: " ∷ raw rest ∷ []) h
      else handshake_read h (read_message P rest h.handshake)

  -- The `switch` of `next` on a whole frame.
  unfoldable pub handle_raw : State → List ℕ → NoiseFrameHelper → NoiseFrameHelper × Round
  handle_raw expect_server_hello payload h = handle_server_hello payload h
  handle_raw expect_handshake payload h = handle_server_handshake payload h
  handle_raw failed payload h = (h, status Frame.FrameStatus.need_more)
  handle_raw transport payload h = opened h (decrypt_with_ad P [] payload h.decrypt)

  unfoldable pub dispatch : NoiseFrameHelper × Raw → NoiseFrameHelper × Round
  dispatch (h, partial) = (h, status Frame.FrameStatus.need_more)
  dispatch (h, malformed e) = (h, status (Frame.FrameStatus.throws e))
  dispatch (h, frame payload) = handle_raw h.state payload h

  -- One pass of the loop of `next`.
  unfoldable pub round : NoiseFrameHelper → NoiseFrameHelper × Round
  round h = dispatch (next_raw h)

  unfoldable pub encode : ℕ → List ℕ → NoiseFrameHelper → NoiseFrameHelper × List ℕ
  encode msg_type payload h =
      let inner = append_u16 (append_u16 [] msg_type) (length payload) ++ payload in
      let (c, ct) = encrypt_with_ad P [] inner h.encrypt in
      (record h { encrypt = c }, append_u16 (indicator ∷ []) (length ct) ++ ct)

  -- `fresh` is the ephemeral private key that the system's random source gives.
  unfoldable pub connect_bytes : List ℕ → NoiseFrameHelper → NoiseFrameHelper × List ℕ
  connect_bytes fresh h = sent h (write_message P fresh [] h.handshake)

  unfoldable pub of_key : List ℕ → List ℕ → NoiseFrameHelper
  of_key psk expected_name = record {
    expected_name = expected_name;
    server_name = [];
    handshake = initialize P initiator psk noise_prologue;
    encrypt = keyless;
    decrypt = keyless;
    state = expect_server_hello;
    buffer = [];
    consumed = 0;
  }

  -- The constructor, or what it throws.
  unfoldable pub create : NoiseConfig → Exception ⊎ NoiseFrameHelper
  create config = elim (base64_decode config.psk_base64) [
    | none ↦ inl invalid_psk
    | some psk ↦
        if length psk == key_len then inr (of_key psk config.expected_name) else inl invalid_psk
  ]
