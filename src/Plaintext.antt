-- ===== src/Plaintext.antt =====
-- include/esphome/api/frame/plaintext_frame_helper.hpp and src/frame/plaintext_frame_helper.cpp: the
-- unencrypted framing `00, length, type, payload`.
pub mod Bounds
pub mod Stages
pub mod RoundTrip
pub mod Stream
pub mod Helper
pub mod Tests
use cpp_esphome_api.Base.{
  ℕ, ◌+◌, ◌-◌, ◌%◌, ◌^◌, List, [], ◌∷◌, ◌++◌, ltb, leb, ◌==◌, if◌then◌else◌, length, take, drop,
}
use cpp_esphome_api.Errors.{Exception, text, number, protocol_error, encryption_mismatch_error}
use cpp_esphome_api.Bytes.{append_varint, decode_varint}
use cpp_esphome_api.Bytes
use cpp_esphome_api.Frame.{FrameStatus, ok, need_more, throws, max_frame_payload}

abbrev pub indicator : ℕ
indicator = 0x00

-- Length and type varints are capped at four bytes.
abbrev pub varint_budget : ℕ
varint_budget = 4

pub record PlaintextFrameHelper : Type 0 where
  pub buffer : List ℕ
  pub consumed : ℕ

unfoldable pub new : PlaintextFrameHelper
new = record { buffer = []; consumed = 0 }

-- The cast of the payload's size to `std::uint32_t` is the remainder by 2 ^ 32.
unfoldable pub encode : ℕ → List ℕ → List ℕ → List ℕ
encode msg_type payload out =
    append_varint (append_varint (out ++ (indicator ∷ [])) (length payload % 2 ^ 32)) msg_type
    ++ payload

unfoldable pub feed : PlaintextFrameHelper → List ℕ → PlaintextFrameHelper
feed h data_ = record h { buffer = h.buffer ++ data_ }

-- `erase` of the consumed bytes, or `clear` if they are all there is.
pub compact : PlaintextFrameHelper → PlaintextFrameHelper
compact h =
    if h.consumed == 0
    then h
    else if leb (length h.buffer) h.consumed
    then record { buffer = []; consumed = 0 }
    else record { buffer = drop h.consumed h.buffer; consumed = 0 }

-- What `next` finds at the front of the buffer: `found` carries the new value of `consumed_` too.
pub data Parsed : Type 0 where
  found : ℕ → List ℕ → ℕ → Parsed
  partial : Parsed
  malformed : Exception → Parsed

-- `cursor` is never past the end, so `n - cursor` does not wrap.
pub take_payload : List ℕ → ℕ → ℕ → ℕ → Parsed
take_payload p cursor payload_len msg_type =
    if ltb max_frame_payload payload_len
    then malformed (protocol_error (text "plaintext frame: payload length exceeds maximum" ∷ []))
    else if ltb (length p - cursor) payload_len
    then partial
    else found msg_type (take payload_len (drop cursor p)) (cursor + payload_len)

pub read_type : List ℕ → ℕ → ℕ → Parsed
unfolding take_payload
read_type p cursor payload_len = elim (decode_varint (drop cursor p) varint_budget) [
  | Bytes.VarintStatus.incomplete ↦ partial
  | Bytes.VarintStatus.overflow ↦
      malformed (protocol_error (text "plaintext frame: message type varint too long" ∷ []))
  | Bytes.VarintStatus.ok msg_type used ↦ take_payload p (cursor + used) payload_len msg_type
]

pub read_length : List ℕ → ℕ → Parsed
unfolding read_type
read_length p cursor = elim (decode_varint (drop cursor p) varint_budget) [
  | Bytes.VarintStatus.incomplete ↦ partial
  | Bytes.VarintStatus.overflow ↦
      malformed (protocol_error (text "plaintext frame: payload length varint too long" ∷ []))
  | Bytes.VarintStatus.ok payload_len used ↦ read_type p (cursor + used) payload_len
]

pub bad_indicator : ℕ → Exception
bad_indicator p0 =
    if p0 == 0x01
    then encryption_mismatch_error
        (text "device requires encryption; provide a Noise PSK with --key / -k" ∷ [])
    else protocol_error (
        text "plaintext frame: bad indicator byte (got 0x"
        ∷ number p0
        ∷ text ", expected 0x00)"
        ∷ [])

pub parse : List ℕ → Parsed
unfolding read_length bad_indicator
parse [] = partial
parse (p0 ∷ rest) =
    if p0 == indicator then read_length (p0 ∷ rest) 1 else malformed (bad_indicator p0)

pub settle : PlaintextFrameHelper → Parsed → PlaintextFrameHelper × FrameStatus
settle h (found msg_type payload used) = (record h { consumed = used }, ok msg_type payload)
settle h partial = (h, need_more)
settle h (malformed e) = (h, throws e)

unfoldable pub next : PlaintextFrameHelper → PlaintextFrameHelper × FrameStatus
unfolding compact parse settle
next h = let c = compact h in settle c (parse c.buffer)
