-- ===== src/Errors.antt =====
-- include/esphome/api/exception.hpp: the exceptions that the library throws, as values.
use Prim.Native.String.{String}
use cpp_esphome_api.Base.{ℕ, Bool, true, false, List}

-- A message is the list of its pieces: literal text, a number printed by `std::to_string`, and bytes
-- taken from the wire or from the options.
pub data Piece : Type 0 where
  text : String → Piece
  number : ℕ → Piece
  raw : List ℕ → Piece

abbrev pub What : Type 0
What = List Piece

-- One constructor for each class; `what()` is the field.
pub data Exception : Type 0 where
  api_error : What → Exception
  connection_error : What → Exception
  protocol_error : What → Exception
  handshake_error : What → Exception
  encryption_mismatch_error : What → Exception
  authentication_error : What → Exception
  timeout_error : What → Exception
  encryption_error : What → Exception

pub what : Exception → What
what (api_error w) = w
what (connection_error w) = w
what (protocol_error w) = w
what (handshake_error w) = w
what (encryption_mismatch_error w) = w
what (authentication_error w) = w
what (timeout_error w) = w
what (encryption_error w) = w

-- Whether `catch (const ProtocolError&)` takes it, by the inheritance of the classes.
unfoldable pub is_protocol_error : Exception → Bool
is_protocol_error (protocol_error w) = true
is_protocol_error (handshake_error w) = true
is_protocol_error (encryption_mismatch_error w) = true
is_protocol_error (encryption_error w) = true
is_protocol_error _ = false
