-- ===== src/Connection/Tests.antt =====
-- A session over the plaintext codec, and the theorems at concrete inputs.
use cpp_esphome_api.Base.{
  ℕ, suc, ◌≤◌, ◌≡◌, refl, false, Option, none, some, List, [], ◌∷◌, ◌++◌, leb, ◌==◌, if◌then◌else◌,
}
use cpp_esphome_api.Plaintext.{PlaintextFrameHelper}
use cpp_esphome_api.Plaintext
use cpp_esphome_api.Bytes.{append_varint, decode_varint}
use cpp_esphome_api.Plaintext.Helper.{plaintext_codec}
use cpp_esphome_api.Connection.State.{
  closed, failed, ConnectionOptions, success, ProtoMessage, hello_request, hello_response,
  authentication_request, authentication_response, disconnect_request, disconnect_response,
  ping_request, ping_response, other, Messages, Connection, no_hello, new,
}
use cpp_esphome_api.Connection.Actions.{
  without, set_state, cancel_connect, cancel_ping, cancel_pong, stop_keepalive, fail, report,
  finish_connect, send, send_raw, send_hello, start_keepalive,
}
use cpp_esphome_api.Connection.Inbound.{
  accept_hello, handle_frame, handle_message, handle_internal, on_hello, hello_refused, dispatch,
}
use cpp_esphome_api.Connection.Steps.{
  Input, start_called, transport_connected, bytes_read, closing_written, timer_fired, fire,
  run_timer, disconnect_called, start, on_ready, on_connected_transport, on_bytes, caught,
  after_round, drain_frames, disconnect, on_closing_written, step, run,
}
use cpp_esphome_api.Connection.Completion.{completions, completions-run, starts}
use cpp_esphome_api.Connection.Lifecycle.{IsTimely, IsTimelyRun, Leads, run-Leads}
use cpp_esphome_api.Connection.Keepalive.Silence.{IsSilent, run-IsSilent}
use cpp_esphome_api.Connection.Drain.{Answers, on_bytes-Answers}

abbrev login_free : ConnectionOptions
login_free = record {
  client_info = 99 ∷ [];
  expected_name = [];
  login = false;
  password = [];
  connect_timeout = 10000;
  keepalive_interval = 20000;
  keepalive_timeout = 10000;
}

-- Message types 1 to 8, without their fields.
message_of : ℕ → Option ProtoMessage
message_of t =
    if t == 2
    then some (hello_response (record no_hello { api_version_major = 1 }))
    else if t == 5
    then some disconnect_request
    else if t == 6
    then some disconnect_response
    else if t == 7
    then some ping_request
    else if t == 8
    then some ping_response
    else none

id_of_message : ProtoMessage → ℕ
id_of_message (hello_request i a b) = 1
id_of_message (hello_response h) = 2
id_of_message (authentication_request p) = 3
id_of_message (authentication_response i) = 4
id_of_message disconnect_request = 5
id_of_message disconnect_response = 6
id_of_message ping_request = 7
id_of_message ping_response = 8
id_of_message (other t bs) = t

abbrev bare_messages : Messages
bare_messages = record {
  create = λ t. leb t 8;
  parse_from_array = λ t bs. message_of t;
  id_of = id_of_message;
  serialize = λ msg. [];
  message_id_max = 200;
}

abbrev fresh : Connection PlaintextFrameHelper
fresh = new Plaintext.new

-- Connect, greet, ping, and the peer's disconnect.
abbrev session : List Input
session =
    start_called
    ∷ transport_connected success
    ∷ bytes_read (0 ∷ 0 ∷ 2 ∷ 0 ∷ 0 ∷ [])
    ∷ bytes_read (7 ∷ [])
    ∷ disconnect_called
    ∷ closing_written
    ∷ []

session_closes : (run plaintext_codec bare_messages login_free session fresh).state ≡ closed
unfolding run step start set_state on_connected_transport on_ready send_hello send send_raw on_bytes
    caught drain_frames after_round handle_frame message_of handle_message handle_internal on_hello
    hello_refused accept_hello cancel_connect start_keepalive finish_connect dispatch disconnect
    stop_keepalive cancel_ping cancel_pong on_closing_written id_of_message Plaintext.next
    Plaintext.feed Plaintext.new Plaintext.encode new decode_varint append_varint without
session_closes = refl

completions-run_example :
    completions (run plaintext_codec bare_messages login_free session fresh).log ≤ starts session
completions-run_example =
    completions-run plaintext_codec bare_messages login_free session Plaintext.new

-- A frame with a wrong indicator, which the codec answers by a protocol error.
on_bytes-Answers_example :
    Answers plaintext_codec bare_messages login_free
      (drain_frames plaintext_codec bare_messages login_free
        (suc (plaintext_codec.size (plaintext_codec.feed fresh.frames (1 ∷ 0 ∷ 2 ∷ 0 ∷ []))))
        (record fresh { frames = plaintext_codec.feed fresh.frames (1 ∷ 0 ∷ 2 ∷ 0 ∷ []) }))
      (on_bytes plaintext_codec bare_messages login_free (1 ∷ 0 ∷ 2 ∷ 0 ∷ []) fresh)
on_bytes-Answers_example =
    on_bytes-Answers plaintext_codec bare_messages login_free (1 ∷ 0 ∷ 2 ∷ 0 ∷ []) fresh

-- The first three inputs, in time: the connection greets and is welcomed.
abbrev greeting : List Input
greeting =
    start_called
    ∷ transport_connected success
    ∷ bytes_read (0 ∷ 0 ∷ 2 ∷ [])
    ∷ disconnect_called
    ∷ []

greeting_in_time : IsTimelyRun plaintext_codec bare_messages login_free greeting fresh
unfolding IsTimelyRun IsTimely step start set_state new
greeting_in_time = (refl, ((λ e. refl), (tt, (tt, tt))))

run-Leads_example :
    Leads fresh.state (run plaintext_codec bare_messages login_free greeting fresh).state
run-Leads_example =
    run-Leads plaintext_codec bare_messages login_free refl greeting fresh greeting_in_time

-- A session that is closing when its connect deadline comes has failed; once the write that
-- `disconnect` queued is done, it is closed.
abbrev too_late : List Input
too_late = start_called ∷ transport_connected success ∷ disconnect_called ∷ timer_fired 1 ∷ []

late_session_fails : (run plaintext_codec bare_messages login_free too_late fresh).state ≡ failed
unfolding run step start set_state on_connected_transport on_ready send_hello send send_raw
    disconnect stop_keepalive cancel_ping cancel_pong cancel_connect fire run_timer fail report
    finish_connect id_of_message Plaintext.new Plaintext.encode new append_varint without
late_session_fails = refl

failed_session_closes :
    (run plaintext_codec bare_messages login_free (too_late ++ (closing_written ∷ [])) fresh).state
    ≡ closed
unfolding run step start set_state on_connected_transport on_ready send_hello send send_raw
    disconnect stop_keepalive cancel_ping cancel_pong cancel_connect fire run_timer fail report
    finish_connect id_of_message Plaintext.new Plaintext.encode new append_varint without
    on_closing_written
failed_session_closes = refl

run-IsSilent_example : IsSilent (run plaintext_codec bare_messages login_free greeting fresh)
run-IsSilent_example =
    run-IsSilent plaintext_codec bare_messages login_free refl greeting Plaintext.new
      greeting_in_time
