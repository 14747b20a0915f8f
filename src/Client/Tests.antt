-- ===== src/Client/Tests.antt =====
-- The client on a concrete session, and its theorems at concrete inputs.
use cpp_esphome_api.Base.{ℕ, ◌≡◌, refl, ◌↔◌, inr, true, some, List, [], ◌∷◌, ◌++◌, arith, All, take}
use mathlib.Core.List.{flatten, map}
use cpp_esphome_api.Bytes.{append_varint}
use cpp_esphome_api.Plaintext.{PlaintextFrameHelper, encode}
use cpp_esphome_api.Plaintext
use cpp_esphome_api.Plaintext.Helper.{plaintext_codec}
use cpp_esphome_api.Plaintext.Stream.{pending}
use cpp_esphome_api.Plaintext.Stream.Chunks.{encode_all}
use cpp_esphome_api.Connection.State.{
  success, connected, ConnectionOptions, ProtoMessage, hello_request, hello_response,
  authentication_request, authentication_response, disconnect_request, disconnect_response,
  ping_request, ping_response, other, Messages, Connection, no_handlers,
}
use cpp_esphome_api.Connection.State
use cpp_esphome_api.Connection.Steps.{Input, bytes_read, timer_fired, disconnect_called}
use cpp_esphome_api.Connection.Steps
use cpp_esphome_api.Connection.Delivery.Log.{heard, outcomes}
use cpp_esphome_api.Connection.Delivery.OneFrame
use cpp_esphome_api.Connection.Delivery.Loop.{IsOpen}
use cpp_esphome_api.Connection.Delivery.Reading.{IsRead, IsSent, frame_of, run-heard}
use cpp_esphome_api.DeviceInfo.{from_proto}
use cpp_esphome_api.Client.{Client, new, on_any, run, serial_proxy_named}
use cpp_esphome_api.Client.Knows.{last_info, or_else, known, Knows}
use cpp_esphome_api.Client.Session.{run-Knows, HasTaken}
use cpp_esphome_api.Client.Delivery.{run-sent, run-fresh}
use cpp_esphome_api.Connection.Delivery.Opening.{with_handlers, IsWelcome}
use cpp_esphome_api.Connection.Delivery.Connects.{session, run-connects}
use cpp_esphome_api.Connection.Inbound
use cpp_esphome_api.Client.Ports.{IsFirst, serial_proxy_named_iff}
use cpp_esphome_api.Client.Samples.{
  greeting, options, id_of_message, content, known_messages, described, casts, sent, chunks,
  welcomed,
}

welcomed-IsOpen : IsOpen welcomed.connection
unfolding State.new Plaintext.new
welcomed-IsOpen = record { state = refl; any = refl; sound = omega arith }

nothing_waits : pending welcomed.connection.frames ≡ []
unfolding State.new Plaintext.new
nothing_waits = refl

pub sent-IsRead : All (IsRead known_messages) sent
unfolding id_of_message content OneFrame.keeps_open
sent-IsRead =
    let seen_17 : IsRead known_messages (other 17 (5 ∷ [])) = record {
      is_known = refl;
      reads_back = refl;
      goes_on = refl;
    } in
    let seen_26 : IsRead known_messages (other 26 (6 ∷ [])) = record {
      is_known = refl;
      reads_back = refl;
      goes_on = refl;
    } in
    let seen_10 : IsRead known_messages (other 10 []) = record {
      is_known = refl;
      reads_back = refl;
      goes_on = refl;
    } in
    (seen_17, (seen_26, (seen_10, tt)))

sent-IsSent : All (IsSent known_messages) sent
unfolding id_of_message content
sent-IsSent =
    let (seen_17, (seen_26, (seen_10, end))) = sent-IsRead in
    (
      record {
        read = seen_17;
        in_frame = record { type_fits = omega arith; payload_fits = omega arith };
      },
      (
        record {
          read = seen_26;
          in_frame = record { type_fits = omega arith; payload_fits = omega arith };
        },
        (
          record {
            read = seen_10;
            in_frame = record { type_fits = omega arith; payload_fits = omega arith };
          },
          tt,
        ),
      ),
    )

ping-IsSent : IsSent known_messages ping_request
unfolding id_of_message content OneFrame.keeps_open
ping-IsSent = record {
  read = record { is_known = refl; reads_back = refl; goes_on = refl };
  in_frame = record { type_fits = omega arith; payload_fits = omega arith };
}

chunks_whole :
    flatten chunks
    ≡ encode_all (map (frame_of known_messages) sent) []
      ++ take 1 (encode (id_of_message ping_request) (content ping_request) [])
unfolding flatten encode_all frame_of encode append_varint id_of_message content
chunks_whole = refl

run-heard_example :
    (heard
        (Steps.run plaintext_codec known_messages options
          (map bytes_read chunks)
          welcomed.connection).log
      ≡ heard welcomed.connection.log ++ sent)
    × IsOpen (
        Steps.run plaintext_codec known_messages options
          (map bytes_read chunks)
          welcomed.connection)
    × (pending
          (Steps.run plaintext_codec known_messages options
            (map bytes_read chunks)
            welcomed.connection).frames
        ≡ take 1 (encode (id_of_message ping_request) (content ping_request) []))
unfolding encode append_varint id_of_message content
run-heard_example =
    run-heard known_messages options sent chunks ping_request 1 welcomed.connection welcomed-IsOpen
      nothing_waits sent-IsSent ping-IsSent (omega arith) chunks_whole

run-sent_example :
    HasTaken known_messages casts 7 sent welcomed
      (run plaintext_codec known_messages casts options (map bytes_read chunks) welcomed)
unfolding encode append_varint id_of_message content
run-sent_example =
    run-sent known_messages casts options sent chunks ping_request 1 7 welcomed welcomed-IsOpen
      nothing_waits sent-IsSent ping-IsSent (omega arith) chunks_whole

-- The description that came is the one above.
description_came :
    or_else (last_info known_messages casts sent) (known welcomed) ≡ some (from_proto described)
unfolding last_info id_of_message known
description_came = refl

abbrev inputs : List Input
inputs = bytes_read (0 ∷ 0 ∷ 7 ∷ []) ∷ timer_fired 1 ∷ disconnect_called ∷ []

run-Knows_example :
    (msgs : List ProtoMessage) × (heard
        (Steps.run plaintext_codec known_messages options inputs welcomed.connection).log
      ≡ heard welcomed.connection.log ++ msgs)
    × Knows known_messages casts welcomed
        (run plaintext_codec known_messages casts options inputs welcomed)
        msgs
    × ((run plaintext_codec known_messages casts options inputs welcomed).connection
        ≡ Steps.run plaintext_codec known_messages options inputs welcomed.connection)
run-Knows_example = run-Knows plaintext_codec known_messages casts options inputs welcomed

abbrev acquainted : Client PlaintextFrameHelper
acquainted = record welcomed { device_info = from_proto described; device_info_loaded = true }

serial_proxy_named_iff_example :
    ((serial_proxy_named (66 ∷ []) acquainted).1 ≡ inr 1)
    ↔ ((true ≡ true) × IsFirst (66 ∷ []) 1 acquainted.device_info.serial_proxies)
unfolding from_proto
serial_proxy_named_iff_example = serial_proxy_named_iff (66 ∷ []) 1 acquainted (omega arith)

greeting-IsWelcome : IsWelcome known_messages options greeting
unfolding id_of_message content Inbound.hello_refused
greeting-IsWelcome = record {
  is_known = refl;
  reads_back = refl;
  in_frame = record { type_fits = omega arith; payload_fits = omega arith };
  accepted = refl;
}

-- The welcome in two reads, the second one with the first bytes of the next frame.
abbrev all_chunks : List (List ℕ)
all_chunks =
    (0 ∷ 0 ∷ []) ∷ (2 ∷ 0 ∷ 1 ∷ []) ∷ (17 ∷ []) ∷ (5 ∷ 0 ∷ 1 ∷ 26 ∷ 6 ∷ 0 ∷ 0 ∷ 10 ∷ 0 ∷ []) ∷ []

all_chunks_whole :
    flatten all_chunks
    ≡ encode_all (map (frame_of known_messages) (hello_response greeting ∷ sent)) []
      ++ take 1 (encode (id_of_message ping_request) (content ping_request) [])
unfolding flatten encode_all frame_of encode append_varint id_of_message content
all_chunks_whole = refl

run-connects_example :
    let hs = record no_handlers { any_handler = true } in
    let d =
      Steps.run plaintext_codec known_messages options (session all_chunks) (with_handlers hs) in
    (outcomes d.log ≡ success ∷ [])
    × (heard d.log ≡ hello_response greeting ∷ sent)
    × IsOpen d
    × (pending d.frames ≡ take 1 (encode (id_of_message ping_request) (content ping_request) []))
unfolding encode append_varint id_of_message content
run-connects_example =
    run-connects known_messages options (record no_handlers { any_handler = true }) greeting sent
      all_chunks ping_request 1 refl greeting-IsWelcome sent-IsSent ping-IsSent (omega arith)
      all_chunks_whole

abbrev fresh : Client PlaintextFrameHelper
fresh = on_any 40 (new plaintext_codec known_messages casts options Plaintext.new)

fresh_connection :
    fresh.connection ≡ (new plaintext_codec known_messages casts options Plaintext.new).connection
unfolding on_any
fresh_connection = refl

run-fresh_example :
    let d = run plaintext_codec known_messages casts options (session all_chunks) fresh in
    (outcomes d.connection.log ≡ success ∷ [])
    × IsOpen d.connection
    × HasTaken known_messages casts 7 (hello_response greeting ∷ sent) fresh d
unfolding encode append_varint id_of_message content
run-fresh_example =
    run-fresh known_messages casts options greeting sent all_chunks ping_request 1 7 fresh
      fresh_connection greeting-IsWelcome sent-IsSent ping-IsSent (omega arith) all_chunks_whole
