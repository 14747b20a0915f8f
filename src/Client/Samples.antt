-- ===== src/Client/Samples.antt =====
-- A device and a client to try the theorems on.
use cpp_esphome_api.Base.{ℕ, true, false, ◌||◌, some, List, [], ◌∷◌, ◌==◌, if◌then◌else◌}
use cpp_esphome_api.Plaintext.{PlaintextFrameHelper, encode}
use cpp_esphome_api.Plaintext
use cpp_esphome_api.Connection.State.{
  connected, ConnectionOptions, ServerHello, ProtoMessage, hello_request, hello_response,
  authentication_request, authentication_response, disconnect_request, disconnect_response,
  ping_request, ping_response, other, Messages, Connection, no_handlers,
}
use cpp_esphome_api.Connection.State
use cpp_esphome_api.EntityType.{switch}
use cpp_esphome_api.Entities.Switch.{ListEntitiesSwitchResponse, SwitchStateResponse}
use cpp_esphome_api.Entities.Classes.{list_response, state_response}
use cpp_esphome_api.Entities.Classes
use cpp_esphome_api.DeviceInfo.{DeviceInfoResponse, no_device_info}
use cpp_esphome_api.Client.{Casts, Client}

abbrev pub options : ConnectionOptions
options = record {
  client_info = 99 ∷ [];
  expected_name = [];
  login = false;
  password = [];
  connect_timeout = 10000;
  keepalive_interval = 20000;
  keepalive_timeout = 10000;
}

-- HelloResponse, DeviceInfoResponse, ListEntitiesSwitchResponse, SwitchStateResponse and PingRequest are known.
unfoldable pub id_of_message : ProtoMessage → ℕ
id_of_message ping_request = 7
id_of_message (other t bs) = t
id_of_message (hello_request i a b) = 1
id_of_message (hello_response h) = 2
id_of_message (authentication_request p) = 3
id_of_message (authentication_response i) = 4
id_of_message disconnect_request = 5
id_of_message disconnect_response = 6
id_of_message ping_response = 8

unfoldable pub content : ProtoMessage → List ℕ
content (other t bs) = bs
content _ = []

abbrev pub greeting : ServerHello
greeting = record {
  api_version_major = 1;
  api_version_minor = 10;
  server_info = 101 ∷ [];
  name = 100 ∷ [];
}

abbrev pub known_messages : Messages
known_messages = record {
  create = λ t. t == 2 || t == 7 || t == 10 || t == 17 || t == 26;
  parse_from_array = λ t bs.
      if t == 2
      then some (hello_response greeting)
      else if t == 7
      then some ping_request
      else some (other t bs);
  id_of = id_of_message;
  serialize = content;
  message_id_max = 200;
}

abbrev pub relay : ListEntitiesSwitchResponse
relay = record {
  object_id = [];
  key = 7;
  name = 65 ∷ [];
  icon = [];
  assumed_state = false;
  disabled_by_default = false;
  entity_category = 0;
  device_class = [];
  device_id = 0;
}

abbrev pub relay_on : SwitchStateResponse
relay_on = record { key = 7; state = true; device_id = 0 }

-- A device with two ports, "A" and "B".
abbrev pub described : DeviceInfoResponse
described = record {
  name = 100 ∷ [];
  friendly_name = [];
  mac_address = [];
  bluetooth_mac_address = [];
  esphome_version = [];
  compilation_time = [];
  model = [];
  manufacturer = [];
  project_name = [];
  project_version = [];
  suggested_area = [];
  has_deep_sleep = false;
  webserver_port = 80;
  api_encryption_supported = true;
  bluetooth_proxy_feature_flags = 0;
  voice_assistant_feature_flags = 0;
  zwave_proxy_feature_flags = 0;
  zwave_home_id = 0;
  serial_proxies =
      record { name = 65 ∷ []; port_type = 0 } ∷ record { name = 66 ∷ []; port_type = 1 } ∷ [];
}

unfoldable pub entity_of : ProtoMessage → Classes.ProtoMessage
entity_of (other t bs) =
    if t == 17 then list_response switch relay else state_response switch relay_on
entity_of _ = Classes.other "PingRequest"

abbrev pub casts : Casts
casts = record { to_entity = entity_of; to_device_info = λ _. described }

abbrev pub sent : List ProtoMessage
sent = other 17 (5 ∷ []) ∷ other 26 (6 ∷ []) ∷ other 10 [] ∷ []

abbrev pub chunks : List (List ℕ)
chunks = (0 ∷ 1 ∷ 17 ∷ []) ∷ (5 ∷ 0 ∷ 1 ∷ 26 ∷ 6 ∷ 0 ∷ 0 ∷ 10 ∷ 0 ∷ []) ∷ []

-- A client whose session has been welcomed, with two handlers.
abbrev pub welcomed : Client PlaintextFrameHelper
welcomed = record {
  connection = record (State.new Plaintext.new) {
    state = connected;
    handlers = record no_handlers { any_handler = true };
  };
  store = record { entities = []; state_cb = false };
  device_info = no_device_info;
  device_info_loaded = false;
  any_handlers = 40 ∷ 41 ∷ [];
  created = λ _. false;
  calls = [];
  state_calls = [];
}
