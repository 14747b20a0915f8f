-- ===== src/Entities/Valve.antt =====
-- include/esphome/api/model/entities/valve.hpp and
-- src/model/entities/valve.cpp, with the messages of proto/api.proto that they use.
use cpp_esphome_api.Base.{ℕ, ◌≡◌, refl, Bool, Option, List}
use cpp_esphome_api.Entities.Common.{
  EntityInfo, ListMessage, fill_entity_info, has_value, value_or, reading, reading-value_or,
}

pub record ListEntitiesValveResponse : Type 0 where
  pub object_id : List ℕ
  pub key : ℕ
  pub name : List ℕ
  pub icon : List ℕ
  pub disabled_by_default : Bool
  pub entity_category : ℕ
  pub device_class : List ℕ
  pub assumed_state : Bool
  pub supports_position : Bool
  pub supports_stop : Bool
  pub device_id : ℕ

pub record ValveInfo : Type 0 where
  pub entity_info : EntityInfo
  pub device_class : List ℕ
  pub assumed_state : Bool
  pub supports_position : Bool
  pub supports_stop : Bool

instance abbrev pub valve_list : ListMessage ListEntitiesValveResponse
valve_list = record {
  object_id = λ msg. msg.object_id;
  key = λ msg. msg.key;
  name = λ msg. msg.name;
  icon = λ msg. msg.icon;
  disabled_by_default = λ msg. msg.disabled_by_default;
  entity_category = λ msg. msg.entity_category;
  device_id = λ msg. msg.device_id;
}

unfoldable pub parse_valve_info : ListEntitiesValveResponse → ValveInfo
parse_valve_info msg = record {
  entity_info = fill_entity_info msg;
  device_class = msg.device_class;
  assumed_state = msg.assumed_state;
  supports_position = msg.supports_position;
  supports_stop = msg.supports_stop;
}

pub record ValveStateResponse : Type 0 where
  pub key : ℕ
  pub position : ℕ
  pub current_operation : ℕ
  pub device_id : ℕ

pub record ValveState : Type 0 where
  pub key : ℕ
  pub position : ℕ
  pub current_operation : ℕ

unfoldable pub parse_valve_state : ValveStateResponse → ValveState
parse_valve_state msg = record {
  key = msg.key;
  position = msg.position;
  current_operation = msg.current_operation;
}

pub record ValveCommandRequest : Type 0 where
  pub key : ℕ
  pub has_position : Bool
  pub position : ℕ
  pub stop : Bool
  pub device_id : ℕ

pub record ValveCommand : Type 0 where
  pub key : ℕ
  pub position : Option ℕ
  pub stop : Bool

unfoldable pub to_message : ValveCommand → ValveCommandRequest
to_message cmd = record {
  key = cmd.key;
  has_position = has_value cmd.position;
  position = value_or 0 cmd.position;
  stop = cmd.stop;
  device_id = 0;
}

-- What a device takes from a request: a value behind a flag counts when the flag is set.
unfoldable pub read_command : ValveCommandRequest → ValveCommand
read_command msg = record {
  key = msg.key;
  position = reading msg.has_position msg.position;
  stop = msg.stop;
}

-- A device reads the command that was sent.
pub read_command-to_message : (cmd : ValveCommand) → read_command (to_message cmd) ≡ cmd
unfolding read_command to_message
read_command-to_message cmd = rw (reading-value_or 0 cmd.position) refl
