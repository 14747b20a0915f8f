-- ===== src/Entities/Fan.antt =====
-- include/esphome/api/model/entities/fan.hpp and
-- src/model/entities/fan.cpp, with the messages of proto/api.proto that they use.
use cpp_esphome_api.Base.{ℕ, ◌≡◌, refl, Bool, false, Option, List, []}
use cpp_esphome_api.Entities.Common.{
  EntityInfo, ListMessage, fill_entity_info, has_value, value_or, reading, reading-value_or,
}

pub record ListEntitiesFanResponse : Type 0 where
  pub object_id : List ℕ
  pub key : ℕ
  pub name : List ℕ
  pub supports_oscillation : Bool
  pub supports_speed : Bool
  pub supports_direction : Bool
  pub supported_speed_count : ℕ
  pub disabled_by_default : Bool
  pub icon : List ℕ
  pub entity_category : ℕ
  pub supported_preset_modes : List (List ℕ)
  pub device_id : ℕ

pub record FanInfo : Type 0 where
  pub entity_info : EntityInfo
  pub supports_oscillation : Bool
  pub supports_speed : Bool
  pub supports_direction : Bool
  pub supported_speed_count : ℕ
  pub supported_preset_modes : List (List ℕ)

instance abbrev pub fan_list : ListMessage ListEntitiesFanResponse
fan_list = record {
  object_id = λ msg. msg.object_id;
  key = λ msg. msg.key;
  name = λ msg. msg.name;
  icon = λ msg. msg.icon;
  disabled_by_default = λ msg. msg.disabled_by_default;
  entity_category = λ msg. msg.entity_category;
  device_id = λ msg. msg.device_id;
}

unfoldable pub parse_fan_info : ListEntitiesFanResponse → FanInfo
parse_fan_info msg = record {
  entity_info = fill_entity_info msg;
  supports_oscillation = msg.supports_oscillation;
  supports_speed = msg.supports_speed;
  supports_direction = msg.supports_direction;
  supported_speed_count = msg.supported_speed_count;
  supported_preset_modes = msg.supported_preset_modes;
}

pub record FanStateResponse : Type 0 where
  pub key : ℕ
  pub state : Bool
  pub oscillating : Bool
  pub speed : ℕ
  pub direction : ℕ
  pub speed_level : ℕ
  pub preset_mode : List ℕ
  pub device_id : ℕ

pub record FanState : Type 0 where
  pub key : ℕ
  pub state : Bool
  pub oscillating : Bool
  pub direction : ℕ
  pub speed_level : ℕ
  pub preset_mode : List ℕ

unfoldable pub parse_fan_state : FanStateResponse → FanState
parse_fan_state msg = record {
  key = msg.key;
  state = msg.state;
  oscillating = msg.oscillating;
  direction = msg.direction;
  speed_level = msg.speed_level;
  preset_mode = msg.preset_mode;
}

pub record FanCommandRequest : Type 0 where
  pub key : ℕ
  pub has_state : Bool
  pub state : Bool
  pub has_speed : Bool
  pub speed : ℕ
  pub has_oscillating : Bool
  pub oscillating : Bool
  pub has_direction : Bool
  pub direction : ℕ
  pub has_speed_level : Bool
  pub speed_level : ℕ
  pub has_preset_mode : Bool
  pub preset_mode : List ℕ
  pub device_id : ℕ

pub record FanCommand : Type 0 where
  pub key : ℕ
  pub state : Option Bool
  pub oscillating : Option Bool
  pub direction : Option ℕ
  pub speed_level : Option ℕ
  pub preset_mode : Option (List ℕ)

unfoldable pub to_message : FanCommand → FanCommandRequest
to_message cmd = record {
  key = cmd.key;
  has_state = has_value cmd.state;
  state = value_or false cmd.state;
  has_speed = false;
  speed = 0;
  has_oscillating = has_value cmd.oscillating;
  oscillating = value_or false cmd.oscillating;
  has_direction = has_value cmd.direction;
  direction = value_or 0 cmd.direction;
  has_speed_level = has_value cmd.speed_level;
  speed_level = value_or 0 cmd.speed_level;
  has_preset_mode = has_value cmd.preset_mode;
  preset_mode = value_or [] cmd.preset_mode;
  device_id = 0;
}

-- What a device takes from a request: a value behind a flag counts when the flag is set.
unfoldable pub read_command : FanCommandRequest → FanCommand
read_command msg = record {
  key = msg.key;
  state = reading msg.has_state msg.state;
  oscillating = reading msg.has_oscillating msg.oscillating;
  direction = reading msg.has_direction msg.direction;
  speed_level = reading msg.has_speed_level msg.speed_level;
  preset_mode = reading msg.has_preset_mode msg.preset_mode;
}

-- A device reads the command that was sent.
pub read_command-to_message : (cmd : FanCommand) → read_command (to_message cmd) ≡ cmd
unfolding read_command to_message
read_command-to_message cmd =
    rw
      (
        reading-value_or false cmd.state,
        reading-value_or false cmd.oscillating,
        reading-value_or 0 cmd.direction,
        reading-value_or 0 cmd.speed_level,
        reading-value_or [] cmd.preset_mode,
      )
      refl
