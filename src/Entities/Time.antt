-- ===== src/Entities/Time.antt =====
-- include/esphome/api/model/entities/time.hpp and
-- src/model/entities/time.cpp, with the messages of proto/api.proto that they use.
use cpp_esphome_api.Base.{ℕ, ◌≡◌, refl, Bool, List}
use cpp_esphome_api.Entities.Common.{EntityInfo, ListMessage, fill_entity_info}

pub record ListEntitiesTimeResponse : Type 0 where
  pub object_id : List ℕ
  pub key : ℕ
  pub name : List ℕ
  pub icon : List ℕ
  pub disabled_by_default : Bool
  pub entity_category : ℕ
  pub device_id : ℕ

pub record TimeInfo : Type 0 where
  pub entity_info : EntityInfo

instance abbrev pub time_list : ListMessage ListEntitiesTimeResponse
time_list = record {
  object_id = λ msg. msg.object_id;
  key = λ msg. msg.key;
  name = λ msg. msg.name;
  icon = λ msg. msg.icon;
  disabled_by_default = λ msg. msg.disabled_by_default;
  entity_category = λ msg. msg.entity_category;
  device_id = λ msg. msg.device_id;
}

unfoldable pub parse_time_info : ListEntitiesTimeResponse → TimeInfo
parse_time_info msg = record { entity_info = fill_entity_info msg }

pub record TimeStateResponse : Type 0 where
  pub key : ℕ
  pub missing_state : Bool
  pub hour : ℕ
  pub minute : ℕ
  pub second : ℕ
  pub device_id : ℕ

pub record TimeState : Type 0 where
  pub key : ℕ
  pub missing_state : Bool
  pub hour : ℕ
  pub minute : ℕ
  pub second : ℕ

unfoldable pub parse_time_state : TimeStateResponse → TimeState
parse_time_state msg = record {
  key = msg.key;
  missing_state = msg.missing_state;
  hour = msg.hour;
  minute = msg.minute;
  second = msg.second;
}

pub record TimeCommandRequest : Type 0 where
  pub key : ℕ
  pub hour : ℕ
  pub minute : ℕ
  pub second : ℕ
  pub device_id : ℕ

pub record TimeCommand : Type 0 where
  pub key : ℕ
  pub hour : ℕ
  pub minute : ℕ
  pub second : ℕ

unfoldable pub to_message : TimeCommand → TimeCommandRequest
to_message cmd = record {
  key = cmd.key;
  hour = cmd.hour;
  minute = cmd.minute;
  second = cmd.second;
  device_id = 0;
}

-- What a device takes from a request: a value behind a flag counts when the flag is set.
unfoldable pub read_command : TimeCommandRequest → TimeCommand
read_command msg = record {
  key = msg.key;
  hour = msg.hour;
  minute = msg.minute;
  second = msg.second;
}

-- A device reads the command that was sent.
pub read_command-to_message : (cmd : TimeCommand) → read_command (to_message cmd) ≡ cmd
unfolding read_command to_message
read_command-to_message cmd = refl
