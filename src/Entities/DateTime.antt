-- ===== src/Entities/DateTime.antt =====
-- include/esphome/api/model/entities/datetime.hpp and
-- src/model/entities/datetime.cpp, with the messages of proto/api.proto that they use.
use cpp_esphome_api.Base.{ℕ, ◌≡◌, refl, Bool, List}
use cpp_esphome_api.Entities.Common.{EntityInfo, ListMessage, fill_entity_info}

pub record ListEntitiesDateTimeResponse : Type 0 where
  pub object_id : List ℕ
  pub key : ℕ
  pub name : List ℕ
  pub icon : List ℕ
  pub disabled_by_default : Bool
  pub entity_category : ℕ
  pub device_id : ℕ

pub record DateTimeInfo : Type 0 where
  pub entity_info : EntityInfo

instance abbrev pub date_time_list : ListMessage ListEntitiesDateTimeResponse
date_time_list = record {
  object_id = λ msg. msg.object_id;
  key = λ msg. msg.key;
  name = λ msg. msg.name;
  icon = λ msg. msg.icon;
  disabled_by_default = λ msg. msg.disabled_by_default;
  entity_category = λ msg. msg.entity_category;
  device_id = λ msg. msg.device_id;
}

unfoldable pub parse_datetime_info : ListEntitiesDateTimeResponse → DateTimeInfo
parse_datetime_info msg = record { entity_info = fill_entity_info msg }

pub record DateTimeStateResponse : Type 0 where
  pub key : ℕ
  pub missing_state : Bool
  pub epoch_seconds : ℕ
  pub device_id : ℕ

pub record DateTimeState : Type 0 where
  pub key : ℕ
  pub missing_state : Bool
  pub epoch_seconds : ℕ

unfoldable pub parse_datetime_state : DateTimeStateResponse → DateTimeState
parse_datetime_state msg = record {
  key = msg.key;
  missing_state = msg.missing_state;
  epoch_seconds = msg.epoch_seconds;
}

pub record DateTimeCommandRequest : Type 0 where
  pub key : ℕ
  pub epoch_seconds : ℕ
  pub device_id : ℕ

pub record DateTimeCommand : Type 0 where
  pub key : ℕ
  pub epoch_seconds : ℕ

unfoldable pub to_message : DateTimeCommand → DateTimeCommandRequest
to_message cmd = record { key = cmd.key; epoch_seconds = cmd.epoch_seconds; device_id = 0 }

-- What a device takes from a request: a value behind a flag counts when the flag is set.
unfoldable pub read_command : DateTimeCommandRequest → DateTimeCommand
read_command msg = record { key = msg.key; epoch_seconds = msg.epoch_seconds }

-- A device reads the command that was sent.
pub read_command-to_message : (cmd : DateTimeCommand) → read_command (to_message cmd) ≡ cmd
unfolding read_command to_message
read_command-to_message cmd = refl
