-- ===== src/Entities/Date.antt =====
-- include/esphome/api/model/entities/date.hpp and
-- src/model/entities/date.cpp, with the messages of proto/api.proto that they use.
use cpp_esphome_api.Base.{ℕ, ◌≡◌, refl, Bool, List}
use cpp_esphome_api.Entities.Common.{EntityInfo, ListMessage, fill_entity_info}

pub record ListEntitiesDateResponse : Type 0 where
  pub object_id : List ℕ
  pub key : ℕ
  pub name : List ℕ
  pub icon : List ℕ
  pub disabled_by_default : Bool
  pub entity_category : ℕ
  pub device_id : ℕ

pub record DateInfo : Type 0 where
  pub entity_info : EntityInfo

instance abbrev pub date_list : ListMessage ListEntitiesDateResponse
date_list = record {
  object_id = λ msg. msg.object_id;
  key = λ msg. msg.key;
  name = λ msg. msg.name;
  icon = λ msg. msg.icon;
  disabled_by_default = λ msg. msg.disabled_by_default;
  entity_category = λ msg. msg.entity_category;
  device_id = λ msg. msg.device_id;
}

unfoldable pub parse_date_info : ListEntitiesDateResponse → DateInfo
parse_date_info msg = record { entity_info = fill_entity_info msg }

pub record DateStateResponse : Type 0 where
  pub key : ℕ
  pub missing_state : Bool
  pub year : ℕ
  pub month : ℕ
  pub day : ℕ
  pub device_id : ℕ

pub record DateState : Type 0 where
  pub key : ℕ
  pub missing_state : Bool
  pub year : ℕ
  pub month : ℕ
  pub day : ℕ

unfoldable pub parse_date_state : DateStateResponse → DateState
parse_date_state msg = record {
  key = msg.key;
  missing_state = msg.missing_state;
  year = msg.year;
  month = msg.month;
  day = msg.day;
}

pub record DateCommandRequest : Type 0 where
  pub key : ℕ
  pub year : ℕ
  pub month : ℕ
  pub day : ℕ
  pub device_id : ℕ

pub record DateCommand : Type 0 where
  pub key : ℕ
  pub year : ℕ
  pub month : ℕ
  pub day : ℕ

unfoldable pub to_message : DateCommand → DateCommandRequest
to_message cmd = record {
  key = cmd.key;
  year = cmd.year;
  month = cmd.month;
  day = cmd.day;
  device_id = 0;
}

-- What a device takes from a request: a value behind a flag counts when the flag is set.
unfoldable pub read_command : DateCommandRequest → DateCommand
read_command msg = record { key = msg.key; year = msg.year; month = msg.month; day = msg.day }

-- A device reads the command that was sent.
pub read_command-to_message : (cmd : DateCommand) → read_command (to_message cmd) ≡ cmd
unfolding read_command to_message
read_command-to_message cmd = refl
