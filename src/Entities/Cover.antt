-- ===== src/Entities/Cover.antt =====
-- include/esphome/api/model/entities/cover.hpp and
-- src/model/entities/cover.cpp, with the messages of proto/api.proto that they use.
use cpp_esphome_api.Base.{ℕ, ◌≡◌, refl, Bool, false, Option, List}
use cpp_esphome_api.Entities.Common.{
  EntityInfo, ListMessage, fill_entity_info, has_value, value_or, reading, reading-value_or,
}

pub record ListEntitiesCoverResponse : Type 0 where
  pub object_id : List ℕ
  pub key : ℕ
  pub name : List ℕ
  pub assumed_state : Bool
  pub supports_position : Bool
  pub supports_tilt : Bool
  pub device_class : List ℕ
  pub disabled_by_default : Bool
  pub icon : List ℕ
  pub entity_category : ℕ
  pub supports_stop : Bool
  pub device_id : ℕ

pub record CoverInfo : Type 0 where
  pub entity_info : EntityInfo
  pub assumed_state : Bool
  pub supports_position : Bool
  pub supports_tilt : Bool
  pub device_class : List ℕ
  pub supports_stop : Bool

instance abbrev pub cover_list : ListMessage ListEntitiesCoverResponse
cover_list = record {
  object_id = λ msg. msg.object_id;
  key = λ msg. msg.key;
  name = λ msg. msg.name;
  icon = λ msg. msg.icon;
  disabled_by_default = λ msg. msg.disabled_by_default;
  entity_category = λ msg. msg.entity_category;
  device_id = λ msg. msg.device_id;
}

unfoldable pub parse_cover_info : ListEntitiesCoverResponse → CoverInfo
parse_cover_info msg = record {
  entity_info = fill_entity_info msg;
  assumed_state = msg.assumed_state;
  supports_position = msg.supports_position;
  supports_tilt = msg.supports_tilt;
  device_class = msg.device_class;
  supports_stop = msg.supports_stop;
}

pub record CoverStateResponse : Type 0 where
  pub key : ℕ
  pub legacy_state : ℕ
  pub position : ℕ
  pub tilt : ℕ
  pub current_operation : ℕ
  pub device_id : ℕ

pub record CoverState : Type 0 where
  pub key : ℕ
  pub position : ℕ
  pub tilt : ℕ
  pub current_operation : ℕ

unfoldable pub parse_cover_state : CoverStateResponse → CoverState
parse_cover_state msg = record {
  key = msg.key;
  position = msg.position;
  tilt = msg.tilt;
  current_operation = msg.current_operation;
}

pub record CoverCommandRequest : Type 0 where
  pub key : ℕ
  pub has_legacy_command : Bool
  pub legacy_command : ℕ
  pub has_position : Bool
  pub position : ℕ
  pub has_tilt : Bool
  pub tilt : ℕ
  pub stop : Bool
  pub device_id : ℕ

pub record CoverCommand : Type 0 where
  pub key : ℕ
  pub position : Option ℕ
  pub tilt : Option ℕ
  pub stop : Bool

unfoldable pub to_message : CoverCommand → CoverCommandRequest
to_message cmd = record {
  key = cmd.key;
  has_legacy_command = false;
  legacy_command = 0;
  has_position = has_value cmd.position;
  position = value_or 0 cmd.position;
  has_tilt = has_value cmd.tilt;
  tilt = value_or 0 cmd.tilt;
  stop = cmd.stop;
  device_id = 0;
}

-- What a device takes from a request: a value behind a flag counts when the flag is set.
unfoldable pub read_command : CoverCommandRequest → CoverCommand
read_command msg = record {
  key = msg.key;
  position = reading msg.has_position msg.position;
  tilt = reading msg.has_tilt msg.tilt;
  stop = msg.stop;
}

-- A device reads the command that was sent.
pub read_command-to_message : (cmd : CoverCommand) → read_command (to_message cmd) ≡ cmd
unfolding read_command to_message
read_command-to_message cmd = rw (reading-value_or 0 cmd.position, reading-value_or 0 cmd.tilt) refl
