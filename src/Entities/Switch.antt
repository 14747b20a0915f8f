-- ===== src/Entities/Switch.antt =====
-- include/esphome/api/model/entities/switch.hpp and
-- src/model/entities/switch.cpp, with the messages of proto/api.proto that they use.
use cpp_esphome_api.Base.{ℕ, ◌≡◌, refl, Bool, List}
use cpp_esphome_api.Entities.Common.{EntityInfo, ListMessage, fill_entity_info}

pub record ListEntitiesSwitchResponse : Type 0 where
  pub object_id : List ℕ
  pub key : ℕ
  pub name : List ℕ
  pub icon : List ℕ
  pub assumed_state : Bool
  pub disabled_by_default : Bool
  pub entity_category : ℕ
  pub device_class : List ℕ
  pub device_id : ℕ

pub record SwitchInfo : Type 0 where
  pub entity_info : EntityInfo
  pub assumed_state : Bool
  pub device_class : List ℕ

instance abbrev pub switch_list : ListMessage ListEntitiesSwitchResponse
switch_list = record {
  object_id = λ msg. msg.object_id;
  key = λ msg. msg.key;
  name = λ msg. msg.name;
  icon = λ msg. msg.icon;
  disabled_by_default = λ msg. msg.disabled_by_default;
  entity_category = λ msg. msg.entity_category;
  device_id = λ msg. msg.device_id;
}

unfoldable pub parse_switch_info : ListEntitiesSwitchResponse → SwitchInfo
parse_switch_info msg = record {
  entity_info = fill_entity_info msg;
  assumed_state = msg.assumed_state;
  device_class = msg.device_class;
}

pub record SwitchStateResponse : Type 0 where
  pub key : ℕ
  pub state : Bool
  pub device_id : ℕ

pub record SwitchState : Type 0 where
  pub key : ℕ
  pub state : Bool

unfoldable pub parse_switch_state : SwitchStateResponse → SwitchState
parse_switch_state msg = record { key = msg.key; state = msg.state }

pub record SwitchCommandRequest : Type 0 where
  pub key : ℕ
  pub state : Bool
  pub device_id : ℕ

pub record SwitchCommand : Type 0 where
  pub key : ℕ
  pub state : Bool

unfoldable pub to_message : SwitchCommand → SwitchCommandRequest
to_message cmd = record { key = cmd.key; state = cmd.state; device_id = 0 }

-- What a device takes from a request: a value behind a flag counts when the flag is set.
unfoldable pub read_command : SwitchCommandRequest → SwitchCommand
read_command msg = record { key = msg.key; state = msg.state }

-- A device reads the command that was sent.
pub read_command-to_message : (cmd : SwitchCommand) → read_command (to_message cmd) ≡ cmd
unfolding read_command to_message
read_command-to_message cmd = refl
