-- ===== src/Entities/Number.antt =====
-- include/esphome/api/model/entities/number.hpp and
-- src/model/entities/number.cpp, with the messages of proto/api.proto that they use.
use cpp_esphome_api.Base.{ℕ, ◌≡◌, refl, Bool, List}
use cpp_esphome_api.Entities.Common.{EntityInfo, ListMessage, fill_entity_info}

pub record ListEntitiesNumberResponse : Type 0 where
  pub object_id : List ℕ
  pub key : ℕ
  pub name : List ℕ
  pub icon : List ℕ
  pub min_value : ℕ
  pub max_value : ℕ
  pub step : ℕ
  pub disabled_by_default : Bool
  pub entity_category : ℕ
  pub unit_of_measurement : List ℕ
  pub mode : ℕ
  pub device_class : List ℕ
  pub device_id : ℕ

pub record NumberInfo : Type 0 where
  pub entity_info : EntityInfo
  pub min_value : ℕ
  pub max_value : ℕ
  pub step : ℕ
  pub unit_of_measurement : List ℕ
  pub mode : ℕ
  pub device_class : List ℕ

instance abbrev pub number_list : ListMessage ListEntitiesNumberResponse
number_list = record {
  object_id = λ msg. msg.object_id;
  key = λ msg. msg.key;
  name = λ msg. msg.name;
  icon = λ msg. msg.icon;
  disabled_by_default = λ msg. msg.disabled_by_default;
  entity_category = λ msg. msg.entity_category;
  device_id = λ msg. msg.device_id;
}

unfoldable pub parse_number_info : ListEntitiesNumberResponse → NumberInfo
parse_number_info msg = record {
  entity_info = fill_entity_info msg;
  min_value = msg.min_value;
  max_value = msg.max_value;
  step = msg.step;
  unit_of_measurement = msg.unit_of_measurement;
  mode = msg.mode;
  device_class = msg.device_class;
}

pub record NumberStateResponse : Type 0 where
  pub key : ℕ
  pub state : ℕ
  pub missing_state : Bool
  pub device_id : ℕ

pub record NumberState : Type 0 where
  pub key : ℕ
  pub state : ℕ
  pub missing_state : Bool

unfoldable pub parse_number_state : NumberStateResponse → NumberState
parse_number_state msg = record {
  key = msg.key;
  state = msg.state;
  missing_state = msg.missing_state;
}

pub record NumberCommandRequest : Type 0 where
  pub key : ℕ
  pub state : ℕ
  pub device_id : ℕ

pub record NumberCommand : Type 0 where
  pub key : ℕ
  pub state : ℕ

unfoldable pub to_message : NumberCommand → NumberCommandRequest
to_message cmd = record { key = cmd.key; state = cmd.state; device_id = 0 }

-- What a device takes from a request: a value behind a flag counts when the flag is set.
unfoldable pub read_command : NumberCommandRequest → NumberCommand
read_command msg = record { key = msg.key; state = msg.state }

-- A device reads the command that was sent.
pub read_command-to_message : (cmd : NumberCommand) → read_command (to_message cmd) ≡ cmd
unfolding read_command to_message
read_command-to_message cmd = refl
