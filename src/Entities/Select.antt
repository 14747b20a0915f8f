-- ===== src/Entities/Select.antt =====
-- include/esphome/api/model/entities/select.hpp and
-- src/model/entities/select.cpp, with the messages of proto/api.proto that they use.
use cpp_esphome_api.Base.{ℕ, ◌≡◌, refl, Bool, List}
use cpp_esphome_api.Entities.Common.{EntityInfo, ListMessage, fill_entity_info}

pub record ListEntitiesSelectResponse : Type 0 where
  pub object_id : List ℕ
  pub key : ℕ
  pub name : List ℕ
  pub icon : List ℕ
  pub options : List (List ℕ)
  pub disabled_by_default : Bool
  pub entity_category : ℕ
  pub device_id : ℕ

pub record SelectInfo : Type 0 where
  pub entity_info : EntityInfo
  pub options : List (List ℕ)

instance abbrev pub select_list : ListMessage ListEntitiesSelectResponse
select_list = record {
  object_id = λ msg. msg.object_id;
  key = λ msg. msg.key;
  name = λ msg. msg.name;
  icon = λ msg. msg.icon;
  disabled_by_default = λ msg. msg.disabled_by_default;
  entity_category = λ msg. msg.entity_category;
  device_id = λ msg. msg.device_id;
}

unfoldable pub parse_select_info : ListEntitiesSelectResponse → SelectInfo
parse_select_info msg = record { entity_info = fill_entity_info msg; options = msg.options }

pub record SelectStateResponse : Type 0 where
  pub key : ℕ
  pub state : List ℕ
  pub missing_state : Bool
  pub device_id : ℕ

pub record SelectState : Type 0 where
  pub key : ℕ
  pub state : List ℕ
  pub missing_state : Bool

unfoldable pub parse_select_state : SelectStateResponse → SelectState
parse_select_state msg = record {
  key = msg.key;
  state = msg.state;
  missing_state = msg.missing_state;
}

pub record SelectCommandRequest : Type 0 where
  pub key : ℕ
  pub state : List ℕ
  pub device_id : ℕ

pub record SelectCommand : Type 0 where
  pub key : ℕ
  pub state : List ℕ

unfoldable pub to_message : SelectCommand → SelectCommandRequest
to_message cmd = record { key = cmd.key; state = cmd.state; device_id = 0 }

-- What a device takes from a request: a value behind a flag counts when the flag is set.
unfoldable pub read_command : SelectCommandRequest → SelectCommand
read_command msg = record { key = msg.key; state = msg.state }

-- A device reads the command that was sent.
pub read_command-to_message : (cmd : SelectCommand) → read_command (to_message cmd) ≡ cmd
unfolding read_command to_message
read_command-to_message cmd = refl
