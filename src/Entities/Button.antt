-- ===== src/Entities/Button.antt =====
-- include/esphome/api/model/entities/button.hpp and
-- src/model/entities/button.cpp, with the messages of proto/api.proto that they use.
use cpp_esphome_api.Base.{ℕ, ◌≡◌, refl, Bool, List}
use cpp_esphome_api.Entities.Common.{EntityInfo, ListMessage, fill_entity_info}

pub record ListEntitiesButtonResponse : Type 0 where
  pub object_id : List ℕ
  pub key : ℕ
  pub name : List ℕ
  pub icon : List ℕ
  pub disabled_by_default : Bool
  pub entity_category : ℕ
  pub device_class : List ℕ
  pub device_id : ℕ

pub record ButtonInfo : Type 0 where
  pub entity_info : EntityInfo
  pub device_class : List ℕ

instance abbrev pub button_list : ListMessage ListEntitiesButtonResponse
button_list = record {
  object_id = λ msg. msg.object_id;
  key = λ msg. msg.key;
  name = λ msg. msg.name;
  icon = λ msg. msg.icon;
  disabled_by_default = λ msg. msg.disabled_by_default;
  entity_category = λ msg. msg.entity_category;
  device_id = λ msg. msg.device_id;
}

unfoldable pub parse_button_info : ListEntitiesButtonResponse → ButtonInfo
parse_button_info msg = record {
  entity_info = fill_entity_info msg;
  device_class = msg.device_class;
}

pub record ButtonCommandRequest : Type 0 where
  pub key : ℕ
  pub device_id : ℕ

pub record ButtonCommand : Type 0 where
  pub key : ℕ

unfoldable pub to_message : ButtonCommand → ButtonCommandRequest
to_message cmd = record { key = cmd.key; device_id = 0 }

-- What a device takes from a request: a value behind a flag counts when the flag is set.
unfoldable pub read_command : ButtonCommandRequest → ButtonCommand
read_command msg = record { key = msg.key }

-- A device reads the command that was sent.
pub read_command-to_message : (cmd : ButtonCommand) → read_command (to_message cmd) ≡ cmd
unfolding read_command to_message
read_command-to_message cmd = refl
