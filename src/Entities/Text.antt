-- ===== src/Entities/Text.antt =====
-- include/esphome/api/model/entities/text.hpp and
-- src/model/entities/text.cpp, with the messages of proto/api.proto that they use.
use cpp_esphome_api.Base.{ℕ, ◌≡◌, refl, Bool, List}
use cpp_esphome_api.Entities.Common.{EntityInfo, ListMessage, fill_entity_info}

pub record ListEntitiesTextResponse : Type 0 where
  pub object_id : List ℕ
  pub key : ℕ
  pub name : List ℕ
  pub icon : List ℕ
  pub disabled_by_default : Bool
  pub entity_category : ℕ
  pub min_length : ℕ
  pub max_length : ℕ
  pub pattern : List ℕ
  pub mode : ℕ
  pub device_id : ℕ

pub record TextInfo : Type 0 where
  pub entity_info : EntityInfo
  pub min_length : ℕ
  pub max_length : ℕ
  pub pattern : List ℕ
  pub mode : ℕ

instance abbrev pub text_list : ListMessage ListEntitiesTextResponse
text_list = record {
  object_id = λ msg. msg.object_id;
  key = λ msg. msg.key;
  name = λ msg. msg.name;
  icon = λ msg. msg.icon;
  disabled_by_default = λ msg. msg.disabled_by_default;
  entity_category = λ msg. msg.entity_category;
  device_id = λ msg. msg.device_id;
}

unfoldable pub parse_text_info : ListEntitiesTextResponse → TextInfo
parse_text_info msg = record {
  entity_info = fill_entity_info msg;
  min_length = msg.min_length;
  max_length = msg.max_length;
  pattern = msg.pattern;
  mode = msg.mode;
}

pub record TextStateResponse : Type 0 where
  pub key : ℕ
  pub state : List ℕ
  pub missing_state : Bool
  pub device_id : ℕ

pub record TextState : Type 0 where
  pub key : ℕ
  pub state : List ℕ
  pub missing_state : Bool

unfoldable pub parse_text_state : TextStateResponse → TextState
parse_text_state msg = record {
  key = msg.key;
  state = msg.state;
  missing_state = msg.missing_state;
}

pub record TextCommandRequest : Type 0 where
  pub key : ℕ
  pub state : List ℕ
  pub device_id : ℕ

pub record TextCommand : Type 0 where
  pub key : ℕ
  pub state : List ℕ

unfoldable pub to_message : TextCommand → TextCommandRequest
to_message cmd = record { key = cmd.key; state = cmd.state; device_id = 0 }

-- What a device takes from a request: a value behind a flag counts when the flag is set.
unfoldable pub read_command : TextCommandRequest → TextCommand
read_command msg = record { key = msg.key; state = msg.state }

-- A device reads the command that was sent.
pub read_command-to_message : (cmd : TextCommand) → read_command (to_message cmd) ≡ cmd
unfolding read_command to_message
read_command-to_message cmd = refl
