-- ===== src/Entities/Update.antt =====
-- include/esphome/api/model/entities/update.hpp and
-- src/model/entities/update.cpp, with the messages of proto/api.proto that they use.
use cpp_esphome_api.Base.{ℕ, ◌≡◌, refl, Bool, List}
use cpp_esphome_api.Entities.Common.{EntityInfo, ListMessage, fill_entity_info}

pub record ListEntitiesUpdateResponse : Type 0 where
  pub object_id : List ℕ
  pub key : ℕ
  pub name : List ℕ
  pub icon : List ℕ
  pub disabled_by_default : Bool
  pub entity_category : ℕ
  pub device_class : List ℕ
  pub device_id : ℕ

pub record UpdateInfo : Type 0 where
  pub entity_info : EntityInfo
  pub device_class : List ℕ

instance abbrev pub update_list : ListMessage ListEntitiesUpdateResponse
update_list = record {
  object_id = λ msg. msg.object_id;
  key = λ msg. msg.key;
  name = λ msg. msg.name;
  icon = λ msg. msg.icon;
  disabled_by_default = λ msg. msg.disabled_by_default;
  entity_category = λ msg. msg.entity_category;
  device_id = λ msg. msg.device_id;
}

unfoldable pub parse_update_info : ListEntitiesUpdateResponse → UpdateInfo
parse_update_info msg = record {
  entity_info = fill_entity_info msg;
  device_class = msg.device_class;
}

pub record UpdateStateResponse : Type 0 where
  pub key : ℕ
  pub missing_state : Bool
  pub in_progress : Bool
  pub has_progress : Bool
  pub progress : ℕ
  pub current_version : List ℕ
  pub latest_version : List ℕ
  pub title : List ℕ
  pub release_summary : List ℕ
  pub release_url : List ℕ
  pub device_id : ℕ

pub record UpdateState : Type 0 where
  pub key : ℕ
  pub missing_state : Bool
  pub in_progress : Bool
  pub has_progress : Bool
  pub progress : ℕ
  pub current_version : List ℕ
  pub latest_version : List ℕ
  pub title : List ℕ
  pub release_summary : List ℕ
  pub release_url : List ℕ

unfoldable pub parse_update_state : UpdateStateResponse → UpdateState
parse_update_state msg = record {
  key = msg.key;
  missing_state = msg.missing_state;
  in_progress = msg.in_progress;
  has_progress = msg.has_progress;
  progress = msg.progress;
  current_version = msg.current_version;
  latest_version = msg.latest_version;
  title = msg.title;
  release_summary = msg.release_summary;
  release_url = msg.release_url;
}

pub record UpdateCommandRequest : Type 0 where
  pub key : ℕ
  pub command : ℕ
  pub device_id : ℕ

pub record UpdateControl : Type 0 where
  pub key : ℕ
  pub command : ℕ

unfoldable pub to_message : UpdateControl → UpdateCommandRequest
to_message cmd = record { key = cmd.key; command = cmd.command; device_id = 0 }

-- What a device takes from a request: a value behind a flag counts when the flag is set.
unfoldable pub read_command : UpdateCommandRequest → UpdateControl
read_command msg = record { key = msg.key; command = msg.command }

-- A device reads the command that was sent.
pub read_command-to_message : (cmd : UpdateControl) → read_command (to_message cmd) ≡ cmd
unfolding read_command to_message
read_command-to_message cmd = refl
