-- ===== src/Entities/Lock.antt =====
-- include/esphome/api/model/entities/lock.hpp and
-- src/model/entities/lock.cpp, with the messages of proto/api.proto that they use.
use cpp_esphome_api.Base.{ℕ, ◌≡◌, refl, Bool, Option, List, []}
use cpp_esphome_api.Entities.Common.{
  EntityInfo, ListMessage, fill_entity_info, has_value, value_or, reading, reading-value_or,
}

pub record ListEntitiesLockResponse : Type 0 where
  pub object_id : List ℕ
  pub key : ℕ
  pub name : List ℕ
  pub icon : List ℕ
  pub disabled_by_default : Bool
  pub entity_category : ℕ
  pub assumed_state : Bool
  pub supports_open : Bool
  pub requires_code : Bool
  pub code_format : List ℕ
  pub device_id : ℕ

pub record LockInfo : Type 0 where
  pub entity_info : EntityInfo
  pub assumed_state : Bool
  pub supports_open : Bool
  pub requires_code : Bool
  pub code_format : List ℕ

instance abbrev pub lock_list : ListMessage ListEntitiesLockResponse
lock_list = record {
  object_id = λ msg. msg.object_id;
  key = λ msg. msg.key;
  name = λ msg. msg.name;
  icon = λ msg. msg.icon;
  disabled_by_default = λ msg. msg.disabled_by_default;
  entity_category = λ msg. msg.entity_category;
  device_id = λ msg. msg.device_id;
}

unfoldable pub parse_lock_info : ListEntitiesLockResponse → LockInfo
parse_lock_info msg = record {
  entity_info = fill_entity_info msg;
  assumed_state = msg.assumed_state;
  supports_open = msg.supports_open;
  requires_code = msg.requires_code;
  code_format = msg.code_format;
}

pub record LockStateResponse : Type 0 where
  pub key : ℕ
  pub state : ℕ
  pub device_id : ℕ

pub record LockEntityState : Type 0 where
  pub key : ℕ
  pub state : ℕ

unfoldable pub parse_lock_state : LockStateResponse → LockEntityState
parse_lock_state msg = record { key = msg.key; state = msg.state }

pub record LockCommandRequest : Type 0 where
  pub key : ℕ
  pub command : ℕ
  pub has_code : Bool
  pub code : List ℕ
  pub device_id : ℕ

pub record LockCommandData : Type 0 where
  pub key : ℕ
  pub command : ℕ
  pub code : Option (List ℕ)

unfoldable pub to_message : LockCommandData → LockCommandRequest
to_message cmd = record {
  key = cmd.key;
  command = cmd.command;
  has_code = has_value cmd.code;
  code = value_or [] cmd.code;
  device_id = 0;
}

-- What a device takes from a request: a value behind a flag counts when the flag is set.
unfoldable pub read_command : LockCommandRequest → LockCommandData
read_command msg = record {
  key = msg.key;
  command = msg.command;
  code = reading msg.has_code msg.code;
}

-- A device reads the command that was sent.
pub read_command-to_message : (cmd : LockCommandData) → read_command (to_message cmd) ≡ cmd
unfolding read_command to_message
read_command-to_message cmd = rw (reading-value_or [] cmd.code) refl
