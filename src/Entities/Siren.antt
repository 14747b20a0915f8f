-- ===== src/Entities/Siren.antt =====
-- include/esphome/api/model/entities/siren.hpp and
-- src/model/entities/siren.cpp, with the messages of proto/api.proto that they use.
use cpp_esphome_api.Base.{ℕ, ◌≡◌, refl, Bool, false, Option, List, []}
use cpp_esphome_api.Entities.Common.{
  EntityInfo, ListMessage, fill_entity_info, has_value, value_or, reading, reading-value_or,
}

pub record ListEntitiesSirenResponse : Type 0 where
  pub object_id : List ℕ
  pub key : ℕ
  pub name : List ℕ
  pub icon : List ℕ
  pub disabled_by_default : Bool
  pub tones : List (List ℕ)
  pub supports_duration : Bool
  pub supports_volume : Bool
  pub entity_category : ℕ
  pub device_id : ℕ

pub record SirenInfo : Type 0 where
  pub entity_info : EntityInfo
  pub tones : List (List ℕ)
  pub supports_duration : Bool
  pub supports_volume : Bool

instance abbrev pub siren_list : ListMessage ListEntitiesSirenResponse
siren_list = record {
  object_id = λ msg. msg.object_id;
  key = λ msg. msg.key;
  name = λ msg. msg.name;
  icon = λ msg. msg.icon;
  disabled_by_default = λ msg. msg.disabled_by_default;
  entity_category = λ msg. msg.entity_category;
  device_id = λ msg. msg.device_id;
}

unfoldable pub parse_siren_info : ListEntitiesSirenResponse → SirenInfo
parse_siren_info msg = record {
  entity_info = fill_entity_info msg;
  tones = msg.tones;
  supports_duration = msg.supports_duration;
  supports_volume = msg.supports_volume;
}

pub record SirenStateResponse : Type 0 where
  pub key : ℕ
  pub state : Bool
  pub device_id : ℕ

pub record SirenState : Type 0 where
  pub key : ℕ
  pub state : Bool

unfoldable pub parse_siren_state : SirenStateResponse → SirenState
parse_siren_state msg = record { key = msg.key; state = msg.state }

pub record SirenCommandRequest : Type 0 where
  pub key : ℕ
  pub has_state : Bool
  pub state : Bool
  pub has_tone : Bool
  pub tone : List ℕ
  pub has_duration : Bool
  pub duration : ℕ
  pub has_volume : Bool
  pub volume : ℕ
  pub device_id : ℕ

pub record SirenCommand : Type 0 where
  pub key : ℕ
  pub state : Option Bool
  pub tone : Option (List ℕ)
  pub duration : Option ℕ
  pub volume : Option ℕ

unfoldable pub to_message : SirenCommand → SirenCommandRequest
to_message cmd = record {
  key = cmd.key;
  has_state = has_value cmd.state;
  state = value_or false cmd.state;
  has_tone = has_value cmd.tone;
  tone = value_or [] cmd.tone;
  has_duration = has_value cmd.duration;
  duration = value_or 0 cmd.duration;
  has_volume = has_value cmd.volume;
  volume = value_or 0 cmd.volume;
  device_id = 0;
}

-- What a device takes from a request: a value behind a flag counts when the flag is set.
unfoldable pub read_command : SirenCommandRequest → SirenCommand
read_command msg = record {
  key = msg.key;
  state = reading msg.has_state msg.state;
  tone = reading msg.has_tone msg.tone;
  duration = reading msg.has_duration msg.duration;
  volume = reading msg.has_volume msg.volume;
}

-- A device reads the command that was sent.
pub read_command-to_message : (cmd : SirenCommand) → read_command (to_message cmd) ≡ cmd
unfolding read_command to_message
read_command-to_message cmd =
    rw
      (
        reading-value_or false cmd.state,
        reading-value_or [] cmd.tone,
        reading-value_or 0 cmd.duration,
        reading-value_or 0 cmd.volume,
      )
      refl
