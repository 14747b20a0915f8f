-- ===== src/Entities/AlarmControlPanel.antt =====
-- include/esphome/api/model/entities/alarm_control_panel.hpp and
-- src/model/entities/alarm_control_panel.cpp, with the messages of proto/api.proto that they use.
use cpp_esphome_api.Base.{ℕ, ◌≡◌, refl, Bool, List}
use cpp_esphome_api.Entities.Common.{EntityInfo, ListMessage, fill_entity_info}

pub record ListEntitiesAlarmControlPanelResponse : Type 0 where
  pub object_id : List ℕ
  pub key : ℕ
  pub name : List ℕ
  pub icon : List ℕ
  pub disabled_by_default : Bool
  pub entity_category : ℕ
  pub supported_features : ℕ
  pub requires_code : Bool
  pub requires_code_to_arm : Bool
  pub device_id : ℕ

pub record AlarmControlPanelInfo : Type 0 where
  pub entity_info : EntityInfo
  pub supported_features : ℕ
  pub requires_code : Bool
  pub requires_code_to_arm : Bool

instance abbrev pub alarm_control_panel_list : ListMessage ListEntitiesAlarmControlPanelResponse
alarm_control_panel_list = record {
  object_id = λ msg. msg.object_id;
  key = λ msg. msg.key;
  name = λ msg. msg.name;
  icon = λ msg. msg.icon;
  disabled_by_default = λ msg. msg.disabled_by_default;
  entity_category = λ msg. msg.entity_category;
  device_id = λ msg. msg.device_id;
}

unfoldable pub parse_alarm_control_panel_info :
    ListEntitiesAlarmControlPanelResponse → AlarmControlPanelInfo
parse_alarm_control_panel_info msg = record {
  entity_info = fill_entity_info msg;
  supported_features = msg.supported_features;
  requires_code = msg.requires_code;
  requires_code_to_arm = msg.requires_code_to_arm;
}

pub record AlarmControlPanelStateResponse : Type 0 where
  pub key : ℕ
  pub state : ℕ
  pub device_id : ℕ

pub record AlarmControlPanelStatus : Type 0 where
  pub key : ℕ
  pub state : ℕ

unfoldable pub parse_alarm_control_panel_state :
    AlarmControlPanelStateResponse → AlarmControlPanelStatus
parse_alarm_control_panel_state msg = record { key = msg.key; state = msg.state }

pub record AlarmControlPanelCommandRequest : Type 0 where
  pub key : ℕ
  pub command : ℕ
  pub code : List ℕ
  pub device_id : ℕ

pub record AlarmControlPanelCommand : Type 0 where
  pub key : ℕ
  pub command : ℕ
  pub code : List ℕ

unfoldable pub to_message : AlarmControlPanelCommand → AlarmControlPanelCommandRequest
to_message cmd = record { key = cmd.key; command = cmd.command; code = cmd.code; device_id = 0 }

-- What a device takes from a request: a value behind a flag counts when the flag is set.
unfoldable pub read_command : AlarmControlPanelCommandRequest → AlarmControlPanelCommand
read_command msg = record { key = msg.key; command = msg.command; code = msg.code }

-- A device reads the command that was sent.
pub read_command-to_message : (cmd : AlarmControlPanelCommand) → read_command (to_message cmd) ≡ cmd
unfolding read_command to_message
read_command-to_message cmd = refl
