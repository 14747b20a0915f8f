-- ===== src/Entities/Climate.antt =====
-- include/esphome/api/model/entities/climate.hpp and
-- src/model/entities/climate.cpp, with the messages of proto/api.proto that they use.
use cpp_esphome_api.Base.{ℕ, ◌≡◌, refl, Bool, false, Option, List, []}
use cpp_esphome_api.Entities.Common.{
  EntityInfo, ListMessage, fill_entity_info, has_value, value_or, reading, reading-value_or,
}

pub record ListEntitiesClimateResponse : Type 0 where
  pub object_id : List ℕ
  pub key : ℕ
  pub name : List ℕ
  pub supports_current_temperature : Bool
  pub supports_two_point_target_temperature : Bool
  pub supported_modes : List ℕ
  pub visual_min_temperature : ℕ
  pub visual_max_temperature : ℕ
  pub visual_target_temperature_step : ℕ
  pub legacy_supports_away : Bool
  pub supports_action : Bool
  pub supported_fan_modes : List ℕ
  pub supported_swing_modes : List ℕ
  pub supported_custom_fan_modes : List (List ℕ)
  pub supported_presets : List ℕ
  pub supported_custom_presets : List (List ℕ)
  pub disabled_by_default : Bool
  pub icon : List ℕ
  pub entity_category : ℕ
  pub visual_current_temperature_step : ℕ
  pub supports_current_humidity : Bool
  pub supports_target_humidity : Bool
  pub visual_min_humidity : ℕ
  pub visual_max_humidity : ℕ
  pub device_id : ℕ
  pub feature_flags : ℕ
  pub temperature_unit : ℕ

pub record ClimateInfo : Type 0 where
  pub entity_info : EntityInfo
  pub supported_modes : List ℕ
  pub visual_min_temperature : ℕ
  pub visual_max_temperature : ℕ
  pub visual_target_temperature_step : ℕ
  pub supported_fan_modes : List ℕ
  pub supported_swing_modes : List ℕ
  pub supported_custom_fan_modes : List (List ℕ)
  pub supported_presets : List ℕ
  pub supported_custom_presets : List (List ℕ)
  pub visual_current_temperature_step : ℕ
  pub visual_min_humidity : ℕ
  pub visual_max_humidity : ℕ
  pub feature_flags : ℕ
  pub temperature_unit : ℕ

instance abbrev pub climate_list : ListMessage ListEntitiesClimateResponse
climate_list = record {
  object_id = λ msg. msg.object_id;
  key = λ msg. msg.key;
  name = λ msg. msg.name;
  icon = λ msg. msg.icon;
  disabled_by_default = λ msg. msg.disabled_by_default;
  entity_category = λ msg. msg.entity_category;
  device_id = λ msg. msg.device_id;
}

unfoldable pub parse_climate_info : ListEntitiesClimateResponse → ClimateInfo
parse_climate_info msg = record {
  entity_info = fill_entity_info msg;
  supported_modes = msg.supported_modes;
  visual_min_temperature = msg.visual_min_temperature;
  visual_max_temperature = msg.visual_max_temperature;
  visual_target_temperature_step = msg.visual_target_temperature_step;
  supported_fan_modes = msg.supported_fan_modes;
  supported_swing_modes = msg.supported_swing_modes;
  supported_custom_fan_modes = msg.supported_custom_fan_modes;
  supported_presets = msg.supported_presets;
  supported_custom_presets = msg.supported_custom_presets;
  visual_current_temperature_step = msg.visual_current_temperature_step;
  visual_min_humidity = msg.visual_min_humidity;
  visual_max_humidity = msg.visual_max_humidity;
  feature_flags = msg.feature_flags;
  temperature_unit = msg.temperature_unit;
}

pub record ClimateStateResponse : Type 0 where
  pub key : ℕ
  pub mode : ℕ
  pub current_temperature : ℕ
  pub target_temperature : ℕ
  pub target_temperature_low : ℕ
  pub target_temperature_high : ℕ
  pub unused_legacy_away : Bool
  pub action : ℕ
  pub fan_mode : ℕ
  pub swing_mode : ℕ
  pub custom_fan_mode : List ℕ
  pub preset : ℕ
  pub custom_preset : List ℕ
  pub current_humidity : ℕ
  pub target_humidity : ℕ
  pub device_id : ℕ

pub record ClimateState : Type 0 where
  pub key : ℕ
  pub mode : ℕ
  pub current_temperature : ℕ
  pub target_temperature : ℕ
  pub target_temperature_low : ℕ
  pub target_temperature_high : ℕ
  pub action : ℕ
  pub fan_mode : ℕ
  pub swing_mode : ℕ
  pub custom_fan_mode : List ℕ
  pub preset : ℕ
  pub custom_preset : List ℕ
  pub current_humidity : ℕ
  pub target_humidity : ℕ

unfoldable pub parse_climate_state : ClimateStateResponse → ClimateState
parse_climate_state msg = record {
  key = msg.key;
  mode = msg.mode;
  current_temperature = msg.current_temperature;
  target_temperature = msg.target_temperature;
  target_temperature_low = msg.target_temperature_low;
  target_temperature_high = msg.target_temperature_high;
  action = msg.action;
  fan_mode = msg.fan_mode;
  swing_mode = msg.swing_mode;
  custom_fan_mode = msg.custom_fan_mode;
  preset = msg.preset;
  custom_preset = msg.custom_preset;
  current_humidity = msg.current_humidity;
  target_humidity = msg.target_humidity;
}

pub record ClimateCommandRequest : Type 0 where
  pub key : ℕ
  pub has_mode : Bool
  pub mode : ℕ
  pub has_target_temperature : Bool
  pub target_temperature : ℕ
  pub has_target_temperature_low : Bool
  pub target_temperature_low : ℕ
  pub has_target_temperature_high : Bool
  pub target_temperature_high : ℕ
  pub unused_has_legacy_away : Bool
  pub unused_legacy_away : Bool
  pub has_fan_mode : Bool
  pub fan_mode : ℕ
  pub has_swing_mode : Bool
  pub swing_mode : ℕ
  pub has_custom_fan_mode : Bool
  pub custom_fan_mode : List ℕ
  pub has_preset : Bool
  pub preset : ℕ
  pub has_custom_preset : Bool
  pub custom_preset : List ℕ
  pub has_target_humidity : Bool
  pub target_humidity : ℕ
  pub device_id : ℕ

pub record ClimateCommand : Type 0 where
  pub key : ℕ
  pub mode : Option ℕ
  pub target_temperature : Option ℕ
  pub target_temperature_low : Option ℕ
  pub target_temperature_high : Option ℕ
  pub fan_mode : Option ℕ
  pub swing_mode : Option ℕ
  pub custom_fan_mode : Option (List ℕ)
  pub preset : Option ℕ
  pub custom_preset : Option (List ℕ)
  pub target_humidity : Option ℕ

unfoldable pub to_message : ClimateCommand → ClimateCommandRequest
to_message cmd = record {
  key = cmd.key;
  has_mode = has_value cmd.mode;
  mode = value_or 0 cmd.mode;
  has_target_temperature = has_value cmd.target_temperature;
  target_temperature = value_or 0 cmd.target_temperature;
  has_target_temperature_low = has_value cmd.target_temperature_low;
  target_temperature_low = value_or 0 cmd.target_temperature_low;
  has_target_temperature_high = has_value cmd.target_temperature_high;
  target_temperature_high = value_or 0 cmd.target_temperature_high;
  unused_has_legacy_away = false;
  unused_legacy_away = false;
  has_fan_mode = has_value cmd.fan_mode;
  fan_mode = value_or 0 cmd.fan_mode;
  has_swing_mode = has_value cmd.swing_mode;
  swing_mode = value_or 0 cmd.swing_mode;
  has_custom_fan_mode = has_value cmd.custom_fan_mode;
  custom_fan_mode = value_or [] cmd.custom_fan_mode;
  has_preset = has_value cmd.preset;
  preset = value_or 0 cmd.preset;
  has_custom_preset = has_value cmd.custom_preset;
  custom_preset = value_or [] cmd.custom_preset;
  has_target_humidity = has_value cmd.target_humidity;
  target_humidity = value_or 0 cmd.target_humidity;
  device_id = 0;
}

-- What a device takes from a request: a value behind a flag counts when the flag is set.
unfoldable pub read_command : ClimateCommandRequest → ClimateCommand
read_command msg = record {
  key = msg.key;
  mode = reading msg.has_mode msg.mode;
  target_temperature = reading msg.has_target_temperature msg.target_temperature;
  target_temperature_low = reading msg.has_target_temperature_low msg.target_temperature_low;
  target_temperature_high = reading msg.has_target_temperature_high msg.target_temperature_high;
  fan_mode = reading msg.has_fan_mode msg.fan_mode;
  swing_mode = reading msg.has_swing_mode msg.swing_mode;
  custom_fan_mode = reading msg.has_custom_fan_mode msg.custom_fan_mode;
  preset = reading msg.has_preset msg.preset;
  custom_preset = reading msg.has_custom_preset msg.custom_preset;
  target_humidity = reading msg.has_target_humidity msg.target_humidity;
}

-- A device reads the command that was sent.
pub read_command-to_message : (cmd : ClimateCommand) → read_command (to_message cmd) ≡ cmd
unfolding read_command to_message
read_command-to_message cmd =
    rw
      (
        reading-value_or 0 cmd.mode,
        reading-value_or 0 cmd.target_temperature,
        reading-value_or 0 cmd.target_temperature_low,
        reading-value_or 0 cmd.target_temperature_high,
        reading-value_or 0 cmd.fan_mode,
        reading-value_or 0 cmd.swing_mode,
        reading-value_or [] cmd.custom_fan_mode,
        reading-value_or 0 cmd.preset,
        reading-value_or [] cmd.custom_preset,
        reading-value_or 0 cmd.target_humidity,
      )
      refl
