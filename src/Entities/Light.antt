-- ===== src/Entities/Light.antt =====
-- include/esphome/api/model/entities/light.hpp and
-- src/model/entities/light.cpp, with the messages of proto/api.proto that they use.
use cpp_esphome_api.Base.{ℕ, ◌≡◌, refl, Bool, false, Option, none, some, List, []}
use mathlib.Core.Option
use cpp_esphome_api.Entities.Common.{
  EntityInfo, ListMessage, fill_entity_info, has_value, value_or, reading, reading-value_or,
}

pub record ListEntitiesLightResponse : Type 0 where
  pub object_id : List ℕ
  pub key : ℕ
  pub name : List ℕ
  pub supported_color_modes : List ℕ
  pub legacy_supports_brightness : Bool
  pub legacy_supports_rgb : Bool
  pub legacy_supports_white_value : Bool
  pub legacy_supports_color_temperature : Bool
  pub min_mireds : ℕ
  pub max_mireds : ℕ
  pub effects : List (List ℕ)
  pub disabled_by_default : Bool
  pub icon : List ℕ
  pub entity_category : ℕ
  pub device_id : ℕ

pub record LightInfo : Type 0 where
  pub entity_info : EntityInfo
  pub supported_color_modes : List ℕ
  pub min_mireds : ℕ
  pub max_mireds : ℕ
  pub effects : List (List ℕ)

instance abbrev pub light_list : ListMessage ListEntitiesLightResponse
light_list = record {
  object_id = λ msg. msg.object_id;
  key = λ msg. msg.key;
  name = λ msg. msg.name;
  icon = λ msg. msg.icon;
  disabled_by_default = λ msg. msg.disabled_by_default;
  entity_category = λ msg. msg.entity_category;
  device_id = λ msg. msg.device_id;
}

unfoldable pub parse_light_info : ListEntitiesLightResponse → LightInfo
parse_light_info msg = record {
  entity_info = fill_entity_info msg;
  supported_color_modes = msg.supported_color_modes;
  min_mireds = msg.min_mireds;
  max_mireds = msg.max_mireds;
  effects = msg.effects;
}

pub record LightStateResponse : Type 0 where
  pub key : ℕ
  pub state : Bool
  pub brightness : ℕ
  pub color_mode : ℕ
  pub color_brightness : ℕ
  pub red : ℕ
  pub green : ℕ
  pub blue : ℕ
  pub white : ℕ
  pub color_temperature : ℕ
  pub cold_white : ℕ
  pub warm_white : ℕ
  pub effect : List ℕ
  pub device_id : ℕ

pub record LightState : Type 0 where
  pub key : ℕ
  pub state : Bool
  pub brightness : ℕ
  pub color_mode : ℕ
  pub color_brightness : ℕ
  pub red : ℕ
  pub green : ℕ
  pub blue : ℕ
  pub white : ℕ
  pub color_temperature : ℕ
  pub cold_white : ℕ
  pub warm_white : ℕ
  pub effect : List ℕ

unfoldable pub parse_light_state : LightStateResponse → LightState
parse_light_state msg = record {
  key = msg.key;
  state = msg.state;
  brightness = msg.brightness;
  color_mode = msg.color_mode;
  color_brightness = msg.color_brightness;
  red = msg.red;
  green = msg.green;
  blue = msg.blue;
  white = msg.white;
  color_temperature = msg.color_temperature;
  cold_white = msg.cold_white;
  warm_white = msg.warm_white;
  effect = msg.effect;
}

pub record LightCommandRequest : Type 0 where
  pub key : ℕ
  pub has_state : Bool
  pub state : Bool
  pub has_brightness : Bool
  pub brightness : ℕ
  pub has_color_mode : Bool
  pub color_mode : ℕ
  pub has_color_brightness : Bool
  pub color_brightness : ℕ
  pub has_rgb : Bool
  pub red : ℕ
  pub green : ℕ
  pub blue : ℕ
  pub has_white : Bool
  pub white : ℕ
  pub has_color_temperature : Bool
  pub color_temperature : ℕ
  pub has_cold_white : Bool
  pub cold_white : ℕ
  pub has_warm_white : Bool
  pub warm_white : ℕ
  pub has_transition_length : Bool
  pub transition_length : ℕ
  pub has_flash_length : Bool
  pub flash_length : ℕ
  pub has_effect : Bool
  pub effect : List ℕ
  pub device_id : ℕ

pub record LightRgb : Type 0 where
  pub red : ℕ
  pub green : ℕ
  pub blue : ℕ

pub record LightCommand : Type 0 where
  pub key : ℕ
  pub state : Option Bool
  pub brightness : Option ℕ
  pub color_mode : Option ℕ
  pub color_brightness : Option ℕ
  pub rgb : Option LightRgb
  pub white : Option ℕ
  pub color_temperature : Option ℕ
  pub cold_white : Option ℕ
  pub warm_white : Option ℕ
  pub transition_length : Option ℕ
  pub flash_length : Option ℕ
  pub effect : Option (List ℕ)

unfoldable pub to_message : LightCommand → LightCommandRequest
to_message cmd = record {
  key = cmd.key;
  has_state = has_value cmd.state;
  state = value_or false cmd.state;
  has_brightness = has_value cmd.brightness;
  brightness = value_or 0 cmd.brightness;
  has_color_mode = has_value cmd.color_mode;
  color_mode = value_or 0 cmd.color_mode;
  has_color_brightness = has_value cmd.color_brightness;
  color_brightness = value_or 0 cmd.color_brightness;
  has_rgb = has_value cmd.rgb;
  red = value_or 0 (Option.map (λ (c : LightRgb). c.red) cmd.rgb);
  green = value_or 0 (Option.map (λ (c : LightRgb). c.green) cmd.rgb);
  blue = value_or 0 (Option.map (λ (c : LightRgb). c.blue) cmd.rgb);
  has_white = has_value cmd.white;
  white = value_or 0 cmd.white;
  has_color_temperature = has_value cmd.color_temperature;
  color_temperature = value_or 0 cmd.color_temperature;
  has_cold_white = has_value cmd.cold_white;
  cold_white = value_or 0 cmd.cold_white;
  has_warm_white = has_value cmd.warm_white;
  warm_white = value_or 0 cmd.warm_white;
  has_transition_length = has_value cmd.transition_length;
  transition_length = value_or 0 cmd.transition_length;
  has_flash_length = has_value cmd.flash_length;
  flash_length = value_or 0 cmd.flash_length;
  has_effect = has_value cmd.effect;
  effect = value_or [] cmd.effect;
  device_id = 0;
}

-- What a device takes from a request: a value behind a flag counts when the flag is set.
unfoldable pub read_command : LightCommandRequest → LightCommand
read_command msg = record {
  key = msg.key;
  state = reading msg.has_state msg.state;
  brightness = reading msg.has_brightness msg.brightness;
  color_mode = reading msg.has_color_mode msg.color_mode;
  color_brightness = reading msg.has_color_brightness msg.color_brightness;
  rgb = reading msg.has_rgb (record { red = msg.red; green = msg.green; blue = msg.blue });
  white = reading msg.has_white msg.white;
  color_temperature = reading msg.has_color_temperature msg.color_temperature;
  cold_white = reading msg.has_cold_white msg.cold_white;
  warm_white = reading msg.has_warm_white msg.warm_white;
  transition_length = reading msg.has_transition_length msg.transition_length;
  flash_length = reading msg.has_flash_length msg.flash_length;
  effect = reading msg.has_effect msg.effect;
}

reading_rgb :
    (o : Option LightRgb)
    → reading (has_value o) (record {
      red = value_or 0 (Option.map (λ (c : LightRgb). c.red) o);
      green = value_or 0 (Option.map (λ (c : LightRgb). c.green) o);
      blue = value_or 0 (Option.map (λ (c : LightRgb). c.blue) o);
    })
      ≡ o
unfolding reading has_value value_or
reading_rgb none = refl
reading_rgb (some c) = refl

-- A device reads the command that was sent.
pub read_command-to_message : (cmd : LightCommand) → read_command (to_message cmd) ≡ cmd
unfolding read_command to_message
read_command-to_message cmd =
    rw
      (
        reading-value_or false cmd.state,
        reading-value_or 0 cmd.brightness,
        reading-value_or 0 cmd.color_mode,
        reading-value_or 0 cmd.color_brightness,
        reading_rgb cmd.rgb,
        reading-value_or 0 cmd.white,
        reading-value_or 0 cmd.color_temperature,
        reading-value_or 0 cmd.cold_white,
        reading-value_or 0 cmd.warm_white,
        reading-value_or 0 cmd.transition_length,
        reading-value_or 0 cmd.flash_length,
        reading-value_or [] cmd.effect,
      )
      refl
