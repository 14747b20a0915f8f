-- ===== src/Entities/WaterHeater.antt =====
-- include/esphome/api/model/entities/water_heater.hpp and
-- src/model/entities/water_heater.cpp, with the messages of proto/api.proto that they use.
use cpp_esphome_api.Base.{
  ℕ, bit_and, bit_or, ◌≡◌, refl, Bool, true, false, not, Option, List, arith, ◌==◌, if◌then◌else◌,
}
use cpp_esphome_api.Entities.Common.{
  EntityInfo, ListMessage, fill_entity_info, has_value, value_or, reading, reading-value_or,
}

pub record ListEntitiesWaterHeaterResponse : Type 0 where
  pub object_id : List ℕ
  pub key : ℕ
  pub name : List ℕ
  pub icon : List ℕ
  pub disabled_by_default : Bool
  pub entity_category : ℕ
  pub device_id : ℕ
  pub min_temperature : ℕ
  pub max_temperature : ℕ
  pub target_temperature_step : ℕ
  pub supported_modes : List ℕ
  pub supported_features : ℕ
  pub temperature_unit : ℕ

pub record WaterHeaterInfo : Type 0 where
  pub entity_info : EntityInfo
  pub min_temperature : ℕ
  pub max_temperature : ℕ
  pub target_temperature_step : ℕ
  pub supported_modes : List ℕ
  pub supported_features : ℕ
  pub temperature_unit : ℕ

instance abbrev pub water_heater_list : ListMessage ListEntitiesWaterHeaterResponse
water_heater_list = record {
  object_id = λ msg. msg.object_id;
  key = λ msg. msg.key;
  name = λ msg. msg.name;
  icon = λ msg. msg.icon;
  disabled_by_default = λ msg. msg.disabled_by_default;
  entity_category = λ msg. msg.entity_category;
  device_id = λ msg. msg.device_id;
}

unfoldable pub parse_water_heater_info : ListEntitiesWaterHeaterResponse → WaterHeaterInfo
parse_water_heater_info msg = record {
  entity_info = fill_entity_info msg;
  min_temperature = msg.min_temperature;
  max_temperature = msg.max_temperature;
  target_temperature_step = msg.target_temperature_step;
  supported_modes = msg.supported_modes;
  supported_features = msg.supported_features;
  temperature_unit = msg.temperature_unit;
}

pub record WaterHeaterStateResponse : Type 0 where
  pub key : ℕ
  pub current_temperature : ℕ
  pub target_temperature : ℕ
  pub mode : ℕ
  pub device_id : ℕ
  pub state : ℕ
  pub target_temperature_low : ℕ
  pub target_temperature_high : ℕ

pub record WaterHeaterState : Type 0 where
  pub key : ℕ
  pub current_temperature : ℕ
  pub target_temperature : ℕ
  pub mode : ℕ
  pub state : ℕ
  pub target_temperature_low : ℕ
  pub target_temperature_high : ℕ

unfoldable pub parse_water_heater_state : WaterHeaterStateResponse → WaterHeaterState
parse_water_heater_state msg = record {
  key = msg.key;
  current_temperature = msg.current_temperature;
  target_temperature = msg.target_temperature;
  mode = msg.mode;
  state = msg.state;
  target_temperature_low = msg.target_temperature_low;
  target_temperature_high = msg.target_temperature_high;
}

pub record WaterHeaterCommandRequest : Type 0 where
  pub key : ℕ
  pub has_fields : ℕ
  pub mode : ℕ
  pub target_temperature : ℕ
  pub device_id : ℕ
  pub state : ℕ
  pub target_temperature_low : ℕ
  pub target_temperature_high : ℕ

pub record WaterHeaterCommand : Type 0 where
  pub key : ℕ
  pub mode : Option ℕ
  pub target_temperature : Option ℕ
  pub target_temperature_low : Option ℕ
  pub target_temperature_high : Option ℕ
  pub on_state : Option Bool
  pub away_state : Option Bool

-- The flag of a value that is given.
flag : ℕ → Bool → ℕ
flag bit given = if given then bit else 0

-- The numbers of WaterHeaterCommandHasField.
unfoldable pub field_flags : Bool → Bool → Bool → Bool → Bool → Bool → ℕ
unfolding flag
field_flags mode target low high on away =
    let two = bit_or (flag 1 mode) (flag 2 target) in
    let four = bit_or (bit_or two (flag 8 low)) (flag 16 high) in
    bit_or (bit_or four (flag 32 on)) (flag 64 away)

unfoldable pub has_fields : WaterHeaterCommand → ℕ
has_fields cmd =
    field_flags (has_value cmd.mode) (has_value cmd.target_temperature)
      (has_value cmd.target_temperature_low) (has_value cmd.target_temperature_high)
      (has_value cmd.on_state) (has_value cmd.away_state)

unfoldable pub state_bits : Bool → Bool → ℕ
unfolding flag
state_bits on away = bit_or (flag 0x2 on) (flag 0x1 away)

unfoldable pub to_message : WaterHeaterCommand → WaterHeaterCommandRequest
to_message cmd = record {
  key = cmd.key;
  has_fields = has_fields cmd;
  mode = value_or 0 cmd.mode;
  target_temperature = value_or 0 cmd.target_temperature;
  device_id = 0;
  state = state_bits (value_or false cmd.on_state) (value_or false cmd.away_state);
  target_temperature_low = value_or 0 cmd.target_temperature_low;
  target_temperature_high = value_or 0 cmd.target_temperature_high;
}

unfoldable pub is_set : ℕ → ℕ → Bool
is_set bit x = not (bit_and x bit == 0)

-- What a device takes from a request: a value behind a flag counts when the flag is set.
unfoldable pub read_command : WaterHeaterCommandRequest → WaterHeaterCommand
read_command msg = record {
  key = msg.key;
  mode = reading (is_set 1 msg.has_fields) msg.mode;
  target_temperature = reading (is_set 2 msg.has_fields) msg.target_temperature;
  target_temperature_low = reading (is_set 8 msg.has_fields) msg.target_temperature_low;
  target_temperature_high = reading (is_set 16 msg.has_fields) msg.target_temperature_high;
  on_state = reading (is_set 32 msg.has_fields) (is_set 2 msg.state);
  away_state = reading (is_set 64 msg.has_fields) (is_set 1 msg.state);
}

state_bits_lem :
    (on away : Bool) → (is_set 2 (state_bits on away) ≡ on) × (is_set 1 (state_bits on away) ≡ away)
unfolding is_set state_bits
state_bits_lem true true = (refl, refl)
state_bits_lem true false = (refl, refl)
state_bits_lem false true = (refl, refl)
state_bits_lem false false = (refl, refl)

abbrev IsRead : Bool → Bool → Bool → Bool → Bool → Bool → Type 0
IsRead m t l h o a =
    (is_set 1 (field_flags m t l h o a) ≡ m)
    × (is_set 2 (field_flags m t l h o a) ≡ t)
    × (is_set 8 (field_flags m t l h o a) ≡ l)
    × (is_set 16 (field_flags m t l h o a) ≡ h)
    × (is_set 32 (field_flags m t l h o a) ≡ o)
    × (is_set 64 (field_flags m t l h o a) ≡ a)

field_flags_lem : (m t l h o a : Bool) → IsRead m t l h o a
unfolding is_set field_flags
field_flags_lem m t l h o a = ground arith

-- A device reads the command that was sent.
pub read_command-to_message : (cmd : WaterHeaterCommand) → read_command (to_message cmd) ≡ cmd
unfolding read_command to_message has_fields
read_command-to_message cmd =
    let (mode, target, low, high, on, away) =
      field_flags_lem (has_value cmd.mode) (has_value cmd.target_temperature)
        (has_value cmd.target_temperature_low) (has_value cmd.target_temperature_high)
        (has_value cmd.on_state) (has_value cmd.away_state) in
    let (is_on, is_away) =
      state_bits_lem (value_or false cmd.on_state) (value_or false cmd.away_state) in
    rw
      (
        mode,
        target,
        low,
        high,
        on,
        away,
        is_on,
        is_away,
        reading-value_or 0 cmd.mode,
        reading-value_or 0 cmd.target_temperature,
        reading-value_or 0 cmd.target_temperature_low,
        reading-value_or 0 cmd.target_temperature_high,
        reading-value_or false cmd.on_state,
        reading-value_or false cmd.away_state,
      )
      refl
