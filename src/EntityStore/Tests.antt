-- ===== src/EntityStore/Tests.antt =====
-- The entity store and the requests at concrete inputs.
use cpp_esphome_api.Base.{ℕ, ◌≡◌, refl, ◌≢◌, ◌⊎◌, true, false, none, some, List, [], ◌∷◌, All}
use cpp_esphome_api.EntityType.{
  EntityType, sensor, switch, light, entity_type_from_token, find_token,
}
use cpp_esphome_api.Entities.Common.{object_id_from_name}
use cpp_esphome_api.Entities.ObjectId.{IdOf, IsIdChar, object_id_from_name-IdOf}
use cpp_esphome_api.Entities.Switch.{ListEntitiesSwitchResponse, SwitchStateResponse}
use cpp_esphome_api.Entities.Sensor.{ListEntitiesSensorResponse}
use cpp_esphome_api.Entities.Light.{LightCommand}
use cpp_esphome_api.Entities.Commands.{to_message, read_command, read_command-to_message}
use cpp_esphome_api.Entities.Classes.{
  ProtoMessage, list_response, state_response, other, message_name, info_base, state_key, as_info,
  as_state,
}
use cpp_esphome_api.Entities.Casts.{cast_state}
use cpp_esphome_api.EntityStore.{
  wrong_class, absent, find, typed_info, typed_state, StoredEntity, ingest, is_list, is_event,
  is_state, ends_with, state_token, list_token, ingest_list, ingest_state, with_info, with_state,
  is_type, modify, lookup, entity_state, state_of, parsed,
}
use cpp_esphome_api.EntityStore.Accessors.{sensor_state}
use cpp_esphome_api.EntityStore.Latest.{run, view, see_all, about, find-run}
use cpp_esphome_api.EntityStore.Entries.{Agrees, AllAgree}
use cpp_esphome_api.EntityStore.Domains.{IsOwn, after, run-typed}

-- A switch "A b", and its state.
abbrev relay : ListEntitiesSwitchResponse
relay = record {
  object_id = [];
  key = 7;
  name = 65 ∷ 32 ∷ 98 ∷ [];
  icon = [];
  assumed_state = false;
  disabled_by_default = false;
  entity_category = 0;
  device_class = [];
  device_id = 0;
}

abbrev relay_on : SwitchStateResponse
relay_on = record { key = 7; state = true; device_id = 0 }

abbrev traffic : List ProtoMessage
traffic = list_response switch relay ∷ other "PingRequest" ∷ state_response switch relay_on ∷ []

abbrev always_switch : ℕ → EntityType
always_switch key = switch

traffic_agrees : AllAgree always_switch traffic
unfolding AllAgree Agrees
traffic_agrees = (refl, (_, (refl, _)))

run-typed_example :
    (typed_state switch 7 (after traffic true) ≢ wrong_class)
    × ((typed_info switch 7 (after traffic true) ≡ absent)
        ⊎ ((e : StoredEntity) × (find 7 (after traffic true) ≡ some e)
            × IsOwn switch e (typed_info switch 7 (after traffic true))))
run-typed_example = run-typed always_switch traffic true switch 7 traffic_agrees

find-run_example :
    view (find 7 (run traffic (after [] false)))
    ≡ see_all (about 7 traffic) (view (find 7 (after [] false)))
find-run_example = find-run 7 traffic (after [] false)

-- The same key as a sensor, in a device whose configuration has changed.
abbrev probe : ListEntitiesSensorResponse
probe = record {
  object_id = [];
  key = 7;
  name = 65 ∷ [];
  icon = [];
  unit_of_measurement = [];
  accuracy_decimals = 0;
  force_update = false;
  device_class = [];
  state_class = 0;
  legacy_last_reset_type = 0;
  disabled_by_default = false;
  entity_category = 0;
  device_id = 0;
}

-- Then `sensor_state` casts the switch's state to a sensor's.
sensor_state-wrong_class :
    sensor_state 7 (after (state_response switch relay_on ∷ list_response sensor probe ∷ []) false)
    ≡ wrong_class
unfolding run ingest message_name is_list is_event is_state ends_with state_token list_token
    entity_type_from_token find_token as_info as_state info_base state_key ingest_list ingest_state
    with_info with_state is_type modify lookup find typed_state entity_state state_of parsed
    cast_state
sensor_state-wrong_class = refl

abbrev dim : LightCommand
dim = record {
  key = 3;
  state = some true;
  brightness = some 1056964608;
  color_mode = none;
  color_brightness = none;
  rgb = some (record { red = 0; green = 0; blue = 0 });
  white = none;
  color_temperature = none;
  cold_white = none;
  warm_white = none;
  transition_length = none;
  flash_length = none;
  effect = some [];
}

read_command-to_message_example : read_command light (to_message light dim) ≡ dim
read_command-to_message_example = read_command-to_message light dim

object_id_from_name-IdOf_example :
    IdOf (65 ∷ 32 ∷ 195 ∷ 98 ∷ []) (object_id_from_name (65 ∷ 32 ∷ 195 ∷ 98 ∷ []))
    × All IsIdChar (object_id_from_name (65 ∷ 32 ∷ 195 ∷ 98 ∷ []))
    × (object_id_from_name (object_id_from_name (65 ∷ 32 ∷ 195 ∷ 98 ∷ []))
        ≡ object_id_from_name (65 ∷ 32 ∷ 195 ∷ 98 ∷ []))
object_id_from_name-IdOf_example = object_id_from_name-IdOf (65 ∷ 32 ∷ 195 ∷ 98 ∷ [])
