-- ===== src/Entities/Classes/Domains.antt =====
-- The families of the domains, one domain after the other.
use cpp_esphome_api.Base.{◌≡◌, refl, some}
use cpp_esphome_api.EntityType.{
  EntityType, unknown, binary_sensor, sensor, text_sensor, switch, light, cover, fan, climate,
  number, select, text, button, lock, media_player, camera, siren, alarm_control_panel, date, time,
  date_time, valve, event, update, water_heater, infrared, radio_frequency,
}
use cpp_esphome_api.Entities.Common.{EntityInfo, or_from_name, fill_entity_info}
use cpp_esphome_api.Entities.Classes.{
  ListResponse, StateResponse, list_response, state_response, InfoResponseBase, info_base,
}
use cpp_esphome_api.Entities.Casts.{parse_info, base_info, cast_list, cast_state}
use cpp_esphome_api.Entities.BinarySensor.{parse_binary_sensor_info}
use cpp_esphome_api.Entities.Sensor.{parse_sensor_info}
use cpp_esphome_api.Entities.TextSensor.{parse_text_sensor_info}
use cpp_esphome_api.Entities.Switch.{parse_switch_info}
use cpp_esphome_api.Entities.Light.{parse_light_info}
use cpp_esphome_api.Entities.Cover.{parse_cover_info}
use cpp_esphome_api.Entities.Fan.{parse_fan_info}
use cpp_esphome_api.Entities.Climate.{parse_climate_info}
use cpp_esphome_api.Entities.Number.{parse_number_info}
use cpp_esphome_api.Entities.Select.{parse_select_info}
use cpp_esphome_api.Entities.Text.{parse_text_info}
use cpp_esphome_api.Entities.Button.{parse_button_info}
use cpp_esphome_api.Entities.Lock.{parse_lock_info}
use cpp_esphome_api.Entities.MediaPlayer.{parse_media_player_info}
use cpp_esphome_api.Entities.Camera.{parse_camera_info}
use cpp_esphome_api.Entities.Siren.{parse_siren_info}
use cpp_esphome_api.Entities.AlarmControlPanel.{parse_alarm_control_panel_info}
use cpp_esphome_api.Entities.Date.{parse_date_info}
use cpp_esphome_api.Entities.Time.{parse_time_info}
use cpp_esphome_api.Entities.DateTime.{parse_datetime_info}
use cpp_esphome_api.Entities.Valve.{parse_valve_info}
use cpp_esphome_api.Entities.Event.{parse_event_info}
use cpp_esphome_api.Entities.Update.{parse_update_info}
use cpp_esphome_api.Entities.WaterHeater.{parse_water_heater_info}
use cpp_esphome_api.Entities.Infrared.{parse_infrared_info}
use cpp_esphome_api.Entities.RadioFrequency.{parse_radio_frequency_info}

-- A message is cast to its own class.
pub cast_list-list_response :
    (t : EntityType) (msg : ListResponse t) → cast_list t (list_response t msg) ≡ some msg
unfolding cast_list
cast_list-list_response binary_sensor msg = refl
cast_list-list_response sensor msg = refl
cast_list-list_response text_sensor msg = refl
cast_list-list_response switch msg = refl
cast_list-list_response light msg = refl
cast_list-list_response cover msg = refl
cast_list-list_response fan msg = refl
cast_list-list_response climate msg = refl
cast_list-list_response number msg = refl
cast_list-list_response select msg = refl
cast_list-list_response text msg = refl
cast_list-list_response button msg = refl
cast_list-list_response lock msg = refl
cast_list-list_response media_player msg = refl
cast_list-list_response camera msg = refl
cast_list-list_response siren msg = refl
cast_list-list_response alarm_control_panel msg = refl
cast_list-list_response date msg = refl
cast_list-list_response time msg = refl
cast_list-list_response date_time msg = refl
cast_list-list_response valve msg = refl
cast_list-list_response event msg = refl
cast_list-list_response update msg = refl
cast_list-list_response water_heater msg = refl
cast_list-list_response infrared msg = refl
cast_list-list_response radio_frequency msg = refl
cast_list-list_response unknown msg = elim msg [ ]

pub cast_state-state_response :
    (t : EntityType) (msg : StateResponse t) → cast_state t (state_response t msg) ≡ some msg
unfolding cast_state
cast_state-state_response binary_sensor msg = refl
cast_state-state_response sensor msg = refl
cast_state-state_response text_sensor msg = refl
cast_state-state_response switch msg = refl
cast_state-state_response light msg = refl
cast_state-state_response cover msg = refl
cast_state-state_response fan msg = refl
cast_state-state_response climate msg = refl
cast_state-state_response number msg = refl
cast_state-state_response select msg = refl
cast_state-state_response text msg = refl
cast_state-state_response lock msg = refl
cast_state-state_response media_player msg = refl
cast_state-state_response siren msg = refl
cast_state-state_response alarm_control_panel msg = refl
cast_state-state_response date msg = refl
cast_state-state_response time msg = refl
cast_state-state_response date_time msg = refl
cast_state-state_response valve msg = refl
cast_state-state_response event msg = refl
cast_state-state_response update msg = refl
cast_state-state_response water_heater msg = refl
cast_state-state_response unknown msg = elim msg [ ]
cast_state-state_response button msg = elim msg [ ]
cast_state-state_response camera msg = elim msg [ ]
cast_state-state_response infrared msg = elim msg [ ]
cast_state-state_response radio_frequency msg = elim msg [ ]

-- A parsed description has the key, the name and the id of its message, or the id that its name gives.
unfoldable pub SameBase : InfoResponseBase → EntityInfo → Type 0
SameBase b i = (i.key ≡ b.key) × (i.name ≡ b.name) × (i.object_id ≡ or_from_name b.object_id b.name)

pub base_info-parse_info :
    (t : EntityType) (msg : ListResponse t)
    → SameBase (info_base t msg) (base_info t (parse_info t msg))
unfolding SameBase base_info info_base parse_info fill_entity_info parse_binary_sensor_info
    parse_sensor_info parse_text_sensor_info parse_switch_info parse_light_info parse_cover_info
    parse_fan_info parse_climate_info parse_number_info parse_select_info parse_text_info
    parse_button_info parse_lock_info parse_media_player_info parse_camera_info parse_siren_info
    parse_alarm_control_panel_info parse_date_info parse_time_info parse_datetime_info
    parse_valve_info parse_event_info parse_update_info parse_water_heater_info parse_infrared_info
    parse_radio_frequency_info
base_info-parse_info binary_sensor msg = (refl, refl, refl)
base_info-parse_info sensor msg = (refl, refl, refl)
base_info-parse_info text_sensor msg = (refl, refl, refl)
base_info-parse_info switch msg = (refl, refl, refl)
base_info-parse_info light msg = (refl, refl, refl)
base_info-parse_info cover msg = (refl, refl, refl)
base_info-parse_info fan msg = (refl, refl, refl)
base_info-parse_info climate msg = (refl, refl, refl)
base_info-parse_info number msg = (refl, refl, refl)
base_info-parse_info select msg = (refl, refl, refl)
base_info-parse_info text msg = (refl, refl, refl)
base_info-parse_info button msg = (refl, refl, refl)
base_info-parse_info lock msg = (refl, refl, refl)
base_info-parse_info media_player msg = (refl, refl, refl)
base_info-parse_info camera msg = (refl, refl, refl)
base_info-parse_info siren msg = (refl, refl, refl)
base_info-parse_info alarm_control_panel msg = (refl, refl, refl)
base_info-parse_info date msg = (refl, refl, refl)
base_info-parse_info time msg = (refl, refl, refl)
base_info-parse_info date_time msg = (refl, refl, refl)
base_info-parse_info valve msg = (refl, refl, refl)
base_info-parse_info event msg = (refl, refl, refl)
base_info-parse_info update msg = (refl, refl, refl)
base_info-parse_info water_heater msg = (refl, refl, refl)
base_info-parse_info infrared msg = (refl, refl, refl)
base_info-parse_info radio_frequency msg = (refl, refl, refl)
base_info-parse_info unknown msg = elim msg [ ]
