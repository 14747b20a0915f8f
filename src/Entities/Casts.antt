-- ===== src/Entities/Casts.antt =====
-- The parsers of the domains as one function over the domain, and the casts of a message to a class.
use cpp_esphome_api.Base.{Option, none, some}
use cpp_esphome_api.EntityType.{
  EntityType, unknown, binary_sensor, sensor, text_sensor, switch, light, cover, fan, climate,
  number, select, text, button, lock, media_player, camera, siren, alarm_control_panel, date, time,
  date_time, valve, event, update, water_heater, infrared, radio_frequency,
}
use cpp_esphome_api.Entities.Common.{EntityInfo}
use cpp_esphome_api.Entities.BinarySensor.{parse_binary_sensor_info, parse_binary_sensor_state}
use cpp_esphome_api.Entities.Sensor.{parse_sensor_info, parse_sensor_state}
use cpp_esphome_api.Entities.TextSensor.{parse_text_sensor_info, parse_text_sensor_state}
use cpp_esphome_api.Entities.Switch.{parse_switch_info, parse_switch_state}
use cpp_esphome_api.Entities.Light.{parse_light_info, parse_light_state}
use cpp_esphome_api.Entities.Cover.{parse_cover_info, parse_cover_state}
use cpp_esphome_api.Entities.Fan.{parse_fan_info, parse_fan_state}
use cpp_esphome_api.Entities.Climate.{parse_climate_info, parse_climate_state}
use cpp_esphome_api.Entities.Number.{parse_number_info, parse_number_state}
use cpp_esphome_api.Entities.Select.{parse_select_info, parse_select_state}
use cpp_esphome_api.Entities.Text.{parse_text_info, parse_text_state}
use cpp_esphome_api.Entities.Button.{parse_button_info}
use cpp_esphome_api.Entities.Lock.{parse_lock_info, parse_lock_state}
use cpp_esphome_api.Entities.MediaPlayer.{parse_media_player_info, parse_media_player_state}
use cpp_esphome_api.Entities.Camera.{parse_camera_info}
use cpp_esphome_api.Entities.Siren.{parse_siren_info, parse_siren_state}
use cpp_esphome_api.Entities.AlarmControlPanel.{
  parse_alarm_control_panel_info, parse_alarm_control_panel_state,
}
use cpp_esphome_api.Entities.Date.{parse_date_info, parse_date_state}
use cpp_esphome_api.Entities.Time.{parse_time_info, parse_time_state}
use cpp_esphome_api.Entities.DateTime.{parse_datetime_info, parse_datetime_state}
use cpp_esphome_api.Entities.Valve.{parse_valve_info, parse_valve_state}
use cpp_esphome_api.Entities.Event.{parse_event_info, parse_event_state}
use cpp_esphome_api.Entities.Update.{parse_update_info, parse_update_state}
use cpp_esphome_api.Entities.WaterHeater.{parse_water_heater_info, parse_water_heater_state}
use cpp_esphome_api.Entities.Infrared.{parse_infrared_info}
use cpp_esphome_api.Entities.RadioFrequency.{parse_radio_frequency_info}
use cpp_esphome_api.Entities.Classes.{
  ListResponse, StateResponse, Info, State, ProtoMessage, list_response, state_response,
}

unfoldable pub parse_info : (t : EntityType) → ListResponse t → Info t
parse_info binary_sensor msg = parse_binary_sensor_info msg
parse_info sensor msg = parse_sensor_info msg
parse_info text_sensor msg = parse_text_sensor_info msg
parse_info switch msg = parse_switch_info msg
parse_info light msg = parse_light_info msg
parse_info cover msg = parse_cover_info msg
parse_info fan msg = parse_fan_info msg
parse_info climate msg = parse_climate_info msg
parse_info number msg = parse_number_info msg
parse_info select msg = parse_select_info msg
parse_info text msg = parse_text_info msg
parse_info button msg = parse_button_info msg
parse_info lock msg = parse_lock_info msg
parse_info media_player msg = parse_media_player_info msg
parse_info camera msg = parse_camera_info msg
parse_info siren msg = parse_siren_info msg
parse_info alarm_control_panel msg = parse_alarm_control_panel_info msg
parse_info date msg = parse_date_info msg
parse_info time msg = parse_time_info msg
parse_info date_time msg = parse_datetime_info msg
parse_info valve msg = parse_valve_info msg
parse_info event msg = parse_event_info msg
parse_info update msg = parse_update_info msg
parse_info water_heater msg = parse_water_heater_info msg
parse_info infrared msg = parse_infrared_info msg
parse_info radio_frequency msg = parse_radio_frequency_info msg
parse_info unknown msg = elim msg [ ]

unfoldable pub parse_state : (t : EntityType) → StateResponse t → State t
parse_state binary_sensor msg = parse_binary_sensor_state msg
parse_state sensor msg = parse_sensor_state msg
parse_state text_sensor msg = parse_text_sensor_state msg
parse_state switch msg = parse_switch_state msg
parse_state light msg = parse_light_state msg
parse_state cover msg = parse_cover_state msg
parse_state fan msg = parse_fan_state msg
parse_state climate msg = parse_climate_state msg
parse_state number msg = parse_number_state msg
parse_state select msg = parse_select_state msg
parse_state text msg = parse_text_state msg
parse_state lock msg = parse_lock_state msg
parse_state media_player msg = parse_media_player_state msg
parse_state siren msg = parse_siren_state msg
parse_state alarm_control_panel msg = parse_alarm_control_panel_state msg
parse_state date msg = parse_date_state msg
parse_state time msg = parse_time_state msg
parse_state date_time msg = parse_datetime_state msg
parse_state valve msg = parse_valve_state msg
parse_state event msg = parse_event_state msg
parse_state update msg = parse_update_state msg
parse_state water_heater msg = parse_water_heater_state msg
parse_state unknown msg = elim msg [ ]
parse_state button msg = elim msg [ ]
parse_state camera msg = elim msg [ ]
parse_state infrared msg = elim msg [ ]
parse_state radio_frequency msg = elim msg [ ]

-- The EntityInfo that an XInfo derives from.
unfoldable pub base_info : (t : EntityType) → Info t → EntityInfo
base_info binary_sensor info = info.entity_info
base_info sensor info = info.entity_info
base_info text_sensor info = info.entity_info
base_info switch info = info.entity_info
base_info light info = info.entity_info
base_info cover info = info.entity_info
base_info fan info = info.entity_info
base_info climate info = info.entity_info
base_info number info = info.entity_info
base_info select info = info.entity_info
base_info text info = info.entity_info
base_info button info = info.entity_info
base_info lock info = info.entity_info
base_info media_player info = info.entity_info
base_info camera info = info.entity_info
base_info siren info = info.entity_info
base_info alarm_control_panel info = info.entity_info
base_info date info = info.entity_info
base_info time info = info.entity_info
base_info date_time info = info.entity_info
base_info valve info = info.entity_info
base_info event info = info.entity_info
base_info update info = info.entity_info
base_info water_heater info = info.entity_info
base_info infrared info = info.entity_info
base_info radio_frequency info = info.entity_info
base_info unknown info = elim info [ ]

-- A `static_cast` to a class of the domain; `none` where the message is of another class.
unfoldable pub cast_list : (t : EntityType) → ProtoMessage → Option (ListResponse t)
cast_list binary_sensor (list_response binary_sensor msg) = some msg
cast_list sensor (list_response sensor msg) = some msg
cast_list text_sensor (list_response text_sensor msg) = some msg
cast_list switch (list_response switch msg) = some msg
cast_list light (list_response light msg) = some msg
cast_list cover (list_response cover msg) = some msg
cast_list fan (list_response fan msg) = some msg
cast_list climate (list_response climate msg) = some msg
cast_list number (list_response number msg) = some msg
cast_list select (list_response select msg) = some msg
cast_list text (list_response text msg) = some msg
cast_list button (list_response button msg) = some msg
cast_list lock (list_response lock msg) = some msg
cast_list media_player (list_response media_player msg) = some msg
cast_list camera (list_response camera msg) = some msg
cast_list siren (list_response siren msg) = some msg
cast_list alarm_control_panel (list_response alarm_control_panel msg) = some msg
cast_list date (list_response date msg) = some msg
cast_list time (list_response time msg) = some msg
cast_list date_time (list_response date_time msg) = some msg
cast_list valve (list_response valve msg) = some msg
cast_list event (list_response event msg) = some msg
cast_list update (list_response update msg) = some msg
cast_list water_heater (list_response water_heater msg) = some msg
cast_list infrared (list_response infrared msg) = some msg
cast_list radio_frequency (list_response radio_frequency msg) = some msg
cast_list _ _ = none

unfoldable pub cast_state : (t : EntityType) → ProtoMessage → Option (StateResponse t)
cast_state binary_sensor (state_response binary_sensor msg) = some msg
cast_state sensor (state_response sensor msg) = some msg
cast_state text_sensor (state_response text_sensor msg) = some msg
cast_state switch (state_response switch msg) = some msg
cast_state light (state_response light msg) = some msg
cast_state cover (state_response cover msg) = some msg
cast_state fan (state_response fan msg) = some msg
cast_state climate (state_response climate msg) = some msg
cast_state number (state_response number msg) = some msg
cast_state select (state_response select msg) = some msg
cast_state text (state_response text msg) = some msg
cast_state lock (state_response lock msg) = some msg
cast_state media_player (state_response media_player msg) = some msg
cast_state siren (state_response siren msg) = some msg
cast_state alarm_control_panel (state_response alarm_control_panel msg) = some msg
cast_state date (state_response date msg) = some msg
cast_state time (state_response time msg) = some msg
cast_state date_time (state_response date_time msg) = some msg
cast_state valve (state_response valve msg) = some msg
cast_state event (state_response event msg) = some msg
cast_state update (state_response update msg) = some msg
cast_state water_heater (state_response water_heater msg) = some msg
cast_state _ _ = none
