-- ===== src/EntityStore/Accessors.antt =====
-- The typed accessors of src/model/entity_store.cpp.
use cpp_esphome_api.Base.{ℕ}
use cpp_esphome_api.EntityType.{
  binary_sensor, sensor, text_sensor, switch, light, cover, fan, climate, number, select, text,
  button, lock, media_player, camera, siren, alarm_control_panel, date, time, date_time, valve,
  event, update, water_heater, infrared, radio_frequency,
}
use cpp_esphome_api.EntityStore.{EntityStore, Accessed, typed_info, typed_state}
use cpp_esphome_api.Entities.BinarySensor.{BinarySensorInfo, BinarySensorState}
use cpp_esphome_api.Entities.Sensor.{SensorInfo, SensorState}
use cpp_esphome_api.Entities.TextSensor.{TextSensorInfo, TextSensorState}
use cpp_esphome_api.Entities.Switch.{SwitchInfo, SwitchState}
use cpp_esphome_api.Entities.Light.{LightInfo, LightState}
use cpp_esphome_api.Entities.Cover.{CoverInfo, CoverState}
use cpp_esphome_api.Entities.Fan.{FanInfo, FanState}
use cpp_esphome_api.Entities.Climate.{ClimateInfo, ClimateState}
use cpp_esphome_api.Entities.Number.{NumberInfo, NumberState}
use cpp_esphome_api.Entities.Select.{SelectInfo, SelectState}
use cpp_esphome_api.Entities.Text.{TextInfo, TextState}
use cpp_esphome_api.Entities.Button.{ButtonInfo}
use cpp_esphome_api.Entities.Lock.{LockInfo, LockEntityState}
use cpp_esphome_api.Entities.MediaPlayer.{MediaPlayerInfo, MediaPlayerStatus}
use cpp_esphome_api.Entities.Camera.{CameraInfo}
use cpp_esphome_api.Entities.Siren.{SirenInfo, SirenState}
use cpp_esphome_api.Entities.AlarmControlPanel.{AlarmControlPanelInfo, AlarmControlPanelStatus}
use cpp_esphome_api.Entities.Date.{DateInfo, DateState}
use cpp_esphome_api.Entities.Time.{TimeInfo, TimeState}
use cpp_esphome_api.Entities.DateTime.{DateTimeInfo, DateTimeState}
use cpp_esphome_api.Entities.Valve.{ValveInfo, ValveState}
use cpp_esphome_api.Entities.Event.{EventInfo, EventState}
use cpp_esphome_api.Entities.Update.{UpdateInfo, UpdateState}
use cpp_esphome_api.Entities.WaterHeater.{WaterHeaterInfo, WaterHeaterState}
use cpp_esphome_api.Entities.Infrared.{InfraredInfo}
use cpp_esphome_api.Entities.RadioFrequency.{RadioFrequencyInfo}

abbrev pub binary_sensor_info : ℕ → EntityStore → Accessed BinarySensorInfo
binary_sensor_info key = typed_info binary_sensor key

abbrev pub binary_sensor_state : ℕ → EntityStore → Accessed BinarySensorState
binary_sensor_state key = typed_state binary_sensor key

abbrev pub sensor_info : ℕ → EntityStore → Accessed SensorInfo
sensor_info key = typed_info sensor key

abbrev pub sensor_state : ℕ → EntityStore → Accessed SensorState
sensor_state key = typed_state sensor key

abbrev pub text_sensor_info : ℕ → EntityStore → Accessed TextSensorInfo
text_sensor_info key = typed_info text_sensor key

abbrev pub text_sensor_state : ℕ → EntityStore → Accessed TextSensorState
text_sensor_state key = typed_state text_sensor key

abbrev pub switch_info : ℕ → EntityStore → Accessed SwitchInfo
switch_info key = typed_info switch key

abbrev pub switch_state : ℕ → EntityStore → Accessed SwitchState
switch_state key = typed_state switch key

abbrev pub light_info : ℕ → EntityStore → Accessed LightInfo
light_info key = typed_info light key

abbrev pub light_state : ℕ → EntityStore → Accessed LightState
light_state key = typed_state light key

abbrev pub cover_info : ℕ → EntityStore → Accessed CoverInfo
cover_info key = typed_info cover key

abbrev pub cover_state : ℕ → EntityStore → Accessed CoverState
cover_state key = typed_state cover key

abbrev pub fan_info : ℕ → EntityStore → Accessed FanInfo
fan_info key = typed_info fan key

abbrev pub fan_state : ℕ → EntityStore → Accessed FanState
fan_state key = typed_state fan key

abbrev pub climate_info : ℕ → EntityStore → Accessed ClimateInfo
climate_info key = typed_info climate key

abbrev pub climate_state : ℕ → EntityStore → Accessed ClimateState
climate_state key = typed_state climate key

abbrev pub number_info : ℕ → EntityStore → Accessed NumberInfo
number_info key = typed_info number key

abbrev pub number_state : ℕ → EntityStore → Accessed NumberState
number_state key = typed_state number key

abbrev pub select_info : ℕ → EntityStore → Accessed SelectInfo
select_info key = typed_info select key

abbrev pub select_state : ℕ → EntityStore → Accessed SelectState
select_state key = typed_state select key

abbrev pub text_info : ℕ → EntityStore → Accessed TextInfo
text_info key = typed_info text key

abbrev pub text_state : ℕ → EntityStore → Accessed TextState
text_state key = typed_state text key

abbrev pub button_info : ℕ → EntityStore → Accessed ButtonInfo
button_info key = typed_info button key

abbrev pub lock_info : ℕ → EntityStore → Accessed LockInfo
lock_info key = typed_info lock key

abbrev pub lock_state : ℕ → EntityStore → Accessed LockEntityState
lock_state key = typed_state lock key

abbrev pub media_player_info : ℕ → EntityStore → Accessed MediaPlayerInfo
media_player_info key = typed_info media_player key

abbrev pub media_player_state : ℕ → EntityStore → Accessed MediaPlayerStatus
media_player_state key = typed_state media_player key

abbrev pub camera_info : ℕ → EntityStore → Accessed CameraInfo
camera_info key = typed_info camera key

abbrev pub siren_info : ℕ → EntityStore → Accessed SirenInfo
siren_info key = typed_info siren key

abbrev pub siren_state : ℕ → EntityStore → Accessed SirenState
siren_state key = typed_state siren key

abbrev pub alarm_control_panel_info : ℕ → EntityStore → Accessed AlarmControlPanelInfo
alarm_control_panel_info key = typed_info alarm_control_panel key

abbrev pub alarm_control_panel_state : ℕ → EntityStore → Accessed AlarmControlPanelStatus
alarm_control_panel_state key = typed_state alarm_control_panel key

abbrev pub date_info : ℕ → EntityStore → Accessed DateInfo
date_info key = typed_info date key

abbrev pub date_state : ℕ → EntityStore → Accessed DateState
date_state key = typed_state date key

abbrev pub time_info : ℕ → EntityStore → Accessed TimeInfo
time_info key = typed_info time key

abbrev pub time_state : ℕ → EntityStore → Accessed TimeState
time_state key = typed_state time key

abbrev pub datetime_info : ℕ → EntityStore → Accessed DateTimeInfo
datetime_info key = typed_info date_time key

abbrev pub datetime_state : ℕ → EntityStore → Accessed DateTimeState
datetime_state key = typed_state date_time key

abbrev pub valve_info : ℕ → EntityStore → Accessed ValveInfo
valve_info key = typed_info valve key

abbrev pub valve_state : ℕ → EntityStore → Accessed ValveState
valve_state key = typed_state valve key

abbrev pub event_info : ℕ → EntityStore → Accessed EventInfo
event_info key = typed_info event key

abbrev pub event_state : ℕ → EntityStore → Accessed EventState
event_state key = typed_state event key

abbrev pub update_info : ℕ → EntityStore → Accessed UpdateInfo
update_info key = typed_info update key

abbrev pub update_state : ℕ → EntityStore → Accessed UpdateState
update_state key = typed_state update key

abbrev pub water_heater_info : ℕ → EntityStore → Accessed WaterHeaterInfo
water_heater_info key = typed_info water_heater key

abbrev pub water_heater_state : ℕ → EntityStore → Accessed WaterHeaterState
water_heater_state key = typed_state water_heater key

abbrev pub infrared_info : ℕ → EntityStore → Accessed InfraredInfo
infrared_info key = typed_info infrared key

abbrev pub radio_frequency_info : ℕ → EntityStore → Accessed RadioFrequencyInfo
radio_frequency_info key = typed_info radio_frequency key
