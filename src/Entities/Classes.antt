-- ===== src/Entities/Classes.antt =====
-- The message classes and typed values of the entity domains as families over the domain, and the
-- messages that the entity store tells apart. The classes are generated by the build from
-- proto/api.proto: their names, bases and fields are the ones given there.
pub mod Domains
use cpp_esphome_api.Base.{ℕ, Option, none, some, List}
use Prim.Native.String.{String}
use cpp_esphome_api.EntityType.{
  EntityType, unknown, binary_sensor, sensor, text_sensor, switch, light, cover, fan, climate,
  number, select, text, button, lock, media_player, camera, siren, alarm_control_panel, date, time,
  date_time, valve, event, update, water_heater, infrared, radio_frequency,
}
use cpp_esphome_api.Entities.BinarySensor.{
  BinarySensorInfo, ListEntitiesBinarySensorResponse, BinarySensorState, BinarySensorStateResponse,
}
use cpp_esphome_api.Entities.Sensor.{
  SensorInfo, ListEntitiesSensorResponse, SensorState, SensorStateResponse,
}
use cpp_esphome_api.Entities.TextSensor.{
  TextSensorInfo, ListEntitiesTextSensorResponse, TextSensorState, TextSensorStateResponse,
}
use cpp_esphome_api.Entities.Switch.{
  SwitchInfo, ListEntitiesSwitchResponse, SwitchState, SwitchStateResponse,
}
use cpp_esphome_api.Entities.Light.{
  LightInfo, ListEntitiesLightResponse, LightState, LightStateResponse,
}
use cpp_esphome_api.Entities.Cover.{
  CoverInfo, ListEntitiesCoverResponse, CoverState, CoverStateResponse,
}
use cpp_esphome_api.Entities.Fan.{FanInfo, ListEntitiesFanResponse, FanState, FanStateResponse}
use cpp_esphome_api.Entities.Climate.{
  ClimateInfo, ListEntitiesClimateResponse, ClimateState, ClimateStateResponse,
}
use cpp_esphome_api.Entities.Number.{
  NumberInfo, ListEntitiesNumberResponse, NumberState, NumberStateResponse,
}
use cpp_esphome_api.Entities.Select.{
  SelectInfo, ListEntitiesSelectResponse, SelectState, SelectStateResponse,
}
use cpp_esphome_api.Entities.Text.{TextInfo, ListEntitiesTextResponse, TextState, TextStateResponse}
use cpp_esphome_api.Entities.Button.{ButtonInfo, ListEntitiesButtonResponse}
use cpp_esphome_api.Entities.Lock.{
  LockInfo, ListEntitiesLockResponse, LockEntityState, LockStateResponse,
}
use cpp_esphome_api.Entities.MediaPlayer.{
  MediaPlayerInfo, ListEntitiesMediaPlayerResponse, MediaPlayerStatus, MediaPlayerStateResponse,
}
use cpp_esphome_api.Entities.Camera.{CameraInfo, ListEntitiesCameraResponse}
use cpp_esphome_api.Entities.Siren.{
  SirenInfo, ListEntitiesSirenResponse, SirenState, SirenStateResponse,
}
use cpp_esphome_api.Entities.AlarmControlPanel.{
  AlarmControlPanelInfo, ListEntitiesAlarmControlPanelResponse, AlarmControlPanelStatus,
  AlarmControlPanelStateResponse,
}
use cpp_esphome_api.Entities.Date.{DateInfo, ListEntitiesDateResponse, DateState, DateStateResponse}
use cpp_esphome_api.Entities.Time.{TimeInfo, ListEntitiesTimeResponse, TimeState, TimeStateResponse}
use cpp_esphome_api.Entities.DateTime.{
  DateTimeInfo, ListEntitiesDateTimeResponse, DateTimeState, DateTimeStateResponse,
}
use cpp_esphome_api.Entities.Valve.{
  ValveInfo, ListEntitiesValveResponse, ValveState, ValveStateResponse,
}
use cpp_esphome_api.Entities.Event.{EventInfo, ListEntitiesEventResponse, EventState, EventResponse}
use cpp_esphome_api.Entities.Update.{
  UpdateInfo, ListEntitiesUpdateResponse, UpdateState, UpdateStateResponse,
}
use cpp_esphome_api.Entities.WaterHeater.{
  WaterHeaterInfo, ListEntitiesWaterHeaterResponse, WaterHeaterState, WaterHeaterStateResponse,
}
use cpp_esphome_api.Entities.Infrared.{InfraredInfo, ListEntitiesInfraredResponse}
use cpp_esphome_api.Entities.RadioFrequency.{RadioFrequencyInfo, ListEntitiesRadioFrequencyResponse}

-- ListEntitiesXResponse of the domain X.
abbrev pub ListResponse : EntityType → Type 0
ListResponse binary_sensor = ListEntitiesBinarySensorResponse
ListResponse sensor = ListEntitiesSensorResponse
ListResponse text_sensor = ListEntitiesTextSensorResponse
ListResponse switch = ListEntitiesSwitchResponse
ListResponse light = ListEntitiesLightResponse
ListResponse cover = ListEntitiesCoverResponse
ListResponse fan = ListEntitiesFanResponse
ListResponse climate = ListEntitiesClimateResponse
ListResponse number = ListEntitiesNumberResponse
ListResponse select = ListEntitiesSelectResponse
ListResponse text = ListEntitiesTextResponse
ListResponse button = ListEntitiesButtonResponse
ListResponse lock = ListEntitiesLockResponse
ListResponse media_player = ListEntitiesMediaPlayerResponse
ListResponse camera = ListEntitiesCameraResponse
ListResponse siren = ListEntitiesSirenResponse
ListResponse alarm_control_panel = ListEntitiesAlarmControlPanelResponse
ListResponse date = ListEntitiesDateResponse
ListResponse time = ListEntitiesTimeResponse
ListResponse date_time = ListEntitiesDateTimeResponse
ListResponse valve = ListEntitiesValveResponse
ListResponse event = ListEntitiesEventResponse
ListResponse update = ListEntitiesUpdateResponse
ListResponse water_heater = ListEntitiesWaterHeaterResponse
ListResponse infrared = ListEntitiesInfraredResponse
ListResponse radio_frequency = ListEntitiesRadioFrequencyResponse
ListResponse _ = ⊥

-- XStateResponse of a domain that has one; EventResponse for events.
abbrev pub StateResponse : EntityType → Type 0
StateResponse binary_sensor = BinarySensorStateResponse
StateResponse sensor = SensorStateResponse
StateResponse text_sensor = TextSensorStateResponse
StateResponse switch = SwitchStateResponse
StateResponse light = LightStateResponse
StateResponse cover = CoverStateResponse
StateResponse fan = FanStateResponse
StateResponse climate = ClimateStateResponse
StateResponse number = NumberStateResponse
StateResponse select = SelectStateResponse
StateResponse text = TextStateResponse
StateResponse lock = LockStateResponse
StateResponse media_player = MediaPlayerStateResponse
StateResponse siren = SirenStateResponse
StateResponse alarm_control_panel = AlarmControlPanelStateResponse
StateResponse date = DateStateResponse
StateResponse time = TimeStateResponse
StateResponse date_time = DateTimeStateResponse
StateResponse valve = ValveStateResponse
StateResponse event = EventResponse
StateResponse update = UpdateStateResponse
StateResponse water_heater = WaterHeaterStateResponse
StateResponse _ = ⊥

-- XInfo.
abbrev pub Info : EntityType → Type 0
Info binary_sensor = BinarySensorInfo
Info sensor = SensorInfo
Info text_sensor = TextSensorInfo
Info switch = SwitchInfo
Info light = LightInfo
Info cover = CoverInfo
Info fan = FanInfo
Info climate = ClimateInfo
Info number = NumberInfo
Info select = SelectInfo
Info text = TextInfo
Info button = ButtonInfo
Info lock = LockInfo
Info media_player = MediaPlayerInfo
Info camera = CameraInfo
Info siren = SirenInfo
Info alarm_control_panel = AlarmControlPanelInfo
Info date = DateInfo
Info time = TimeInfo
Info date_time = DateTimeInfo
Info valve = ValveInfo
Info event = EventInfo
Info update = UpdateInfo
Info water_heater = WaterHeaterInfo
Info infrared = InfraredInfo
Info radio_frequency = RadioFrequencyInfo
Info _ = ⊥

-- What an X reports.
abbrev pub State : EntityType → Type 0
State binary_sensor = BinarySensorState
State sensor = SensorState
State text_sensor = TextSensorState
State switch = SwitchState
State light = LightState
State cover = CoverState
State fan = FanState
State climate = ClimateState
State number = NumberState
State select = SelectState
State text = TextState
State lock = LockEntityState
State media_player = MediaPlayerStatus
State siren = SirenState
State alarm_control_panel = AlarmControlPanelStatus
State date = DateState
State time = TimeState
State date_time = DateTimeState
State valve = ValveState
State event = EventState
State update = UpdateState
State water_heater = WaterHeaterState
State _ = ⊥

-- A message by its class; `other` is a message of any other class, by its name.
pub data ProtoMessage : Type 0 where
  list_response : (t : EntityType) → ListResponse t → ProtoMessage
  state_response : (t : EntityType) → StateResponse t → ProtoMessage
  other : String → ProtoMessage

unfoldable pub message_name : ProtoMessage → String
message_name (list_response binary_sensor msg) = "ListEntitiesBinarySensorResponse"
message_name (list_response sensor msg) = "ListEntitiesSensorResponse"
message_name (list_response text_sensor msg) = "ListEntitiesTextSensorResponse"
message_name (list_response switch msg) = "ListEntitiesSwitchResponse"
message_name (list_response light msg) = "ListEntitiesLightResponse"
message_name (list_response cover msg) = "ListEntitiesCoverResponse"
message_name (list_response fan msg) = "ListEntitiesFanResponse"
message_name (list_response climate msg) = "ListEntitiesClimateResponse"
message_name (list_response number msg) = "ListEntitiesNumberResponse"
message_name (list_response select msg) = "ListEntitiesSelectResponse"
message_name (list_response text msg) = "ListEntitiesTextResponse"
message_name (list_response button msg) = "ListEntitiesButtonResponse"
message_name (list_response lock msg) = "ListEntitiesLockResponse"
message_name (list_response media_player msg) = "ListEntitiesMediaPlayerResponse"
message_name (list_response camera msg) = "ListEntitiesCameraResponse"
message_name (list_response siren msg) = "ListEntitiesSirenResponse"
message_name (list_response alarm_control_panel msg) = "ListEntitiesAlarmControlPanelResponse"
message_name (list_response date msg) = "ListEntitiesDateResponse"
message_name (list_response time msg) = "ListEntitiesTimeResponse"
message_name (list_response date_time msg) = "ListEntitiesDateTimeResponse"
message_name (list_response valve msg) = "ListEntitiesValveResponse"
message_name (list_response event msg) = "ListEntitiesEventResponse"
message_name (list_response update msg) = "ListEntitiesUpdateResponse"
message_name (list_response water_heater msg) = "ListEntitiesWaterHeaterResponse"
message_name (list_response infrared msg) = "ListEntitiesInfraredResponse"
message_name (list_response radio_frequency msg) = "ListEntitiesRadioFrequencyResponse"
message_name (list_response unknown msg) = elim msg [ ]
message_name (state_response binary_sensor msg) = "BinarySensorStateResponse"
message_name (state_response sensor msg) = "SensorStateResponse"
message_name (state_response text_sensor msg) = "TextSensorStateResponse"
message_name (state_response switch msg) = "SwitchStateResponse"
message_name (state_response light msg) = "LightStateResponse"
message_name (state_response cover msg) = "CoverStateResponse"
message_name (state_response fan msg) = "FanStateResponse"
message_name (state_response climate msg) = "ClimateStateResponse"
message_name (state_response number msg) = "NumberStateResponse"
message_name (state_response select msg) = "SelectStateResponse"
message_name (state_response text msg) = "TextStateResponse"
message_name (state_response lock msg) = "LockStateResponse"
message_name (state_response media_player msg) = "MediaPlayerStateResponse"
message_name (state_response siren msg) = "SirenStateResponse"
message_name (state_response alarm_control_panel msg) = "AlarmControlPanelStateResponse"
message_name (state_response date msg) = "DateStateResponse"
message_name (state_response time msg) = "TimeStateResponse"
message_name (state_response date_time msg) = "DateTimeStateResponse"
message_name (state_response valve msg) = "ValveStateResponse"
message_name (state_response event msg) = "EventResponse"
message_name (state_response update msg) = "UpdateStateResponse"
message_name (state_response water_heater msg) = "WaterHeaterStateResponse"
message_name (state_response unknown msg) = elim msg [ ]
message_name (state_response button msg) = elim msg [ ]
message_name (state_response camera msg) = elim msg [ ]
message_name (state_response infrared msg) = elim msg [ ]
message_name (state_response radio_frequency msg) = elim msg [ ]
message_name (other name) = name

pub record InfoResponseBase : Type 0 where
  pub key : ℕ
  pub name : List ℕ
  pub object_id : List ℕ

unfoldable pub info_base : (t : EntityType) → ListResponse t → InfoResponseBase
info_base binary_sensor msg = record { key = msg.key; name = msg.name; object_id = msg.object_id }
info_base sensor msg = record { key = msg.key; name = msg.name; object_id = msg.object_id }
info_base text_sensor msg = record { key = msg.key; name = msg.name; object_id = msg.object_id }
info_base switch msg = record { key = msg.key; name = msg.name; object_id = msg.object_id }
info_base light msg = record { key = msg.key; name = msg.name; object_id = msg.object_id }
info_base cover msg = record { key = msg.key; name = msg.name; object_id = msg.object_id }
info_base fan msg = record { key = msg.key; name = msg.name; object_id = msg.object_id }
info_base climate msg = record { key = msg.key; name = msg.name; object_id = msg.object_id }
info_base number msg = record { key = msg.key; name = msg.name; object_id = msg.object_id }
info_base select msg = record { key = msg.key; name = msg.name; object_id = msg.object_id }
info_base text msg = record { key = msg.key; name = msg.name; object_id = msg.object_id }
info_base button msg = record { key = msg.key; name = msg.name; object_id = msg.object_id }
info_base lock msg = record { key = msg.key; name = msg.name; object_id = msg.object_id }
info_base media_player msg = record { key = msg.key; name = msg.name; object_id = msg.object_id }
info_base camera msg = record { key = msg.key; name = msg.name; object_id = msg.object_id }
info_base siren msg = record { key = msg.key; name = msg.name; object_id = msg.object_id }
info_base alarm_control_panel msg = record {
  key = msg.key;
  name = msg.name;
  object_id = msg.object_id;
}
info_base date msg = record { key = msg.key; name = msg.name; object_id = msg.object_id }
info_base time msg = record { key = msg.key; name = msg.name; object_id = msg.object_id }
info_base date_time msg = record { key = msg.key; name = msg.name; object_id = msg.object_id }
info_base valve msg = record { key = msg.key; name = msg.name; object_id = msg.object_id }
info_base event msg = record { key = msg.key; name = msg.name; object_id = msg.object_id }
info_base update msg = record { key = msg.key; name = msg.name; object_id = msg.object_id }
info_base water_heater msg = record { key = msg.key; name = msg.name; object_id = msg.object_id }
info_base infrared msg = record { key = msg.key; name = msg.name; object_id = msg.object_id }
info_base radio_frequency msg = record { key = msg.key; name = msg.name; object_id = msg.object_id }
info_base unknown msg = elim msg [ ]

-- The `key` of StateResponseBase.
unfoldable pub state_key : (t : EntityType) → StateResponse t → ℕ
state_key binary_sensor msg = msg.key
state_key sensor msg = msg.key
state_key text_sensor msg = msg.key
state_key switch msg = msg.key
state_key light msg = msg.key
state_key cover msg = msg.key
state_key fan msg = msg.key
state_key climate msg = msg.key
state_key number msg = msg.key
state_key select msg = msg.key
state_key text msg = msg.key
state_key lock msg = msg.key
state_key media_player msg = msg.key
state_key siren msg = msg.key
state_key alarm_control_panel msg = msg.key
state_key date msg = msg.key
state_key time msg = msg.key
state_key date_time msg = msg.key
state_key valve msg = msg.key
state_key event msg = msg.key
state_key update msg = msg.key
state_key water_heater msg = msg.key
state_key unknown msg = elim msg [ ]
state_key button msg = elim msg [ ]
state_key camera msg = elim msg [ ]
state_key infrared msg = elim msg [ ]
state_key radio_frequency msg = elim msg [ ]

-- `dynamic_cast<const InfoResponseBase*>`; a class of `other` that has the base too, as
-- CameraImageResponse has the one below, has a name that is not asked for it.
unfoldable pub as_info : ProtoMessage → Option InfoResponseBase
as_info (list_response t msg) = some (info_base t msg)
as_info _ = none

-- `dynamic_cast<const StateResponseBase*>`.
unfoldable pub as_state : ProtoMessage → Option ℕ
as_state (state_response t msg) = some (state_key t msg)
as_state _ = none
