-- ===== src/Entities/Sensor.antt =====
-- include/esphome/api/model/entities/sensor.hpp and
-- src/model/entities/sensor.cpp, with the messages of proto/api.proto that they use.
use cpp_esphome_api.Base.{ℕ, Bool, List}
use cpp_esphome_api.Entities.Common.{EntityInfo, ListMessage, fill_entity_info}

pub record ListEntitiesSensorResponse : Type 0 where
  pub object_id : List ℕ
  pub key : ℕ
  pub name : List ℕ
  pub icon : List ℕ
  pub unit_of_measurement : List ℕ
  pub accuracy_decimals : ℕ
  pub force_update : Bool
  pub device_class : List ℕ
  pub state_class : ℕ
  pub legacy_last_reset_type : ℕ
  pub disabled_by_default : Bool
  pub entity_category : ℕ
  pub device_id : ℕ

pub record SensorInfo : Type 0 where
  pub entity_info : EntityInfo
  pub unit_of_measurement : List ℕ
  pub accuracy_decimals : ℕ
  pub force_update : Bool
  pub device_class : List ℕ
  pub state_class : ℕ

instance abbrev pub sensor_list : ListMessage ListEntitiesSensorResponse
sensor_list = record {
  object_id = λ msg. msg.object_id;
  key = λ msg. msg.key;
  name = λ msg. msg.name;
  icon = λ msg. msg.icon;
  disabled_by_default = λ msg. msg.disabled_by_default;
  entity_category = λ msg. msg.entity_category;
  device_id = λ msg. msg.device_id;
}

unfoldable pub parse_sensor_info : ListEntitiesSensorResponse → SensorInfo
parse_sensor_info msg = record {
  entity_info = fill_entity_info msg;
  unit_of_measurement = msg.unit_of_measurement;
  accuracy_decimals = msg.accuracy_decimals;
  force_update = msg.force_update;
  device_class = msg.device_class;
  state_class = msg.state_class;
}

pub record SensorStateResponse : Type 0 where
  pub key : ℕ
  pub state : ℕ
  pub missing_state : Bool
  pub device_id : ℕ

pub record SensorState : Type 0 where
  pub key : ℕ
  pub state : ℕ
  pub missing_state : Bool

unfoldable pub parse_sensor_state : SensorStateResponse → SensorState
parse_sensor_state msg = record {
  key = msg.key;
  state = msg.state;
  missing_state = msg.missing_state;
}
