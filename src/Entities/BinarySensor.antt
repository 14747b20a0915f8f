-- ===== src/Entities/BinarySensor.antt =====
-- include/esphome/api/model/entities/binary_sensor.hpp and
-- src/model/entities/binary_sensor.cpp, with the messages of proto/api.proto that they use.
use cpp_esphome_api.Base.{ℕ, Bool, List}
use cpp_esphome_api.Entities.Common.{EntityInfo, ListMessage, fill_entity_info}

pub record ListEntitiesBinarySensorResponse : Type 0 where
  pub object_id : List ℕ
  pub key : ℕ
  pub name : List ℕ
  pub device_class : List ℕ
  pub is_status_binary_sensor : Bool
  pub disabled_by_default : Bool
  pub icon : List ℕ
  pub entity_category : ℕ
  pub device_id : ℕ

pub record BinarySensorInfo : Type 0 where
  pub entity_info : EntityInfo
  pub device_class : List ℕ
  pub is_status_binary_sensor : Bool

instance abbrev pub binary_sensor_list : ListMessage ListEntitiesBinarySensorResponse
binary_sensor_list = record {
  object_id = λ msg. msg.object_id;
  key = λ msg. msg.key;
  name = λ msg. msg.name;
  icon = λ msg. msg.icon;
  disabled_by_default = λ msg. msg.disabled_by_default;
  entity_category = λ msg. msg.entity_category;
  device_id = λ msg. msg.device_id;
}

unfoldable pub parse_binary_sensor_info : ListEntitiesBinarySensorResponse → BinarySensorInfo
parse_binary_sensor_info msg = record {
  entity_info = fill_entity_info msg;
  device_class = msg.device_class;
  is_status_binary_sensor = msg.is_status_binary_sensor;
}

pub record BinarySensorStateResponse : Type 0 where
  pub key : ℕ
  pub state : Bool
  pub missing_state : Bool
  pub device_id : ℕ

pub record BinarySensorState : Type 0 where
  pub key : ℕ
  pub state : Bool
  pub missing_state : Bool

unfoldable pub parse_binary_sensor_state : BinarySensorStateResponse → BinarySensorState
parse_binary_sensor_state msg = record {
  key = msg.key;
  state = msg.state;
  missing_state = msg.missing_state;
}
