-- ===== src/Entities/TextSensor.antt =====
-- include/esphome/api/model/entities/text_sensor.hpp and
-- src/model/entities/text_sensor.cpp, with the messages of proto/api.proto that they use.
use cpp_esphome_api.Base.{ℕ, Bool, List}
use cpp_esphome_api.Entities.Common.{EntityInfo, ListMessage, fill_entity_info}

pub record ListEntitiesTextSensorResponse : Type 0 where
  pub object_id : List ℕ
  pub key : ℕ
  pub name : List ℕ
  pub icon : List ℕ
  pub disabled_by_default : Bool
  pub entity_category : ℕ
  pub device_class : List ℕ
  pub device_id : ℕ

pub record TextSensorInfo : Type 0 where
  pub entity_info : EntityInfo
  pub device_class : List ℕ

instance abbrev pub text_sensor_list : ListMessage ListEntitiesTextSensorResponse
text_sensor_list = record {
  object_id = λ msg. msg.object_id;
  key = λ msg. msg.key;
  name = λ msg. msg.name;
  icon = λ msg. msg.icon;
  disabled_by_default = λ msg. msg.disabled_by_default;
  entity_category = λ msg. msg.entity_category;
  device_id = λ msg. msg.device_id;
}

unfoldable pub parse_text_sensor_info : ListEntitiesTextSensorResponse → TextSensorInfo
parse_text_sensor_info msg = record {
  entity_info = fill_entity_info msg;
  device_class = msg.device_class;
}

pub record TextSensorStateResponse : Type 0 where
  pub key : ℕ
  pub state : List ℕ
  pub missing_state : Bool
  pub device_id : ℕ

pub record TextSensorState : Type 0 where
  pub key : ℕ
  pub state : List ℕ
  pub missing_state : Bool

unfoldable pub parse_text_sensor_state : TextSensorStateResponse → TextSensorState
parse_text_sensor_state msg = record {
  key = msg.key;
  state = msg.state;
  missing_state = msg.missing_state;
}
