-- ===== src/Entities/Infrared.antt =====
-- include/esphome/api/model/entities/infrared.hpp and
-- src/model/entities/infrared.cpp, with the messages of proto/api.proto that they use.
use cpp_esphome_api.Base.{ℕ, Bool, List}
use cpp_esphome_api.Entities.Common.{EntityInfo, ListMessage, fill_entity_info}

pub record ListEntitiesInfraredResponse : Type 0 where
  pub object_id : List ℕ
  pub key : ℕ
  pub name : List ℕ
  pub icon : List ℕ
  pub disabled_by_default : Bool
  pub entity_category : ℕ
  pub device_id : ℕ
  pub capabilities : ℕ
  pub receiver_frequency : ℕ

pub record InfraredInfo : Type 0 where
  pub entity_info : EntityInfo
  pub capabilities : ℕ
  pub receiver_frequency : ℕ

instance abbrev pub infrared_list : ListMessage ListEntitiesInfraredResponse
infrared_list = record {
  object_id = λ msg. msg.object_id;
  key = λ msg. msg.key;
  name = λ msg. msg.name;
  icon = λ msg. msg.icon;
  disabled_by_default = λ msg. msg.disabled_by_default;
  entity_category = λ msg. msg.entity_category;
  device_id = λ msg. msg.device_id;
}

unfoldable pub parse_infrared_info : ListEntitiesInfraredResponse → InfraredInfo
parse_infrared_info msg = record {
  entity_info = fill_entity_info msg;
  capabilities = msg.capabilities;
  receiver_frequency = msg.receiver_frequency;
}
