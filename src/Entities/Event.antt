-- ===== src/Entities/Event.antt =====
-- include/esphome/api/model/entities/event.hpp and
-- src/model/entities/event.cpp, with the messages of proto/api.proto that they use.
use cpp_esphome_api.Base.{ℕ, Bool, List}
use cpp_esphome_api.Entities.Common.{EntityInfo, ListMessage, fill_entity_info}

pub record ListEntitiesEventResponse : Type 0 where
  pub object_id : List ℕ
  pub key : ℕ
  pub name : List ℕ
  pub icon : List ℕ
  pub disabled_by_default : Bool
  pub entity_category : ℕ
  pub device_class : List ℕ
  pub event_types : List (List ℕ)
  pub device_id : ℕ

pub record EventInfo : Type 0 where
  pub entity_info : EntityInfo
  pub device_class : List ℕ
  pub event_types : List (List ℕ)

instance abbrev pub event_list : ListMessage ListEntitiesEventResponse
event_list = record {
  object_id = λ msg. msg.object_id;
  key = λ msg. msg.key;
  name = λ msg. msg.name;
  icon = λ msg. msg.icon;
  disabled_by_default = λ msg. msg.disabled_by_default;
  entity_category = λ msg. msg.entity_category;
  device_id = λ msg. msg.device_id;
}

unfoldable pub parse_event_info : ListEntitiesEventResponse → EventInfo
parse_event_info msg = record {
  entity_info = fill_entity_info msg;
  device_class = msg.device_class;
  event_types = msg.event_types;
}

pub record EventResponse : Type 0 where
  pub key : ℕ
  pub event_type : List ℕ
  pub device_id : ℕ

pub record EventState : Type 0 where
  pub key : ℕ
  pub event_type : List ℕ

unfoldable pub parse_event_state : EventResponse → EventState
parse_event_state msg = record { key = msg.key; event_type = msg.event_type }
