-- ===== src/Entities/RadioFrequency.antt =====
-- include/esphome/api/model/entities/radio_frequency.hpp and
-- src/model/entities/radio_frequency.cpp, with the messages of proto/api.proto that they use.
use cpp_esphome_api.Base.{ℕ, Bool, List}
use cpp_esphome_api.Entities.Common.{EntityInfo, ListMessage, fill_entity_info}

pub record ListEntitiesRadioFrequencyResponse : Type 0 where
  pub object_id : List ℕ
  pub key : ℕ
  pub name : List ℕ
  pub icon : List ℕ
  pub disabled_by_default : Bool
  pub entity_category : ℕ
  pub device_id : ℕ
  pub capabilities : ℕ
  pub frequency_min : ℕ
  pub frequency_max : ℕ
  pub supported_modulations : ℕ

pub record RadioFrequencyInfo : Type 0 where
  pub entity_info : EntityInfo
  pub capabilities : ℕ
  pub frequency_min : ℕ
  pub frequency_max : ℕ
  pub supported_modulations : ℕ

instance abbrev pub radio_frequency_list : ListMessage ListEntitiesRadioFrequencyResponse
radio_frequency_list = record {
  object_id = λ msg. msg.object_id;
  key = λ msg. msg.key;
  name = λ msg. msg.name;
  icon = λ msg. msg.icon;
  disabled_by_default = λ msg. msg.disabled_by_default;
  entity_category = λ msg. msg.entity_category;
  device_id = λ msg. msg.device_id;
}

unfoldable pub parse_radio_frequency_info : ListEntitiesRadioFrequencyResponse → RadioFrequencyInfo
parse_radio_frequency_info msg = record {
  entity_info = fill_entity_info msg;
  capabilities = msg.capabilities;
  frequency_min = msg.frequency_min;
  frequency_max = msg.frequency_max;
  supported_modulations = msg.supported_modulations;
}
