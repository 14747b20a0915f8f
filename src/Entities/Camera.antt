-- ===== src/Entities/Camera.antt =====
-- include/esphome/api/model/entities/camera.hpp and
-- src/model/entities/camera.cpp, with the messages of proto/api.proto that they use.
use cpp_esphome_api.Base.{ℕ, Bool, List}
use cpp_esphome_api.Entities.Common.{EntityInfo, ListMessage, fill_entity_info}

pub record ListEntitiesCameraResponse : Type 0 where
  pub object_id : List ℕ
  pub key : ℕ
  pub name : List ℕ
  pub disabled_by_default : Bool
  pub icon : List ℕ
  pub entity_category : ℕ
  pub device_id : ℕ

pub record CameraInfo : Type 0 where
  pub entity_info : EntityInfo

instance abbrev pub camera_list : ListMessage ListEntitiesCameraResponse
camera_list = record {
  object_id = λ msg. msg.object_id;
  key = λ msg. msg.key;
  name = λ msg. msg.name;
  icon = λ msg. msg.icon;
  disabled_by_default = λ msg. msg.disabled_by_default;
  entity_category = λ msg. msg.entity_category;
  device_id = λ msg. msg.device_id;
}

unfoldable pub parse_camera_info : ListEntitiesCameraResponse → CameraInfo
parse_camera_info msg = record { entity_info = fill_entity_info msg }
