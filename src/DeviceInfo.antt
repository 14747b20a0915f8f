-- ===== src/DeviceInfo.antt =====
-- include/esphome/api/model/device_info.hpp and src/model/device_info.cpp: what a device says of itself.
use cpp_esphome_api.Base.{ℕ, Bool, false, List, []}
use mathlib.Core.List.{map}

-- The generated SerialProxyInfo and DeviceInfoResponse, with the fields that the library reads.
pub record SerialProxyInfo : Type 0 where
  pub name : List ℕ
  pub port_type : ℕ

pub record DeviceInfoResponse : Type 0 where
  pub name : List ℕ
  pub friendly_name : List ℕ
  pub mac_address : List ℕ
  pub bluetooth_mac_address : List ℕ
  pub esphome_version : List ℕ
  pub compilation_time : List ℕ
  pub model : List ℕ
  pub manufacturer : List ℕ
  pub project_name : List ℕ
  pub project_version : List ℕ
  pub suggested_area : List ℕ
  pub has_deep_sleep : Bool
  pub webserver_port : ℕ
  pub api_encryption_supported : Bool
  pub bluetooth_proxy_feature_flags : ℕ
  pub voice_assistant_feature_flags : ℕ
  pub zwave_proxy_feature_flags : ℕ
  pub zwave_home_id : ℕ
  pub serial_proxies : List SerialProxyInfo

pub record SerialProxyPortInfo : Type 0 where
  pub name : List ℕ
  pub port_type : ℕ

pub record DeviceInfo : Type 0 where
  pub name : List ℕ
  pub friendly_name : List ℕ
  pub mac_address : List ℕ
  pub bluetooth_mac_address : List ℕ
  pub esphome_version : List ℕ
  pub compilation_time : List ℕ
  pub model : List ℕ
  pub manufacturer : List ℕ
  pub project_name : List ℕ
  pub project_version : List ℕ
  pub suggested_area : List ℕ
  pub has_deep_sleep : Bool
  pub webserver_port : ℕ
  pub api_encryption_supported : Bool
  pub bluetooth_proxy_feature_flags : ℕ
  pub voice_assistant_feature_flags : ℕ
  pub zwave_proxy_feature_flags : ℕ
  pub zwave_home_id : ℕ
  pub serial_proxies : List SerialProxyPortInfo

abbrev pub no_device_info : DeviceInfo
no_device_info = record {
  name = [];
  friendly_name = [];
  mac_address = [];
  bluetooth_mac_address = [];
  esphome_version = [];
  compilation_time = [];
  model = [];
  manufacturer = [];
  project_name = [];
  project_version = [];
  suggested_area = [];
  has_deep_sleep = false;
  webserver_port = 0;
  api_encryption_supported = false;
  bluetooth_proxy_feature_flags = 0;
  voice_assistant_feature_flags = 0;
  zwave_proxy_feature_flags = 0;
  zwave_home_id = 0;
  serial_proxies = [];
}

-- The cast of the port's type keeps the number.
unfoldable pub to_port : SerialProxyInfo → SerialProxyPortInfo
to_port sp = record { name = sp.name; port_type = sp.port_type }

unfoldable pub from_proto : DeviceInfoResponse → DeviceInfo
from_proto msg = record {
  name = msg.name;
  friendly_name = msg.friendly_name;
  mac_address = msg.mac_address;
  bluetooth_mac_address = msg.bluetooth_mac_address;
  esphome_version = msg.esphome_version;
  compilation_time = msg.compilation_time;
  model = msg.model;
  manufacturer = msg.manufacturer;
  project_name = msg.project_name;
  project_version = msg.project_version;
  suggested_area = msg.suggested_area;
  has_deep_sleep = msg.has_deep_sleep;
  webserver_port = msg.webserver_port;
  api_encryption_supported = msg.api_encryption_supported;
  bluetooth_proxy_feature_flags = msg.bluetooth_proxy_feature_flags;
  voice_assistant_feature_flags = msg.voice_assistant_feature_flags;
  zwave_proxy_feature_flags = msg.zwave_proxy_feature_flags;
  zwave_home_id = msg.zwave_home_id;
  serial_proxies = map to_port msg.serial_proxies;
}
