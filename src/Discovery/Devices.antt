-- ===== src/Discovery/Devices.antt =====
-- `parse_mdns_packets`: the devices that the records of all packets tell of.
use cpp_esphome_api.Base.{
  ℕ, Bool, true, false, ◌&&◌, ◌||◌, Option, none, some, List, [], ◌∷◌, ◌++◌, ◌==◌, if◌then◌else◌,
  ◌>>=◌,
}
use cpp_esphome_api.Discovery.Packets.{
  insert, lookup, get_or, Properties, Accumulator, parse_packet,
}

-- "._esphomelib._tcp"
abbrev pub service_suffix : List ℕ
service_suffix =
    46 ∷ 95 ∷ 101 ∷ 115 ∷ 112 ∷ 104 ∷ 111 ∷ 109 ∷ 101 ∷ 108 ∷ 105 ∷ 98 ∷ 46 ∷ 95 ∷ 116 ∷ 99 ∷ 112
    ∷ []

-- "_esphomelib"
abbrev pub service : List ℕ
service = 95 ∷ 101 ∷ 115 ∷ 112 ∷ 104 ∷ 111 ∷ 109 ∷ 101 ∷ 108 ∷ 105 ∷ 98 ∷ []

-- `haystack.find(needle)`, as the text in front of what was found.
unfoldable pub starts_with : List ℕ → List ℕ → Bool
starts_with text [] = true
starts_with [] (y ∷ ys) = false
starts_with (x ∷ xs) (y ∷ ys) = let rest = starts_with xs ys in (x == y) && rest

unfoldable pub behind : ℕ → Option (List ℕ) → Option (List ℕ)
behind x none = none
behind x (some xs) = some (x ∷ xs)

unfoldable pub text_before : List ℕ → List ℕ → Option (List ℕ)
text_before needle [] = if starts_with [] needle then some [] else none
text_before needle (x ∷ xs) =
    let later = text_before needle xs in
    if starts_with (x ∷ xs) needle then some [] else behind x later

unfoldable pub instance_short_name : List ℕ → List ℕ
instance_short_name instance_ = get_or instance_ (text_before service_suffix instance_)

-- The keys of the entries, as text.
abbrev pub mac_key : List ℕ
mac_key = 109 ∷ 97 ∷ 99 ∷ []

abbrev pub version_key : List ℕ
version_key = 118 ∷ 101 ∷ 114 ∷ 115 ∷ 105 ∷ 111 ∷ 110 ∷ []

abbrev pub friendly_name_key : List ℕ
friendly_name_key = 102 ∷ 114 ∷ 105 ∷ 101 ∷ 110 ∷ 100 ∷ 108 ∷ 121 ∷ 95 ∷ 110 ∷ 97 ∷ 109 ∷ 101 ∷ []

abbrev pub platform_key : List ℕ
platform_key = 112 ∷ 108 ∷ 97 ∷ 116 ∷ 102 ∷ 111 ∷ 114 ∷ 109 ∷ []

abbrev pub board_key : List ℕ
board_key = 98 ∷ 111 ∷ 97 ∷ 114 ∷ 100 ∷ []

abbrev pub network_key : List ℕ
network_key = 110 ∷ 101 ∷ 116 ∷ 119 ∷ 111 ∷ 114 ∷ 107 ∷ []

abbrev pub project_name_key : List ℕ
project_name_key = 112 ∷ 114 ∷ 111 ∷ 106 ∷ 101 ∷ 99 ∷ 116 ∷ 95 ∷ 110 ∷ 97 ∷ 109 ∷ 101 ∷ []

abbrev pub project_version_key : List ℕ
project_version_key =
    112 ∷ 114 ∷ 111 ∷ 106 ∷ 101 ∷ 99 ∷ 116 ∷ 95 ∷ 118 ∷ 101 ∷ 114 ∷ 115 ∷ 105 ∷ 111 ∷ 110 ∷ []

-- "api_encryption" and "api_encryption_supported"
abbrev pub api_encryption : List ℕ
api_encryption = 97 ∷ 112 ∷ 105 ∷ 95 ∷ 101 ∷ 110 ∷ 99 ∷ 114 ∷ 121 ∷ 112 ∷ 116 ∷ 105 ∷ 111 ∷ 110 ∷ []

abbrev pub api_encryption_supported : List ℕ
api_encryption_supported =
    api_encryption ++ (95 ∷ 115 ∷ 117 ∷ 112 ∷ 112 ∷ 111 ∷ 114 ∷ 116 ∷ 101 ∷ 100 ∷ [])

unfoldable pub is_some : {V : Type 0} → Option V → Bool
is_some none = false
is_some (some v) = true

unfoldable pub or_else : List ℕ → List ℕ → List ℕ
or_else [] other = other
or_else text other = text

pub record DiscoveredDevice : Type 0 where
  pub name : List ℕ
  pub hostname : List ℕ
  pub address : List ℕ
  pub port : ℕ
  pub mac : List ℕ
  pub version : List ℕ
  pub friendly_name : List ℕ
  pub platform : List ℕ
  pub board : List ℕ
  pub network : List ℕ
  pub project_name : List ℕ
  pub project_version : List ℕ
  pub properties : Properties
  pub requires_encryption : Bool
  pub supports_encryption : Bool

-- The lambda `get`.
unfoldable pub property : Properties → List ℕ → List ℕ
property properties key = get_or [] (lookup key properties)

unfoldable pub connect_host : DiscoveredDevice → List ℕ
connect_host dev = or_else dev.address dev.hostname

unfoldable pub with_srv : Accumulator → Option (List ℕ × ℕ) → DiscoveredDevice → DiscoveredDevice
with_srv acc none dev = dev
with_srv acc (some (hostname, port)) dev = record dev {
  hostname = hostname;
  port = port;
  address = get_or [] (lookup hostname acc.ipv4);
}

unfoldable pub with_txt : Option Properties → DiscoveredDevice → DiscoveredDevice
with_txt none dev = dev
with_txt (some properties) dev =
    let required = is_some (lookup api_encryption properties) in
    record dev {
      properties = properties;
      mac = property properties mac_key;
      version = property properties version_key;
      friendly_name = property properties friendly_name_key;
      platform = property properties platform_key;
      board = property properties board_key;
      network = property properties network_key;
      project_name = property properties project_name_key;
      project_version = property properties project_version_key;
      requires_encryption = required;
      supports_encryption = required || is_some (lookup api_encryption_supported properties);
    }

unfoldable pub to_device : Accumulator → List ℕ → DiscoveredDevice
to_device acc name = with_txt (lookup name acc.txt) (
    with_srv acc (lookup name acc.srv) (record {
      name = instance_short_name name;
      hostname = [];
      address = [];
      port = 6053;
      properties = [];
      mac = [];
      version = [];
      friendly_name = [];
      platform = [];
      board = [];
      network = [];
      project_name = [];
      project_version = [];
      requires_encryption = false;
      supports_encryption = false;
    }))

unfoldable pub insert_keys : List (List ℕ × (List ℕ × ℕ)) → List (List ℕ) → List (List ℕ)
insert_keys [] names = names
insert_keys ((name, target) ∷ m) names = insert_keys m (insert name names)

unfoldable pub devices_of : Accumulator → List (List ℕ) → List DiscoveredDevice
devices_of acc [] = []
devices_of acc (name ∷ names) =
    let rest = devices_of acc names in
    if is_some (text_before service name) then to_device acc name ∷ rest else rest

unfoldable pub parse_packets : List (List ℕ) → Accumulator → Option Accumulator
parse_packets [] acc = some acc
parse_packets (pkt ∷ packets) acc = do next ← parse_packet pkt acc; parse_packets packets next

abbrev pub empty : Accumulator
empty = record { instances = []; srv = []; txt = []; ipv4 = [] }

unfoldable pub parse_mdns_packets : List (List ℕ) → Option (List DiscoveredDevice)
parse_mdns_packets packets = do
  acc ← parse_packets packets empty
  some (devices_of acc (insert_keys acc.srv acc.instances))
