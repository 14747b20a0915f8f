-- ===== src/Discovery/Tests.antt =====
-- Discovery at concrete packets.
use cpp_esphome_api.Base.{ℕ, ◌≡◌, refl, Option, none, some, List, [], ◌∷◌, arith, length}
use cpp_esphome_api.Base.Fuel.{budget}
use cpp_esphome_api.Discovery.{
  read_u16, join_label, follow_pointer, slice, label_pass, name_pass, proceed, name_loop, name_fuel,
  read_name,
}
use cpp_esphome_api.Discovery.Packets.{
  before, insert, take_ptr, take_record, take_data, take_header, take_one, go_on, records_loop,
  questions_loop, parse_packet,
}
use cpp_esphome_api.Discovery.Devices.{
  DiscoveredDevice, parse_mdns_packets, parse_packets, devices_of, insert_keys, starts_with, behind,
  text_before, is_some,
}
use cpp_esphome_api.Discovery.InBounds.{parse_mdns_packets-IsSome}
use cpp_esphome_api.Discovery.Names.{NameAt, ends, labels, pointer, joined, read_name-NameAt}
use cpp_esphome_api.Discovery.Names

-- "a", and behind it "b" with a pointer to the "a".
abbrev two_names : List ℕ
two_names = 1 ∷ 97 ∷ 0 ∷ 1 ∷ 98 ∷ 192 ∷ 0 ∷ []

abbrev b_then_a : NameAt two_names 3 ((98 ∷ []) ∷ (97 ∷ []) ∷ []) 1
b_then_a = labels 3 1 ((97 ∷ []) ∷ []) 1 refl (omega arith) (omega arith) (omega arith) (
    pointer 5 0 0 ((97 ∷ []) ∷ []) 0 refl (omega arith) refl (omega arith)
      (labels 0 1 [] 0 refl (omega arith) (omega arith) (omega arith) (ends 2 refl)))

read_name-NameAt_example : read_name two_names 3 ≡ some (7, 98 ∷ 46 ∷ 97 ∷ [])
unfolding Names.behind joined join_label
read_name-NameAt_example =
    read_name-NameAt two_names 3 ((98 ∷ []) ∷ (97 ∷ []) ∷ []) 1 b_then_a (omega arith)

-- A header that announces an answer, and a pointer to itself for the answer's name.
abbrev looping : List ℕ
looping = 0 ∷ 0 ∷ 0 ∷ 0 ∷ 0 ∷ 0 ∷ 0 ∷ 1 ∷ 0 ∷ 0 ∷ 0 ∷ 0 ∷ 192 ∷ 12 ∷ []

parse_mdns_packets-IsSome_example :
    (devices : List DiscoveredDevice) × (parse_mdns_packets (looping ∷ two_names ∷ [])
      ≡ some devices)
parse_mdns_packets-IsSome_example = parse_mdns_packets-IsSome (looping ∷ two_names ∷ [])

-- A PTR record names the instance "x._esphomelib".
abbrev answer : List ℕ
answer =
    0 ∷ 0 ∷ 0 ∷ 0 ∷ 0 ∷ 0 ∷ 0 ∷ 1 ∷ 0 ∷ 0 ∷ 0 ∷ 0 ∷ 0 ∷ 0 ∷ 12 ∷ 0 ∷ 1 ∷ 0 ∷ 0 ∷ 0 ∷ 0 ∷ 0 ∷ 15 ∷ 1
    ∷ 120 ∷ 11 ∷ 95 ∷ 101 ∷ 115 ∷ 112 ∷ 104 ∷ 111 ∷ 109 ∷ 101 ∷ 108 ∷ 105 ∷ 98 ∷ 0 ∷ []

count_devices : Option (List DiscoveredDevice) → Option ℕ
count_devices none = none
count_devices (some devices) = some (length devices)

one_device : count_devices (parse_mdns_packets (answer ∷ [])) ≡ some 1
unfolding count_devices parse_mdns_packets parse_packets parse_packet read_u16 questions_loop
    records_loop go_on take_one take_header take_data take_record take_ptr read_name name_loop
    proceed name_pass label_pass slice follow_pointer join_label name_fuel budget insert before
    devices_of insert_keys text_before behind starts_with is_some
one_device = refl
