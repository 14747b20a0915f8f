-- ===== src/EntityStore/Ingest.antt =====
-- What `ingest` makes of a message by its class: the names of proto/api.proto against the tests on them.
use cpp_esphome_api.Base.{◌≡◌, refl, inl, inr, true, false, none, some, if◌then◌else◌, Bool-cases}
use Prim.Native.String.{String}
use cpp_esphome_api.EntityType.{
  EntityType, entity_type_from_token, find_token, unknown, binary_sensor, sensor, text_sensor,
  switch, light, cover, fan, climate, number, select, text, button, lock, media_player, camera,
  siren, alarm_control_panel, date, time, date_time, valve, event, update, water_heater, infrared,
  radio_frequency,
}
use cpp_esphome_api.Entities.Classes.{
  ListResponse, StateResponse, ProtoMessage, list_response, state_response, other, message_name,
  info_base, state_key, as_info, as_state,
}
use cpp_esphome_api.EntityStore.{
  EntityStore, modify, ends_with, is_list, is_event, is_state, list_token, state_token, with_info,
  with_state, ingest_list, ingest_state, ingest,
}

abbrev IsListName : EntityType → ProtoMessage → Type 0
IsListName t msg =
    (is_list (message_name msg) ≡ true)
    × (entity_type_from_token (list_token (message_name msg)) ≡ t)

list_name : (t : EntityType) (msg : ListResponse t) → IsListName t (list_response t msg)
unfolding is_list ends_with list_token message_name entity_type_from_token find_token
list_name binary_sensor msg = (refl, refl)
list_name sensor msg = (refl, refl)
list_name text_sensor msg = (refl, refl)
list_name switch msg = (refl, refl)
list_name light msg = (refl, refl)
list_name cover msg = (refl, refl)
list_name fan msg = (refl, refl)
list_name climate msg = (refl, refl)
list_name number msg = (refl, refl)
list_name select msg = (refl, refl)
list_name text msg = (refl, refl)
list_name button msg = (refl, refl)
list_name lock msg = (refl, refl)
list_name media_player msg = (refl, refl)
list_name camera msg = (refl, refl)
list_name siren msg = (refl, refl)
list_name alarm_control_panel msg = (refl, refl)
list_name date msg = (refl, refl)
list_name time msg = (refl, refl)
list_name date_time msg = (refl, refl)
list_name valve msg = (refl, refl)
list_name event msg = (refl, refl)
list_name update msg = (refl, refl)
list_name water_heater msg = (refl, refl)
list_name infrared msg = (refl, refl)
list_name radio_frequency msg = (refl, refl)
list_name unknown msg = elim msg [ ]

abbrev IsStateName : EntityType → ProtoMessage → Type 0
IsStateName t msg =
    (is_list (message_name msg) ≡ false)
    × (is_state (message_name msg) ≡ true)
    × (entity_type_from_token (state_token (message_name msg)) ≡ t)

state_name : (t : EntityType) (msg : StateResponse t) → IsStateName t (state_response t msg)
unfolding is_list is_state is_event ends_with state_token message_name entity_type_from_token
    find_token
state_name binary_sensor msg = (refl, refl, refl)
state_name sensor msg = (refl, refl, refl)
state_name text_sensor msg = (refl, refl, refl)
state_name switch msg = (refl, refl, refl)
state_name light msg = (refl, refl, refl)
state_name cover msg = (refl, refl, refl)
state_name fan msg = (refl, refl, refl)
state_name climate msg = (refl, refl, refl)
state_name number msg = (refl, refl, refl)
state_name select msg = (refl, refl, refl)
state_name text msg = (refl, refl, refl)
state_name lock msg = (refl, refl, refl)
state_name media_player msg = (refl, refl, refl)
state_name siren msg = (refl, refl, refl)
state_name alarm_control_panel msg = (refl, refl, refl)
state_name date msg = (refl, refl, refl)
state_name time msg = (refl, refl, refl)
state_name date_time msg = (refl, refl, refl)
state_name valve msg = (refl, refl, refl)
state_name event msg = (refl, refl, refl)
state_name update msg = (refl, refl, refl)
state_name water_heater msg = (refl, refl, refl)
state_name unknown msg = elim msg [ ]
state_name button msg = elim msg [ ]
state_name camera msg = elim msg [ ]
state_name infrared msg = elim msg [ ]
state_name radio_frequency msg = elim msg [ ]

pub ingest-list_response :
    (t : EntityType) (msg : ListResponse t) (s : EntityStore)
    → ingest (list_response t msg) s ≡ (
      record s {
        entities =
            modify
              (info_base t msg).key
              (with_info t (info_base t msg) (list_response t msg))
              s.entities;
      },
      true,
      none,
    )
unfolding ingest as_info ingest_list
ingest-list_response t msg s = let (l, token) = list_name t msg in rw (l, token) refl

pub ingest-state_response :
    (t : EntityType) (msg : StateResponse t) (s : EntityStore)
    → ingest (state_response t msg) s ≡ (
      record s {
        entities =
            modify
              (state_key t msg)
              (with_state t (state_key t msg) (state_response t msg))
              s.entities;
      },
      true,
      if s.state_cb then some (t, state_key t msg) else none,
    )
unfolding ingest as_state ingest_state
ingest-state_response t msg s = let (l, is, token) = state_name t msg in rw (l, is, token) refl

pub ingest-other : (name : String) (s : EntityStore) → ingest (other name) s ≡ (s, false, none)
unfolding ingest as_info as_state ingest_list ingest_state is_list message_name
ingest-other name s = elim (Bool-cases (is_list name)) [
  | inl e ↦ rw e refl
  | inr e ↦ elim (Bool-cases (is_state name)) [
    | inl e' ↦ rw (e, e') refl
    | inr e' ↦ rw (e, e') refl
  ]
]
