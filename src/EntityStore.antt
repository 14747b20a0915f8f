-- ===== src/EntityStore.antt =====
-- include/esphome/api/model/entity_store.hpp and src/model/entity_store.cpp: the entities of a device. The
-- unordered map is the list of its entries, one for a key, in any order.
pub mod Accessors
pub mod Ingest
pub mod Latest
pub mod Entries
pub mod Domains
pub mod Tests
use cpp_esphome_api.Base.{
  ℕ, ◌-◌, Bool, true, false, not, ◌&&◌, ◌||◌, Option, none, some, List, [], ◌∷◌, ltb, ◌==◌,
  if◌then◌else◌, length,
}
use Prim.Native.String.{String, slice, count}
use package.text.Mathlib.Text.{starts_with}
use package.text.Mathlib.Text.{◌==◌ as str_eq}
use cpp_esphome_api.EntityType.{EntityType, EntityType-discrete, unknown, entity_type_from_token}
use cpp_esphome_api.Entities.Common.{or_from_name}
use cpp_esphome_api.Entities.Classes.{
  Info, State, ProtoMessage, message_name, InfoResponseBase, as_info, as_state,
}
use cpp_esphome_api.Entities.Casts.{parse_info, parse_state, cast_list, cast_state}

pub record StoredEntity : Type 0 where
  pub type : EntityType
  pub key : ℕ
  pub object_id : List ℕ
  pub name : List ℕ
  pub info : Option ProtoMessage
  pub state : Option ProtoMessage

-- A `StoredEntity` as the map makes it.
abbrev pub new_entity : StoredEntity
new_entity = record {
  type = unknown;
  key = 0;
  object_id = [];
  name = [];
  info = none;
  state = none;
}

-- `state_cb` tells whether a callback is there.
pub record EntityStore : Type 0 where
  pub entities : List (ℕ × StoredEntity)
  pub state_cb : Bool

-- `entities_[key]`, and what is written to it.
unfoldable pub modify :
    ℕ → (StoredEntity → StoredEntity) → List (ℕ × StoredEntity) → List (ℕ × StoredEntity)
modify key f [] = (key, f new_entity) ∷ []
modify key f ((j, e) ∷ rest) =
    let later = modify key f rest in if j == key then (j, f e) ∷ rest else (j, e) ∷ later

unfoldable pub lookup : ℕ → List (ℕ × StoredEntity) → Option StoredEntity
lookup key [] = none
lookup key ((j, e) ∷ rest) = let later = lookup key rest in if j == key then some e else later

unfoldable pub ends_with : String → String → Bool
ends_with name suffix =
    ltb (count suffix) (count name)
    && str_eq (slice name (count name - count suffix) (count name)) suffix

unfoldable pub is_list : String → Bool
is_list name =
    starts_with name "ListEntities"
    && ends_with name "Response"
    && not (str_eq name "ListEntitiesDoneResponse")
    && not (str_eq name "ListEntitiesServicesResponse")

unfoldable pub is_event : String → Bool
is_event name = str_eq name "EventResponse"

unfoldable pub is_state : String → Bool
is_state name = is_event name || ends_with name "StateResponse"

unfoldable pub list_token : String → String
list_token name = slice name 12 (count name - 8)

unfoldable pub state_token : String → String
state_token name = if is_event name then "Event" else slice name 0 (count name - 13)

unfoldable pub with_info :
    EntityType → InfoResponseBase → ProtoMessage → StoredEntity → StoredEntity
with_info type info msg e = record e {
  type = type;
  key = info.key;
  name = info.name;
  object_id = or_from_name info.object_id info.name;
  info = some msg;
}

unfoldable pub is_type : EntityType → EntityType → Bool
is_type a b = elim (EntityType-discrete a b) [ yes same ↦ true | no other ↦ false ]

unfoldable pub with_state : EntityType → ℕ → ProtoMessage → StoredEntity → StoredEntity
with_state type key msg e = record e {
  type = if is_type e.type unknown then type else e.type;
  key = key;
  state = some msg;
}

-- The store, the answer of `ingest`, and the callback that it made.
abbrev pub Ingested : Type 0
Ingested = EntityStore × Bool × Option (EntityType × ℕ)

unfoldable pub ingest_list : ProtoMessage → EntityStore → Option InfoResponseBase → Ingested
ingest_list msg s none = (s, false, none)
ingest_list msg s (some info) =
    let type = entity_type_from_token (list_token (message_name msg)) in
    (record s { entities = modify info.key (with_info type info msg) s.entities }, true, none)

unfoldable pub ingest_state : ProtoMessage → EntityStore → Option ℕ → Ingested
ingest_state msg s none = (s, false, none)
ingest_state msg s (some key) =
    let type = entity_type_from_token (state_token (message_name msg)) in
    (
      record s { entities = modify key (with_state type key msg) s.entities },
      true,
      if s.state_cb then some (type, key) else none,
    )

unfoldable pub ingest : ProtoMessage → EntityStore → Ingested
ingest msg s =
    if is_list (message_name msg)
    then ingest_list msg s (as_info msg)
    else if is_state (message_name msg)
    then ingest_state msg s (as_state msg)
    else (s, false, none)

unfoldable pub clear : EntityStore → EntityStore
clear s = record s { entities = [] }

unfoldable pub on_state : EntityStore → EntityStore
on_state s = record s { state_cb = true }

unfoldable pub size : EntityStore → ℕ
size s = length s.entities

unfoldable pub find : ℕ → EntityStore → Option StoredEntity
find key s = lookup key s.entities

same_text : List ℕ → List ℕ → Bool
same_text [] [] = true
same_text (x ∷ xs) (y ∷ ys) = (x == y) && same_text xs ys
same_text _ _ = false

unfoldable pub first_with : List ℕ → List (ℕ × StoredEntity) → Option StoredEntity
unfolding same_text
first_with object_id [] = none
first_with object_id ((k, e) ∷ rest) =
    let later = first_with object_id rest in
    if same_text e.object_id object_id then some e else later

-- The first in the order of the map.
unfoldable pub find_by_object_id : List ℕ → EntityStore → Option StoredEntity
find_by_object_id object_id s = first_with object_id s.entities

-- What an accessor answers: nothing, or what it parsed, unless the `static_cast` has no defined result.
pub data Accessed (A : Type 0) : Type 0 where
  absent : Accessed A
  wrong_class : Accessed A
  found : A → Accessed A

unfoldable pub parsed : {A B : Type 0} → (A → B) → Option A → Accessed B
parsed parse none = wrong_class
parsed parse (some msg) = found (parse msg)

unfoldable pub info_of : (t : EntityType) → Option ProtoMessage → Accessed (Info t)
info_of t none = absent
info_of t (some msg) = parsed (parse_info t) (cast_list t msg)

unfoldable pub state_of : (t : EntityType) → Option ProtoMessage → Accessed (State t)
state_of t none = absent
state_of t (some msg) = parsed (parse_state t) (cast_state t msg)

unfoldable pub entity_info : (t : EntityType) → Option StoredEntity → Accessed (Info t)
entity_info t none = absent
entity_info t (some e) = if is_type e.type t then info_of t e.info else absent

unfoldable pub entity_state : (t : EntityType) → Option StoredEntity → Accessed (State t)
entity_state t none = absent
entity_state t (some e) = if is_type e.type t then state_of t e.state else absent

-- The accessors of a domain, which differ in the class and the parser alone.
unfoldable pub typed_info : (t : EntityType) → ℕ → EntityStore → Accessed (Info t)
typed_info t key s = entity_info t (find key s)

unfoldable pub typed_state : (t : EntityType) → ℕ → EntityStore → Accessed (State t)
typed_state t key s = entity_state t (find key s)
