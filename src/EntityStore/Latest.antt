-- ===== src/EntityStore/Latest.antt =====
-- The store against one register for each key, which takes the messages with that key alone.
use cpp_esphome_api.Base.{
  ℕ, ◌≡◌, refl, sym, ap, ◌∙◌, inl, inr, Bool, false, Option, none, some, List, [], ◌∷◌, arith, ◌==◌,
  if◌then◌else◌, Bool-cases,
}
use cpp_esphome_api.EntityType.{EntityType, unknown}
use cpp_esphome_api.Entities.Classes.{
  ListResponse, StateResponse, ProtoMessage, list_response, state_response, other, info_base,
  state_key,
}
use cpp_esphome_api.EntityStore.{
  StoredEntity, new_entity, EntityStore, modify, lookup, with_info, is_type, with_state, ingest,
  find,
}
use cpp_esphome_api.EntityStore.Ingest.{ingest-list_response, ingest-state_response, ingest-other}

-- What the map hands out for `entities_[key]`.
unfoldable pub or_new : Option StoredEntity → StoredEntity
or_new none = new_entity
or_new (some e) = e

pub lookup-modify :
    (key j : ℕ) (f : StoredEntity → StoredEntity) (m : List (ℕ × StoredEntity))
    → lookup key (modify j f m)
      ≡ (if j == key then some (f (or_new (lookup key m))) else lookup key m)
unfolding lookup modify or_new
lookup-modify key j f [] = refl
lookup-modify key j f ((i, e) ∷ m) = ground (arith, lookup-modify key j f m)

-- The messages taken in one after the other.
unfoldable pub run : List ProtoMessage → EntityStore → EntityStore
run [] s = s
run (msg ∷ msgs) s = run msgs (ingest msg s).0

-- An entity as an observer of its messages knows it: the type, the last description, the last state.
pub record Seen : Type 0 where
  pub type : EntityType
  pub info : Option ProtoMessage
  pub state : Option ProtoMessage

pub view : Option StoredEntity → Option Seen
view none = none
view (some e) = some (record { type = e.type; info = e.info; state = e.state })

-- The entity that a message is about.
pub key_of : ProtoMessage → Option ℕ
key_of (list_response t msg) = some (info_base t msg).key
key_of (state_response t msg) = some (state_key t msg)
key_of (other name) = none

is_about : ℕ → Option ℕ → Bool
is_about key none = false
is_about key (some j) = j == key

pub about : ℕ → List ProtoMessage → List ProtoMessage
unfolding is_about key_of
about key [] = []
about key (msg ∷ msgs) =
    let rest = about key msgs in if is_about key (key_of msg) then msg ∷ rest else rest

-- A description gives the type, a state gives it when nothing did.
pub see : ProtoMessage → Option Seen → Option Seen
see (list_response t msg) none =
    some (record { type = t; info = some (list_response t msg); state = none })
see (list_response t msg) (some e) = some (record e { type = t; info = some (list_response t msg) })
see (state_response t msg) none =
    some (record { type = t; info = none; state = some (state_response t msg) })
see (state_response t msg) (some e) = some (record e {
  type = if is_type e.type unknown then t else e.type;
  state = some (state_response t msg);
})
see (other name) e = e

pub see_all : List ProtoMessage → Option Seen → Option Seen
unfolding see
see_all [] e = e
see_all (msg ∷ msgs) e = see_all msgs (see msg e)

view_list :
    (t : EntityType) (msg : ListResponse t) (e : Option StoredEntity)
    → view (some (with_info t (info_base t msg) (list_response t msg) (or_new e)))
      ≡ see (list_response t msg) (view e)
unfolding view with_info or_new see
view_list t msg none = refl
view_list t msg (some e) = refl

view_state :
    (t : EntityType) (msg : StateResponse t) (e : Option StoredEntity)
    → view (some (with_state t (state_key t msg) (state_response t msg) (or_new e)))
      ≡ see (state_response t msg) (view e)
unfolding view with_state or_new see is_type
view_state t msg none = refl
view_state t msg (some e) = refl

-- One message changes the register of its key and no other.
find-ingest :
    (key : ℕ) (msg : ProtoMessage) (s : EntityStore)
    → view (find key (ingest msg s).0)
      ≡ (if is_about key (key_of msg) then see msg (view (find key s)) else view (find key s))
unfolding find is_about key_of
find-ingest key (list_response t msg) s =
    let f = with_info t (info_base t msg) (list_response t msg) in
    let r = lookup-modify key (info_base t msg).key f s.entities in
    rw (ingest-list_response t msg s, r)
      (elim (Bool-cases ((info_base t msg).key == key)) [
        | inl e ↦ rw e (view_list t msg (lookup key s.entities))
        | inr e ↦ rw e refl
      ])
find-ingest key (state_response t msg) s =
    let f = with_state t (state_key t msg) (state_response t msg) in
    let r = lookup-modify key (state_key t msg) f s.entities in
    rw (ingest-state_response t msg s, r)
      (elim (Bool-cases (state_key t msg == key)) [
        | inl e ↦ rw e (view_state t msg (lookup key s.entities))
        | inr e ↦ rw e refl
      ])
find-ingest key (other name) s = rw (ingest-other name s) refl

see_all-about :
    (key : ℕ) (msg : ProtoMessage) (msgs : List ProtoMessage) (v : Option Seen)
    → see_all (about key (msg ∷ msgs)) v
      ≡ see_all (about key msgs) (if is_about key (key_of msg) then see msg v else v)
unfolding see_all about
see_all-about key msg msgs v = elim (Bool-cases (is_about key (key_of msg))) [
  | inl e ↦ rw e refl
  | inr e ↦ rw e refl
]

-- Whatever messages the store takes in, and in whatever order those of different entities are mixed, it
-- holds of every key what an observer of the messages with that key alone knows: no entity before the
-- first of them, and else the type, the last description and the last state.
pub find-run :
    (key : ℕ) (msgs : List ProtoMessage) (s : EntityStore)
    → view (find key (run msgs s)) ≡ see_all (about key msgs) (view (find key s))
unfolding run see_all about
find-run key [] s = refl
find-run key (msg ∷ msgs) s =
    find-run key msgs (ingest msg s).0
    ∙ ap (see_all (about key msgs)) (find-ingest key msg s)
    ∙ sym (see_all-about key msg msgs (view (find key s)))
