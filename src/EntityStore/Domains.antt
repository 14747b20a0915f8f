-- ===== src/EntityStore/Domains.antt =====
-- The `static_cast`s of the accessors: a device that keeps every key in one domain never makes one go wrong.
use cpp_esphome_api.Base.{
  ℕ, ◌≡◌, refl, sym, ap, ◌∙◌, ◌≢◌, ◌⊎◌, inl, inr, Bool, Option, none, some, List, [], arith,
  Bool-cases, Option-cases,
}
use mathlib.Core.Path.{subst}
use cpp_esphome_api.EntityType.{EntityType}
use cpp_esphome_api.Entities.Common.{or_from_name}
use cpp_esphome_api.Entities.Classes.{
  ListResponse, StateResponse, Info, ProtoMessage, list_response, state_response, other,
  InfoResponseBase, info_base,
}
use cpp_esphome_api.Entities.Casts.{base_info, cast_list, cast_state}
use cpp_esphome_api.Entities.Classes.Domains.{
  cast_list-list_response, cast_state-state_response, SameBase, base_info-parse_info,
}
use cpp_esphome_api.EntityStore.{
  StoredEntity, EntityStore, lookup, is_type, find, Accessed, absent, wrong_class, found, parsed,
  info_of, state_of, entity_info, entity_state, typed_info, typed_state,
}
use cpp_esphome_api.EntityStore.Latest.{run}
use cpp_esphome_api.EntityStore.Entries.{
  is_type→eq, InfoKept, StateKept, AreEntries, AllAgree, run-AreEntries, lookup-IsEntry,
}

module _ (t : EntityType) where
  cast_at :
      (u : EntityType)
      → u ≡ t
      → (msg : ListResponse u)
      → (m : ListResponse t) × (cast_list t (list_response u msg) ≡ some m)
        × (info_base t m ≡ info_base u msg)
  cast_at u same =
      subst
        (λ x.
          (msg : ListResponse u)
          → (m : ListResponse x) × (cast_list x (list_response u msg) ≡ some m)
            × (info_base x m ≡ info_base u msg))
        same (λ msg. (msg, cast_list-list_response u msg, refl))

  state_cast_at :
      (u : EntityType)
      → u ≡ t
      → (msg : StateResponse u)
      → (m : StateResponse t) × (cast_state t (state_response u msg) ≡ some m)
  state_cast_at u same =
      subst
        (λ x.
          (msg : StateResponse u)
          → (m : StateResponse x) × (cast_state x (state_response u msg) ≡ some m))
        same (λ msg. (msg, cast_state-state_response u msg))

  -- An answer that is defined and, if it is a description, is that of the stored entity.
  pub IsOwn : StoredEntity → Accessed (Info t) → Type 0
  IsOwn e absent = Unit
  IsOwn e wrong_class = ⊥
  IsOwn e (found i) =
      ((base_info t i).key ≡ e.key)
      × ((base_info t i).name ≡ e.name)
      × ((base_info t i).object_id ≡ e.object_id)

  info_of-IsOwn :
      (u : EntityType) (e : StoredEntity) (i : Option ProtoMessage)
      → u ≡ t
      → InfoKept u e i
      → IsOwn e (info_of t i)
  unfolding InfoKept info_of parsed IsOwn SameBase
  info_of-IsOwn u e none same h = _
  info_of-IsOwn u e (some (list_response v msg)) same (w, k, n, o) =
      let (m, is, b) = cast_at v (w ∙ same) msg in
      let (bk, bn, bo) = base_info-parse_info t m in
      rw is (
        bk ∙ ap (λ (x : InfoResponseBase). x.key) b ∙ sym k,
        bn ∙ ap (λ (x : InfoResponseBase). x.name) b ∙ sym n,
        bo ∙ ap (λ (x : InfoResponseBase). or_from_name x.object_id x.name) b ∙ sym o,
      )
  info_of-IsOwn u e (some (state_response v msg)) same h = elim h [ ]
  info_of-IsOwn u e (some (other name)) same h = elim h [ ]

  state_of-defined :
      (u : EntityType) (i : Option ProtoMessage)
      → u ≡ t
      → StateKept u i
      → state_of t i ≢ wrong_class
  unfolding StateKept state_of parsed
  state_of-defined u none same h = λ e. ground (arith, e)
  state_of-defined u (some (state_response v msg)) same w =
      let (m, is) = state_cast_at v (w ∙ same) msg in rw is (λ e. ground (arith, e))
  state_of-defined u (some (list_response v msg)) same h = elim h [ ]
  state_of-defined u (some (other name)) same h = elim h [ ]

  typed_info-IsOwn :
      (types : ℕ → EntityType) (key : ℕ) (s : EntityStore)
      → AreEntries types s.entities
      → (typed_info t key s ≡ absent)
        ⊎ ((e : StoredEntity) × (find key s ≡ some e) × IsOwn e (typed_info t key s))
  unfolding typed_info entity_info find
  typed_info-IsOwn types key s h = elim (Option-cases (lookup key s.entities)) [
    | inl e ↦ inl (rw e refl)
    | inr (e, at) ↦
        let (type, k, info, state) = lookup-IsEntry types key s.entities e h at in
        elim (Bool-cases (is_type e.type t)) [
          | inl b ↦ inr (
            e,
            at,
            rw (at, b) (info_of-IsOwn (types key) e e.info (sym type ∙ is_type→eq e.type t b) info),
          )
          | inr b ↦ inl (rw (at, b) refl)
        ]
  ]

  typed_state-defined :
      (types : ℕ → EntityType) (key : ℕ) (s : EntityStore)
      → AreEntries types s.entities
      → typed_state t key s ≢ wrong_class
  unfolding typed_state entity_state find
  typed_state-defined types key s h = elim (Option-cases (lookup key s.entities)) [
    | inl e ↦ rw e (λ x. ground (arith, x))
    | inr (e, at) ↦
        let (type, k, info, state) = lookup-IsEntry types key s.entities e h at in
        elim (Bool-cases (is_type e.type t)) [
          | inl b ↦
              rw (at, b)
                (state_of-defined (types key) e.state (sym type ∙ is_type→eq e.type t b) state)
          | inr b ↦ rw (at, b) (λ x. ground (arith, x))
        ]
  ]

-- An empty store after the messages.
abbrev pub after : List ProtoMessage → Bool → EntityStore
after msgs has_callback = run msgs (record { entities = []; state_cb = has_callback })

-- A device that keeps each key in one domain, whatever else it sends and in whatever order, is read through
-- the accessors without a cast to a wrong class: after its messages, on a store that was empty, the state
-- accessor of every domain is defined at every key, and the description accessor answers nothing or, for an
-- entity that is stored, the description with the key, the name and the object id that are stored.
pub run-typed :
    (types : ℕ → EntityType) (msgs : List ProtoMessage) (has_callback : Bool) (t : EntityType)
    (key : ℕ)
    → AllAgree types msgs
    → (typed_state t key (after msgs has_callback) ≢ wrong_class)
      × ((typed_info t key (after msgs has_callback) ≡ absent)
          ⊎ ((e : StoredEntity) × (find key (after msgs has_callback) ≡ some e)
              × IsOwn t e (typed_info t key (after msgs has_callback))))
run-typed types msgs has_callback t key a =
    let s = after msgs has_callback in
    let h =
      run-AreEntries types msgs (record { entities = []; state_cb = has_callback }) a
        (unfold AreEntries in _) in
    (typed_state-defined t types key s h, typed_info-IsOwn t types key s h)
