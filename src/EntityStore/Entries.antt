-- ===== src/EntityStore/Entries.antt =====
-- Entries whose description and state belong to the domain of their key, through every message.
use cpp_esphome_api.Base.{
  ℕ, ◌≡◌, refl, sym, ◌∙◌, inl, inr, true, Option, none, some, List, [], ◌∷◌, arith, ◌==◌, ==_iff,
  Bool-cases,
}
use mathlib.Core.Path.{subst}
use cpp_esphome_api.EntityType.{EntityType, EntityType-discrete, unknown}
use cpp_esphome_api.Entities.Common.{or_from_name}
use cpp_esphome_api.Entities.Classes.{
  ListResponse, StateResponse, ProtoMessage, list_response, state_response, other, info_base,
  state_key,
}
use cpp_esphome_api.EntityStore.{
  StoredEntity, new_entity, EntityStore, modify, lookup, with_info, is_type, with_state, ingest,
}
use cpp_esphome_api.EntityStore.Ingest.{ingest-list_response, ingest-state_response, ingest-other}
use cpp_esphome_api.EntityStore.Latest.{run}

pub is_type→eq : (a b : EntityType) → is_type a b ≡ true → a ≡ b
unfolding is_type
is_type→eq a b e = ground (arith, EntityType-discrete a b)

-- A message is of the domain that its key belongs to.
unfoldable pub Agrees : (ℕ → EntityType) → ProtoMessage → Type 0
Agrees types (list_response t msg) = types (info_base t msg).key ≡ t
Agrees types (state_response t msg) = types (state_key t msg) ≡ t
Agrees types (other name) = Unit

-- What is stored of a description, beside the message itself.
unfoldable pub InfoKept : EntityType → StoredEntity → Option ProtoMessage → Type 0
InfoKept t e none = Unit
InfoKept t e (some (list_response u msg)) =
    (u ≡ t)
    × (e.key ≡ (info_base u msg).key)
    × (e.name ≡ (info_base u msg).name)
    × (e.object_id ≡ or_from_name (info_base u msg).object_id (info_base u msg).name)
InfoKept t e (some msg) = ⊥

unfoldable pub StateKept : EntityType → Option ProtoMessage → Type 0
StateKept t none = Unit
StateKept t (some (state_response u msg)) = u ≡ t
StateKept t (some msg) = ⊥

abbrev IsEntry : (ℕ → EntityType) → ℕ → StoredEntity → Type 0
IsEntry types k e =
    (e.type ≡ types k) × (e.key ≡ k) × InfoKept (types k) e e.info × StateKept (types k) e.state

unfoldable pub AreEntries : (ℕ → EntityType) → List (ℕ × StoredEntity) → Type 0
AreEntries types [] = Unit
AreEntries types ((k, e) ∷ m) = IsEntry types k e × AreEntries types m

modify-AreEntries :
    (types : ℕ → EntityType) (key : ℕ) (f : StoredEntity → StoredEntity)
    (m : List (ℕ × StoredEntity))
    → IsEntry types key (f new_entity)
    → ((e : StoredEntity) → IsEntry types key e → IsEntry types key (f e))
    → AreEntries types m
    → AreEntries types (modify key f m)
unfolding modify AreEntries
modify-AreEntries types key f [] fresh step h = (fresh, _)
modify-AreEntries types key f ((k, e) ∷ m) fresh step (he, hm) = elim (Bool-cases (k == key)) [
  | inl t ↦
      let same : key ≡ k = sym ((==_iff k key).0 t) in
      rw t (
        subst (λ x. IsEntry types x (f e)) same
            (step e (subst (λ x. IsEntry types x e) (sym same) he)),
        hm,
      )
  | inr t ↦ rw t (he, modify-AreEntries types key f m fresh step hm)
]

with_info-IsEntry :
    (types : ℕ → EntityType) (t : EntityType) (msg : ListResponse t) (e : StoredEntity)
    → types (info_base t msg).key ≡ t
    → StateKept (types (info_base t msg).key) e.state
    → IsEntry types (info_base t msg).key (with_info t (info_base t msg) (list_response t msg) e)
unfolding with_info InfoKept
with_info-IsEntry types t msg e a s = (sym a, refl, (sym a, refl, refl, refl), s)

InfoKept-same_as :
    (t : EntityType) (e e' : StoredEntity) (i : Option ProtoMessage)
    → e'.key ≡ e.key
    → e'.name ≡ e.name
    → e'.object_id ≡ e.object_id
    → InfoKept t e i
    → InfoKept t e' i
unfolding InfoKept
InfoKept-same_as t e e' none hk hn ho h = _
InfoKept-same_as t e e' (some (list_response u msg)) hk hn ho (same, k, n, o) =
    (same, hk ∙ k, hn ∙ n, ho ∙ o)
InfoKept-same_as t e e' (some (state_response u msg)) hk hn ho h = elim h [ ]
InfoKept-same_as t e e' (some (other name)) hk hn ho h = elim h [ ]

with_state-IsEntry :
    (types : ℕ → EntityType) (t : EntityType) (msg : StateResponse t) (e : StoredEntity)
    → types (state_key t msg) ≡ t
    → IsEntry types (state_key t msg) e
    → IsEntry types (state_key t msg) (with_state t (state_key t msg) (state_response t msg) e)
unfolding with_state StateKept
with_state-IsEntry types t msg e a (type, key, info, state) =
    let f = with_state t (state_key t msg) (state_response t msg) e in
    let kept = InfoKept-same_as (types (state_key t msg)) e f e.info (sym key) refl refl info in
    let domain : f.type ≡ types (state_key t msg) = elim (Bool-cases (is_type e.type unknown)) [
      | inl b ↦ rw b (sym a)
      | inr b ↦ rw b type
    ] in
    (domain, refl, kept, sym a)

ingest-AreEntries :
    (types : ℕ → EntityType) (msg : ProtoMessage) (s : EntityStore)
    → Agrees types msg
    → AreEntries types s.entities
    → AreEntries types (ingest msg s).0.entities
unfolding Agrees
ingest-AreEntries types (list_response t msg) s a h = rw (ingest-list_response t msg s) (
    modify-AreEntries types (info_base t msg).key
      (with_info t (info_base t msg) (list_response t msg)) s.entities
      (with_info-IsEntry types t msg new_entity a (unfold StateKept in _))
      (λ e he. with_info-IsEntry types t msg e a he.3) h)
ingest-AreEntries types (state_response t msg) s a h = rw (ingest-state_response t msg s) (
    modify-AreEntries types (state_key t msg)
      (with_state t (state_key t msg) (state_response t msg)) s.entities
      (unfold with_state StateKept InfoKept is_type in (sym a, refl, _, sym a))
      (λ e he. with_state-IsEntry types t msg e a he) h)
ingest-AreEntries types (other name) s a h = rw (ingest-other name s) h

unfoldable pub AllAgree : (ℕ → EntityType) → List ProtoMessage → Type 0
AllAgree types [] = Unit
AllAgree types (msg ∷ msgs) = Agrees types msg × AllAgree types msgs

pub run-AreEntries :
    (types : ℕ → EntityType) (msgs : List ProtoMessage) (s : EntityStore)
    → AllAgree types msgs
    → AreEntries types s.entities
    → AreEntries types (run msgs s).entities
unfolding run AllAgree
run-AreEntries types [] s a h = h
run-AreEntries types (msg ∷ msgs) s (a, rest) h =
    run-AreEntries types msgs (ingest msg s).0 rest (ingest-AreEntries types msg s a h)

pub lookup-IsEntry :
    (types : ℕ → EntityType) (key : ℕ) (m : List (ℕ × StoredEntity)) (e : StoredEntity)
    → AreEntries types m
    → lookup key m ≡ some e
    → IsEntry types key e
unfolding lookup AreEntries
lookup-IsEntry types key [] e h at = absurd (ground (arith, at))
lookup-IsEntry types key ((k, e0) ∷ m) e (he, hm) at = elim (Bool-cases (k == key)) [
  | inl t ↦
      let same : some e0 ≡ some e = sym (rw t refl) ∙ at in
      subst (λ x. IsEntry types x e) ((==_iff k key).0 t)
        (subst (λ x. IsEntry types k x) (ground (arith, same)) he)
  | inr t ↦ lookup-IsEntry types key m e hm (sym (rw t refl) ∙ at)
]
