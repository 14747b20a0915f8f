-- ===== src/Entities/Common.antt =====
-- include/esphome/api/model/entity.hpp and src/model/entity_common.hpp: what every entity has. A text is
-- the list of its bytes; a number of any machine type, a float among them, is the bits that it has on the
-- wire, and an enum class holds whatever number the message has.
use cpp_esphome_api.Base.{
  ℕ, Bool, true, false, Option, none, some, List, [], ◌∷◌, ◌≡◌, refl, ◌+◌, ◌&&◌, ◌||◌, leb, ◌==◌,
  if◌then◌else◌,
}

pub record EntityInfo : Type 0 where
  pub key : ℕ
  pub object_id : List ℕ
  pub name : List ℕ
  pub icon : List ℕ
  pub disabled_by_default : Bool
  pub entity_category : ℕ
  pub device_id : ℕ

-- The accessors that the template `fill_entity_info` calls on a message.
pub record ListMessage (M : Type 0) : Type 0 where
  pub object_id : M → List ℕ
  pub key : M → ℕ
  pub name : M → List ℕ
  pub icon : M → List ℕ
  pub disabled_by_default : M → Bool
  pub entity_category : M → ℕ
  pub device_id : M → ℕ

-- `std::tolower` in the C locale.
unfoldable pub tolower : ℕ → ℕ
tolower ch = if leb 65 ch && leb ch 90 then ch + 32 else ch

-- The character that stands for another in an object id.
unfoldable pub snake_case : ℕ → ℕ
snake_case ch = let c = tolower ch in if c == 32 then 95 else c

unfoldable pub is_kept : ℕ → Bool
is_kept c = (c == 45) || (c == 95) || (leb 48 c && leb c 57) || (leb 97 c && leb c 122)

unfoldable pub object_id_from_name : List ℕ → List ℕ
object_id_from_name [] = []
object_id_from_name (ch ∷ name) =
    let out = object_id_from_name name in
    let c = snake_case ch in if is_kept c then c ∷ out else out

-- The id that a device sent or, without one, the one its name gives.
unfoldable pub or_from_name : List ℕ → List ℕ → List ℕ
or_from_name [] name = object_id_from_name name
or_from_name object_id name = object_id

unfoldable pub fill_entity_info : {M : Type 0} ⦃l : ListMessage M⦄ → M → EntityInfo
fill_entity_info ⦃l⦄ msg = record {
  key = l.key msg;
  object_id = or_from_name (l.object_id msg) (l.name msg);
  name = l.name msg;
  icon = l.icon msg;
  disabled_by_default = l.disabled_by_default msg;
  entity_category = l.entity_category msg;
  device_id = l.device_id msg;
}

-- `std::optional`'s.
unfoldable pub has_value : {A : Type 0} → Option A → Bool
has_value none = false
has_value (some a) = true

unfoldable pub value_or : {A : Type 0} → A → Option A → A
value_or d none = d
value_or d (some a) = a

-- A value of a request as its flag tells it.
unfoldable pub reading : {A : Type 0} → Bool → A → Option A
reading true a = some a
reading false a = none

pub reading-value_or :
    {A : Type 0} (d : A) (o : Option A) → reading (has_value o) (value_or d o) ≡ o
unfolding reading has_value value_or
reading-value_or d none = refl
reading-value_or d (some a) = refl
