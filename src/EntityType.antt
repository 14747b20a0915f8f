-- ===== src/EntityType.antt =====
-- include/esphome/api/model/entity_type.hpp and src/model/entity_type.cpp: the entity domains and
-- their names.
pub mod Tests
use Prim.Native.String.{String}
use package.text.Mathlib.Text.{◌==◌}
use cpp_esphome_api.Base.{
  List, [], ◌∷◌, ◌≡◌, refl, if◌then◌else◌, Bool-cases, ◌⊎◌, inl, inr, ◌∙◌, All,
}
use package.text.Mathlib.TextEquality.{eq_iff}

pub data EntityType : Type 0 where
  unknown binary_sensor sensor text_sensor switch light cover fan climate number select text button
        lock media_player camera siren alarm_control_panel date time date_time valve event update
        water_heater infrared radio_frequency :
      EntityType

abbrev pub EntityType-discrete : Discrete EntityType
EntityType-discrete = hlevel

unfoldable pub entity_type_name : EntityType → String
entity_type_name binary_sensor = "BinarySensor"
entity_type_name sensor = "Sensor"
entity_type_name text_sensor = "TextSensor"
entity_type_name switch = "Switch"
entity_type_name light = "Light"
entity_type_name cover = "Cover"
entity_type_name fan = "Fan"
entity_type_name climate = "Climate"
entity_type_name number = "Number"
entity_type_name select = "Select"
entity_type_name text = "Text"
entity_type_name button = "Button"
entity_type_name lock = "Lock"
entity_type_name media_player = "MediaPlayer"
entity_type_name camera = "Camera"
entity_type_name siren = "Siren"
entity_type_name alarm_control_panel = "AlarmControlPanel"
entity_type_name date = "Date"
entity_type_name time = "Time"
entity_type_name date_time = "DateTime"
entity_type_name valve = "Valve"
entity_type_name event = "Event"
entity_type_name update = "Update"
entity_type_name water_heater = "WaterHeater"
entity_type_name infrared = "Infrared"
entity_type_name radio_frequency = "RadioFrequency"
entity_type_name unknown = "Unknown"

-- The entries of the map, and its lookup.
abbrev pub entity_types : List (String × EntityType)
entity_types =
    ("BinarySensor", binary_sensor)
    ∷ ("Sensor", sensor)
    ∷ ("TextSensor", text_sensor)
    ∷ ("Switch", switch)
    ∷ ("Light", light)
    ∷ ("Cover", cover)
    ∷ ("Fan", fan)
    ∷ ("Climate", climate)
    ∷ ("Number", number)
    ∷ ("Select", select)
    ∷ ("Text", text)
    ∷ ("Button", button)
    ∷ ("Lock", lock)
    ∷ ("MediaPlayer", media_player)
    ∷ ("Camera", camera)
    ∷ ("Siren", siren)
    ∷ ("AlarmControlPanel", alarm_control_panel)
    ∷ ("Date", date)
    ∷ ("Time", time)
    ∷ ("DateTime", date_time)
    ∷ ("Valve", valve)
    ∷ ("Event", event)
    ∷ ("Update", update)
    ∷ ("WaterHeater", water_heater)
    ∷ ("Infrared", infrared)
    ∷ ("RadioFrequency", radio_frequency)
    ∷ []

unfoldable pub find_token : List (String × EntityType) → String → EntityType
find_token [] token = unknown
find_token ((name, type) ∷ rest) token =
    let later = find_token rest token in if name == token then type else later

unfoldable pub entity_type_from_token : String → EntityType
entity_type_from_token token = find_token entity_types token

-- The name of every entity type is a token of that type.
pub entity_type_from_token-entity_type_name :
    (type : EntityType) → entity_type_from_token (entity_type_name type) ≡ type
unfolding entity_type_from_token entity_type_name find_token
entity_type_from_token-entity_type_name unknown = refl
entity_type_from_token-entity_type_name binary_sensor = refl
entity_type_from_token-entity_type_name sensor = refl
entity_type_from_token-entity_type_name text_sensor = refl
entity_type_from_token-entity_type_name switch = refl
entity_type_from_token-entity_type_name light = refl
entity_type_from_token-entity_type_name cover = refl
entity_type_from_token-entity_type_name fan = refl
entity_type_from_token-entity_type_name climate = refl
entity_type_from_token-entity_type_name number = refl
entity_type_from_token-entity_type_name select = refl
entity_type_from_token-entity_type_name text = refl
entity_type_from_token-entity_type_name button = refl
entity_type_from_token-entity_type_name lock = refl
entity_type_from_token-entity_type_name media_player = refl
entity_type_from_token-entity_type_name camera = refl
entity_type_from_token-entity_type_name siren = refl
entity_type_from_token-entity_type_name alarm_control_panel = refl
entity_type_from_token-entity_type_name date = refl
entity_type_from_token-entity_type_name time = refl
entity_type_from_token-entity_type_name date_time = refl
entity_type_from_token-entity_type_name valve = refl
entity_type_from_token-entity_type_name event = refl
entity_type_from_token-entity_type_name update = refl
entity_type_from_token-entity_type_name water_heater = refl
entity_type_from_token-entity_type_name infrared = refl
entity_type_from_token-entity_type_name radio_frequency = refl

found_name :
    (entries : List (String × EntityType)) (token : String)
    → All (λ (e : String × EntityType). entity_type_name e.1 ≡ e.0) entries
    → (find_token entries token ≡ unknown) ⊎ (entity_type_name (find_token entries token) ≡ token)
unfolding find_token
found_name [] token h = inl refl
found_name ((name, type) ∷ rest) token (h, hs) = elim (Bool-cases (name == token)) [
  | inl e ↦ rw e (inr (h ∙ (eq_iff name token).0 e))
  | inr e ↦ rw e (found_name rest token hs)
]

-- Any token is answered by unknown or by the type that it is the name of.
pub entity_type_name-entity_type_from_token :
    (token : String)
    → (entity_type_from_token token ≡ unknown)
      ⊎ (entity_type_name (entity_type_from_token token) ≡ token)
unfolding entity_type_from_token entity_type_name
entity_type_name-entity_type_from_token token = found_name entity_types token (
  refl,
  (
    refl,
    (
      refl,
      (
        refl,
        (
          refl,
          (
            refl,
            (
              refl,
              (
                refl,
                (
                  refl,
                  (
                    refl,
                    (
                      refl,
                      (
                        refl,
                        (
                          refl,
                          (
                            refl,
                            (
                              refl,
                              (
                                refl,
                                (
                                  refl,
                                  (
                                    refl,
                                    (
                                      refl,
                                      (refl, (refl, (refl, (refl, (refl, (refl, (refl, tt))))))),
                                    ),
                                  ),
                                ),
                              ),
                            ),
                          ),
                        ),
                      ),
                    ),
                  ),
                ),
              ),
            ),
          ),
        ),
      ),
    ),
  ),
)
