-- ===== src/EntityType/Tests.antt =====
-- A name that no type has.
use cpp_esphome_api.Base.{◌≡◌, refl}
use cpp_esphome_api.EntityType.{unknown, entity_type_from_token, find_token}

no_such_token : entity_type_from_token "Toaster" ≡ unknown
unfolding entity_type_from_token find_token
no_such_token = refl
