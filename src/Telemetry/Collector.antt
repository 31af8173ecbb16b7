-- ===== src/Telemetry/Collector.antt =====
-- internal/telemetry/collector.go: which settings leave the vehicle, and the states' cloud names.
use uplink_service.Prelude.{
  String, Bool, false, ◌||◌, Option, none, some, List, [], ◌∷◌, str_eq, if◌then◌else◌, has_prefix,
  is_empty,
}
use uplink_service.GoMap.{GoMap, insert}
use uplink_service.Telemetry.Env.{Env, FieldValue, text, fields, Snapshot}

abbrev pub settings_allowed_prefixes : List String
settings_allowed_prefixes = "updates." ∷ "pm." ∷ "alarm." ∷ "trip." ∷ "engine-ecu." ∷ []

abbrev pub settings_allowed_exact : List String
settings_allowed_exact =
    "dashboard.service-mode-active" ∷ "scooter.developer-mode" ∷ "scooter.dual-battery" ∷ []

unfoldable pub any_equal : String → List String → Bool
any_equal s [] = false
any_equal s (x ∷ xs) = str_eq x s || any_equal s xs

unfoldable pub any_prefix : String → List String → Bool
any_prefix s [] = false
any_prefix s (p ∷ ps) = has_prefix s p || any_prefix s ps

unfoldable pub settings_field_allowed : String → Bool
unfolding any_equal any_prefix
settings_field_allowed field =
    any_equal field settings_allowed_exact || any_prefix field settings_allowed_prefixes

unfoldable pub cloudify_vehicle_state : String → String
cloudify_vehicle_state raw =
    if str_eq raw "hop-on"
    then "stand-by"
    else if str_eq raw "hop-on-learning"
    then "parked"
    else raw

abbrev pub collected_hashes : List String
collected_hashes =
    "vehicle" ∷ "battery:0" ∷ "battery:1" ∷ "aux-battery" ∷ "cb-battery" ∷ "engine-ecu"
    ∷ "power-manager" ∷ "power-manager:busy-services" ∷ "power-mux" ∷ "internet" ∷ "modem" ∷ "gps"
    ∷ "keycard" ∷ "ble" ∷ "dashboard" ∷ "system" ∷ "version:mdb" ∷ "version:dbc" ∷ "ota" ∷ "alarm"
    ∷ "navigation" ∷ "scooter" ∷ "trip" ∷ "trip:counter" ∷ "usb" ∷ "remote-access" ∷ "settings" ∷ []

-- The fields that stay of a key's hash: only the allowed ones of settings.
unfoldable pub allowed_fields {ℓ} : {V : Type ℓ} → GoMap V → GoMap V
allowed_fields [] = []
allowed_fields ((field, v) ∷ m) =
    let rest = allowed_fields m in if settings_field_allowed field then (field, v) ∷ rest else rest

unfoldable pub kept_fields {ℓ} : {V : Type ℓ} → String → GoMap V → GoMap V
unfolding allowed_fields
kept_fields key m = if str_eq key "settings" then allowed_fields m else m

-- What collectKey returns for a key: HGetAll's answer, or nothing if it fails.
abbrev pub Redis : Type 0
Redis = String → Option (GoMap String)

abbrev pub hash_of : Option (GoMap String) → GoMap String
hash_of none = []
hash_of (some m) = m

module _ (e : Env) where
  unfoldable pub as_fields : GoMap String → GoMap (FieldValue e)
  as_fields [] = []
  as_fields ((f, v) ∷ m) = (f, text v) ∷ as_fields m

  unfoldable pub add_section : String → GoMap String → Snapshot e → Snapshot e
  unfolding as_fields
  add_section key m state = if is_empty m then state else insert key (fields (as_fields m)) state

  -- The loop of CollectState over the keys.
  unfoldable pub collect_from : Redis → List String → Snapshot e → Snapshot e
  unfolding add_section
  collect_from redis [] state = state
  collect_from redis (key ∷ keys) state =
      collect_from redis keys (add_section key (kept_fields key (hash_of (redis key))) state)
