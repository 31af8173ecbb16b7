-- ===== src/Telemetry/Monitor.antt =====
-- internal/telemetry/monitor.go: which changes of the vehicle's state cause a transmission, and by
-- when.
pub mod Deadlines
use uplink_service.Prelude.{
  ℕ, ◌+◌, ◌*◌, String, Bool, true, false, ◌||◌, ◌&&◌, Option, none, some, List, [], ◌∷◌, str_eq,
  if◌then◌else◌, append, is_some, or_else,
}
use uplink_service.GoMap.{GoMap, lookup, insert}
use uplink_service.Telemetry.Env.{Env, FieldValue, text, other, Section, fields, scalar, Snapshot}
use uplink_service.Telemetry.Collector.{cloudify_vehicle_state, any_equal}

pub data Priority : Type 0 where
  immediate quick medium slow : Priority

abbrev pub second : ℕ
second = 1000000000

-- priorityDeadlines, in nanoseconds
abbrev pub priority_deadline : Priority → ℕ
priority_deadline immediate = second
priority_deadline quick = 5 * second
priority_deadline medium = 60 * second
priority_deadline slow = 900 * second

abbrev pub field_priorities : GoMap Priority
field_priorities =
    ("vehicle[state]", immediate)
    ∷ ("vehicle[seatbox:lock]", immediate)
    ∷ ("vehicle[handlebar:lock-sensor]", immediate)
    ∷ ("vehicle[blinker:state]", immediate)
    ∷ ("vehicle[main-power]", immediate)
    ∷ ("vehicle[engine-power]", immediate)
    ∷ ("power-manager[state]", immediate)
    ∷ ("ota[status]", immediate)
    ∷ ("alarm[status]", immediate)
    ∷ ("alarm[alarm-active]", immediate)
    ∷ ("aux-battery[voltage]", slow)
    ∷ ("cb-battery[cell-voltage]", slow)
    ∷ ("cb-battery[current]", slow)
    ∷ ("cb-battery[remaining-capacity]", slow)
    ∷ ("cb-battery[time-to-full]", slow)
    ∷ ("ble[last-update]", slow)
    ∷ ("scooter[temperature]", slow)
    ∷ []

abbrev pub hash_priorities : GoMap Priority
hash_priorities =
    ("gps", quick)
    ∷ ("battery:0", quick)
    ∷ ("battery:1", quick)
    ∷ ("usb", quick)
    ∷ ("trip", medium)
    ∷ ("trip:counter", medium)
    ∷ ("navigation", medium)
    ∷ ("remote-access", medium)
    ∷ ("version:mdb", slow)
    ∷ ("version:dbc", slow)
    ∷ ("power-manager:busy-services", slow)
    ∷ ("settings", slow)
    ∷ []

abbrev pub noisy_fields : List String
noisy_fields =
    "gps[timestamp]" ∷ "gps[latitude]" ∷ "gps[longitude]" ∷ "gps[altitude]" ∷ "gps[course]"
    ∷ "internet[signal-quality]" ∷ []

-- The buckets are whole numbers.
abbrev pub quantization_buckets : GoMap ℕ
quantization_buckets =
    ("battery:0[voltage]", 100)
    ∷ ("battery:1[voltage]", 100)
    ∷ ("battery:0[current]", 250)
    ∷ ("battery:1[current]", 250)
    ∷ ("engine-ecu[motor:voltage]", 50)
    ∷ ("engine-ecu[motor:current]", 100)
    ∷ ("aux-battery[voltage]", 50)
    ∷ ("cb-battery[cell-voltage]", 50)
    ∷ ("cb-battery[current]", 100)
    ∷ ("gps[speed]", 1)
    ∷ []

abbrev pub full_key : String → String → String
full_key hash field = append hash (append "[" (append field "]"))

unfoldable pub priority_for : String → String → Priority
priority_for hash field =
    or_else (lookup (full_key hash field) field_priorities)
      (or_else (lookup hash hash_priorities) medium)

-- priorityArmed: when each pending timer fires.
pub record Armed : Type 0 where
  pub at_immediate : Option ℕ
  pub at_quick : Option ℕ
  pub at_medium : Option ℕ
  pub at_slow : Option ℕ

abbrev pub armed_at : Armed → Priority → Option ℕ
armed_at a immediate = a.at_immediate
armed_at a quick = a.at_quick
armed_at a medium = a.at_medium
armed_at a slow = a.at_slow

abbrev pub set_armed : Armed → Priority → ℕ → Armed
set_armed a immediate t = record a { at_immediate = some t }
set_armed a quick t = record a { at_quick = some t }
set_armed a medium t = record a { at_medium = some t }
set_armed a slow t = record a { at_slow = some t }

abbrev pub none_armed : Armed
none_armed = record { at_immediate = none; at_quick = none; at_medium = none; at_slow = none }

pub record Monitor : Type 0 where
  pub armed : Armed
  pub last_values : GoMap String

abbrev pub new_monitor : Monitor
new_monitor = record { armed = none_armed; last_values = [] }

-- A pending timer keeps its time.
unfoldable pub arm_locked : Monitor → ℕ → Priority → Monitor
arm_locked m now priority =
    if is_some (armed_at m.armed priority)
    then m
    else record m { armed = set_armed m.armed priority (now + priority_deadline priority) }

unfoldable pub clear_timers_locked : Monitor → Monitor
clear_timers_locked m = record m { armed = none_armed }

-- The flag says whether doFlush runs.
unfoldable pub on_deadline : Monitor → Priority → Bool → Monitor × Bool
unfolding clear_timers_locked
on_deadline m priority connected = (clear_timers_locked m, connected)

unfoldable pub flush_all_pending : Monitor → Bool → Monitor × Bool
unfolding clear_timers_locked
flush_all_pending m connected = (clear_timers_locked m, connected)

module _ (e : Env) where
  abbrev pub snapped : String → Option e.Float → ℕ → String
  snapped value none bucket = value
  snapped value (some f) bucket =
      e.format_float
        (e.times (e.truncate (e.plus (e.over f (e.literal bucket)) e.one_half)) (e.literal bucket))

  abbrev pub quantize_by : Option ℕ → String → String
  quantize_by none value = value
  quantize_by (some bucket) value = snapped value (e.parse_float value) bucket

  unfoldable pub quantize : String → String → String
  quantize key value = quantize_by (lookup key quantization_buckets) value

  abbrev pub cloud_value : String → String → String → String
  cloud_value hash field value =
      if str_eq hash "vehicle" && str_eq field "state" then cloudify_vehicle_state value else value

  abbrev pub same_value : Option String → String → Bool
  same_value none q = str_eq "" q
  same_value (some v) q = str_eq v q

  -- `now` is the time at which a timer that is armed starts to run.
  unfoldable pub handle_field_change : Monitor → ℕ → String → String → String → Monitor
  handle_field_change m now hash field value =
      let key = full_key hash field in
      let q = quantize key (cloud_value hash field value) in
      if any_equal key noisy_fields
      then m
      else if same_value (lookup key m.last_values) q
      then m
      else arm_locked (record m { last_values = insert key q m.last_values }) now
          (priority_for hash field)

  unfoldable pub baseline_fields : String → GoMap (FieldValue e) → GoMap String → GoMap String
  baseline_fields hash [] values = values
  baseline_fields hash ((field, text s) ∷ rest) values =
      baseline_fields hash rest
        (insert (full_key hash field) (quantize (full_key hash field) s) values)
  baseline_fields hash ((field, other x) ∷ rest) values = baseline_fields hash rest values

  unfoldable pub baseline_from : Snapshot e → GoMap String → GoMap String
  unfolding baseline_fields
  baseline_from [] values = values
  baseline_from ((hash, fields fs) ∷ rest) values =
      baseline_from rest (baseline_fields hash fs values)
  baseline_from ((hash, scalar v) ∷ rest) values = baseline_from rest values

  unfoldable pub initialize_baseline : Monitor → Snapshot e → Monitor
  unfolding baseline_from
  initialize_baseline m state = record m { last_values = baseline_from state m.last_values }
