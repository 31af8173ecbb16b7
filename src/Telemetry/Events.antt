-- ===== src/Telemetry/Events.antt =====
-- The detectors of internal/telemetry/events.go: each watched field keeps its last value, and a
-- change of it can make an event.
pub mod Edges
pub mod Baseline
use uplink_service.Prelude.{
  ℕ, String, Bool, true, false, ◌||◌, ◌&&◌, not, Option, none, some, List, [], ◌∷◌, str_eq,
  if◌then◌else◌, append, or_else,
}
use uplink_service.Prelude.Int.{ℤ, at_most, more_than, atoi}
use uplink_service.GoMap.{GoMap, lookup, insert}
use uplink_service.Telemetry.Env.{Env, FieldValue, text, other, Section, fields, scalar, Snapshot}

-- A value of an event's data.
pub data Datum : Type 0 where
  words : String → Datum
  number : ℤ → Datum
  -- fmt.Sprintf("0x%x", n)
  hexadecimal : ℤ → Datum

pub record Event : Type 0 where
  pub event_type : String
  pub details : GoMap Datum

-- lastState
abbrev pub LastState : Type 0
LastState = GoMap String

-- e.lastState[key]: a key that is missing reads as the empty text.
abbrev pub last : String → LastState → String
last key st = or_else (lookup key st) ""

abbrev pub Handled : Type 0
Handled = LastState × Option Event

-- The guard that most handlers share: the last value is known, and it is another one.
abbrev pub changed : String → LastState → String → Bool
changed key st value = not (str_eq (last key st) "") && not (str_eq (last key st) value)

abbrev pub when : Bool → Event → Option Event
when true ev = some ev
when false ev = none

unfoldable pub handle_battery_charge : String → LastState → String → Handled
handle_battery_charge battery st value =
    let key = append battery ":charge" in
    let charge = atoi value in
    (
      insert key value st,
      when
          (str_eq (last (append battery ":present") st) "true"
            && at_most charge 10
            && not (str_eq (last key st) value))
          (record {
            event_type = "battery_critical";
            details = ("battery", words battery) ∷ ("charge", number charge) ∷ [];
          }),
    )

unfoldable pub handle_battery_present : String → LastState → String → Handled
handle_battery_present battery st value = (insert (append battery ":present") value st, none)

unfoldable pub handle_cb_battery_charge : LastState → String → Handled
handle_cb_battery_charge st value =
    let charge = atoi value in
    (
      insert "cb-battery:charge" value st,
      when (at_most charge 10 && not (str_eq (last "cb-battery:charge" st) value)) (record {
        event_type = "cb_battery_critical";
        details = ("battery", words "cb-battery") ∷ ("charge", number charge) ∷ [];
      }),
    )

unfoldable pub handle_power_state : LastState → String → Handled
handle_power_state st value = (
  insert "power:state" value st,
  when (changed "power:state" st value) (record {
    event_type = "power_state_change";
    details = ("from", words (last "power:state" st)) ∷ ("to", words value) ∷ [];
  }),
)

-- `count` is the text that HGet answers; one that fails reads as the empty text.
unfoldable pub handle_nrf_reset : String → LastState → String → Handled
handle_nrf_reset count st value = (
  insert "power-manager:nrf-reset-reason" value st,
  when (changed "power-manager:nrf-reset-reason" st value) (record {
    event_type = "nrf_reset";
    details = ("reason", hexadecimal (atoi value)) ∷ ("count", number (atoi count)) ∷ [];
  }),
)

unfoldable pub handle_connectivity_status : LastState → String → Handled
handle_connectivity_status st value = (
  insert "internet:status" value st,
  when (changed "internet:status" st value) (record {
    event_type = if str_eq value "connected" then "connectivity_regained" else "connectivity_lost";
    details = ("status", words value) ∷ [];
  }),
)

unfoldable pub handle_handlebar_lock : LastState → String → Handled
handle_handlebar_lock st value = (
  insert "vehicle:handlebar" value st,
  when (changed "vehicle:handlebar" st value) (record {
    event_type = "lock_state_change";
    details = ("lock", words "handlebar") ∷ ("state", words value) ∷ [];
  }),
)

unfoldable pub handle_seatbox_lock : LastState → String → Handled
handle_seatbox_lock st value = (
  insert "vehicle:seatbox" value st,
  when (changed "vehicle:seatbox" st value) (record {
    event_type = "lock_state_change";
    details = ("lock", words "seatbox") ∷ ("state", words value) ∷ [];
  }),
)

unfoldable pub handle_gps_state : LastState → String → Handled
handle_gps_state st value = (
  insert "gps:state" value st,
  when (changed "gps:state" st value) (record {
    event_type =
        if str_eq value "fix-3d" || str_eq value "fix-2d"
        then "gps_fix_regained"
        else "gps_fix_lost";
    details = ("state", words value) ∷ [];
  }),
)

unfoldable pub handle_ota_status : LastState → String → Handled
handle_ota_status st value = (
  insert "ota:status" value st,
  when (changed "ota:status" st value) (record {
    event_type = "ota_status_change";
    details = ("from", words (last "ota:status" st)) ∷ ("to", words value) ∷ [];
  }),
)

unfoldable pub handle_alarm_active : LastState → String → Handled
handle_alarm_active st value = (
  insert "alarm:alarm-active" value st,
  when (changed "alarm:alarm-active" st value) (record {
    event_type = if str_eq value "true" then "alarm_triggered" else "alarm_cleared";
    details = ("active", words value) ∷ [];
  }),
)

unfoldable pub handle_alarm_status : LastState → String → Handled
handle_alarm_status st value = (
  insert "alarm:status" value st,
  when (changed "alarm:status" st value) (record {
    event_type = "alarm_state_change";
    details = ("from", words (last "alarm:status" st)) ∷ ("to", words value) ∷ [];
  }),
)

unfoldable pub temperature_threshold : String → ℕ
temperature_threshold component =
    if str_eq component "battery:0" || str_eq component "battery:1" then 60 else 80

unfoldable pub handle_temperature : String → String → LastState → String → Handled
unfolding temperature_threshold
handle_temperature component field st value =
    let key = append component (append ":" field) in
    let temp = atoi value in
    (
      insert key value st,
      when (more_than temp (temperature_threshold component) && not (str_eq (last key st) value))
          (record {
            event_type = "temperature_warning";
            details = ("component", words component) ∷ ("temperature", number temp) ∷ [];
          }),
    )

unfoldable pub handle_usb_mode_change : LastState → String → Handled
handle_usb_mode_change st value = (
  insert "usb:mode" value st,
  when (changed "usb:mode" st value) (record {
    event_type = "usb_mode_change";
    details = ("from", words (last "usb:mode" st)) ∷ ("to", words value) ∷ [];
  }),
)

-- The fields that Start registers a handler for; for the reset reason, with the reset count that
-- Redis holds at the time.
pub data Watch : Type 0 where
  battery_charge battery_present battery_temperature : String → Watch
  power_state : Watch
  nrf_reset : String → Watch
  internet_status handlebar_lock seatbox_lock gps_state ecu_temperature cb_battery_charge : Watch
  ota_status alarm_active alarm_status usb_mode : Watch

unfoldable pub handle : Watch → LastState → String → Handled
unfolding handle_battery_charge handle_battery_present handle_temperature handle_power_state
    handle_nrf_reset handle_connectivity_status handle_handlebar_lock handle_seatbox_lock
    handle_gps_state handle_cb_battery_charge handle_ota_status handle_alarm_active
    handle_alarm_status handle_usb_mode_change
handle (battery_charge battery) st value = handle_battery_charge battery st value
handle (battery_present battery) st value = handle_battery_present battery st value
handle (battery_temperature battery) st value = handle_temperature battery "temperature" st value
handle power_state st value = handle_power_state st value
handle (nrf_reset count) st value = handle_nrf_reset count st value
handle internet_status st value = handle_connectivity_status st value
handle handlebar_lock st value = handle_handlebar_lock st value
handle seatbox_lock st value = handle_seatbox_lock st value
handle gps_state st value = handle_gps_state st value
handle ecu_temperature st value = handle_temperature "engine-ecu" "temperature" st value
handle cb_battery_charge st value = handle_cb_battery_charge st value
handle ota_status st value = handle_ota_status st value
handle alarm_active st value = handle_alarm_active st value
handle alarm_status st value = handle_alarm_status st value
handle usb_mode st value = handle_usb_mode_change st value

-- handleFault: an entry of the fault stream.
unfoldable pub handle_fault : GoMap String → Option Event
handle_fault values = elim (lookup "group" values) [
  | none ↦ none
  | some group ↦ elim (lookup "code" values) [
    | none ↦ none
    | some code_text ↦
        let base : GoMap Datum = ("group", words group) ∷ ("code", number (atoi code_text)) ∷ [] in
        some (record {
          event_type = "fault";
          details = elim (lookup "description" values) [
            | none ↦ base
            | some desc ↦ insert "description" (words desc) base
          ];
        })
  ]
]

-- handleOTAError
unfoldable pub handle_ota_error : GoMap String → Option Event
handle_ota_error values =
    if str_eq (last "event" values) "error"
    then some (record {
      event_type = "ota_error";
      details =
          ("component", words (last "component" values))
          ∷ ("code", words (last "code" values))
          ∷ ("message", words (last "message" values))
          ∷ [];
    })
    else none

module _ (e : Env) where
  unfoldable pub initialize_fields : String → GoMap (FieldValue e) → LastState → LastState
  initialize_fields hash [] st = st
  initialize_fields hash ((field, text s) ∷ rest) st =
      initialize_fields hash rest (insert (append hash (append ":" field)) s st)
  initialize_fields hash ((field, other x) ∷ rest) st = initialize_fields hash rest st

  unfoldable pub initialize_baseline : Snapshot e → LastState → LastState
  unfolding initialize_fields
  initialize_baseline [] st = st
  initialize_baseline ((hash, fields fs) ∷ rest) st =
      initialize_baseline rest (initialize_fields hash fs st)
  initialize_baseline ((hash, scalar v) ∷ rest) st = initialize_baseline rest st
