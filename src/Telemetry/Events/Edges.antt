-- ===== src/Telemetry/Events/Edges.antt =====
-- Every handler reacts to an edge: a value that is reported again makes no event.
use uplink_service.Prelude.{
  String, none, List, [], ◌∷◌, ◌≡◌, refl, arith, str_eq, eq_iff, append, if◌then◌else◌, str_eq_self,
  ap, ◌∙◌,
}
use uplink_service.GoMap.{insert, lookup-insert}
use uplink_service.Telemetry.Events.{
  Watch, battery_charge, battery_present, battery_temperature, power_state, nrf_reset,
  internet_status, handlebar_lock, seatbox_lock, gps_state, ecu_temperature, cb_battery_charge,
  ota_status, alarm_active, alarm_status, usb_mode, LastState, last, handle,
}

-- The key of lastState that a handler reads and writes.
abbrev pub key_of : Watch → String
key_of (battery_charge battery) = append battery ":charge"
key_of (battery_present battery) = append battery ":present"
key_of (battery_temperature battery) = append battery (append ":" "temperature")
key_of power_state = "power:state"
key_of (nrf_reset count) = "power-manager:nrf-reset-reason"
key_of internet_status = "internet:status"
key_of handlebar_lock = "vehicle:handlebar"
key_of seatbox_lock = "vehicle:seatbox"
key_of gps_state = "gps:state"
key_of ecu_temperature = append "engine-ecu" (append ":" "temperature")
key_of cb_battery_charge = "cb-battery:charge"
key_of ota_status = "ota:status"
key_of alarm_active = "alarm:alarm-active"
key_of alarm_status = "alarm:status"
key_of usb_mode = "usb:mode"

-- Every handler records the value under its own key and changes nothing else.
handle-state :
    (w : Watch) (st : LastState) (value : String)
    → (handle w st value).0 ≡ insert (key_of w) value st
unfolding handle
handle-state (battery_charge b) st value = refl
handle-state w st value = refl

last-insert : (k v : String) (st : LastState) → last k (insert k v st) ≡ v
last-insert k v st = ground (arith, lookup-insert k k v st, str_eq_self k)

-- No handler makes an event when its last value is the one that is reported.
handle_same :
    (w : Watch) (st : LastState) (value : String)
    → last (key_of w) st ≡ value
    → (handle w st value).1 ≡ none
unfolding handle
handle_same (battery_charge b) st value h =
    ground (arith, eq_iff (last (append b ":charge") st) value)
handle_same w st value h = ground (arith, eq_iff (last (key_of w) st) value)

-- What reached the handlers, in order.
abbrev pub Log : Type 0
Log = List (Watch × String)

unfoldable pub run : LastState → Log → LastState
run st [] = st
run st ((w, value) ∷ log) = run (handle w st value).0 log

-- The value that the last report under a key had.
abbrev pub last_report : String → Log → String → String
last_report key [] start = start
last_report key ((w, value) ∷ log) start =
    last_report key log (if str_eq (key_of w) key then value else start)

last-run :
    (key : String) (st : LastState) (log : Log)
    → last key (run st log) ≡ last_report key log (last key st)
unfolding run
last-run key st [] = refl
last-run key st ((w, value) ∷ log) =
    last-run key (handle w st value).0 log
    ∙ ap (last_report key log)
        (rw (handle-state w st value) (ground (arith, lookup-insert (key_of w) key value st)))

-- After any reports, to any of the handlers, a report makes no event when its value is the one that
-- was last reported under the handler's key.
pub repeated_report_is_silent :
    (st : LastState) (log : Log) (w : Watch) (value : String)
    → last_report (key_of w) log (last (key_of w) st) ≡ value
    → (handle w (run st log) value).1 ≡ none
repeated_report_is_silent st log w value h =
    handle_same w (run st log) value (last-run (key_of w) st log ∙ h)
