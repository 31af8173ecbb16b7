-- ===== src/Tests/Commanding.antt =====
-- Runs of the command handlers.
use uplink_service.Prelude.{
  ℕ, str_eq, refl, Option, ◌≤◌, String, true, false, some, none, List, [], ◌∷◌, ◌≡◌, ◌⊎◌, length,
  All,
}
use uplink_service.GoMap.{GoMap, lookup}
use uplink_service.Commands.Alarm.{AlarmEvent, pulses, ends, alarm_pulse, alarm_run, silent}
use uplink_service.Commands.Silence.{at_most_one_alarm}
use uplink_service.Commands.Keycards.{times_out}
use uplink_service.Commands.Correlation.{
  KeycardEvent, asks, answers, gives_up, exchange, idle_exchange, IsOwn, exchange-IsOwn,
}
use uplink_service.Commands.Updates.{resolve_update_targets}
use uplink_service.Commands.Boards.{all_boards, Rejects}
use uplink_service.Commands.Targets.{wanted, Queues, resolve_update_targets_cases}
use uplink_service.Connection.State.{
  Codec, Manager, new_manager, increment_messages_sent, CommandMessage,
}
use uplink_service.Commands.Redis.{lpush, redis_command}
use uplink_service.Commands.Navigation.{navigation_is_guarded}
use uplink_service.Connection.Sends.{send_command_response}
use uplink_service.Commands.Gate.{
  GateConfig, Handling, execute_command, send_command, dispatch, command_disabled, send_response,
}
use uplink_service.Commands.Routes.{
  Numbers, Param, array, object, number, text, navigate, as_scalar, as_text,
}
use uplink_service.Commands.Plans.{IsJustified, navigate-IsJustified}
use uplink_service.Commands.Locate.{Turn, locate}
use uplink_service.Commands.Quiet.{awaits_off, left_on, refuses_off, locate_leaves_quiet}

-- Two alarms; the first ends when the second already beeps.
abbrev alarms : List AlarmEvent
alarms = pulses none ∷ pulses (some "on") ∷ ends 1 ∷ []

at_most_one_alarm_example :
    (length (alarm_run silent alarms).alive ≤ 1)
    × ((alarm_pulse (alarm_run silent alarms) (some "off")).alive ≡ [])
at_most_one_alarm_example = at_most_one_alarm alarms

-- The first command times out, the second is refused, and the answer comes after that.
abbrev late_answer : List KeycardEvent
late_answer =
    asks 1 true ∷ gives_up 1 times_out ∷ asks 2 true ∷ answers ∷ asks 3 true ∷ answers ∷ []

exchange-IsOwn_example : All IsOwn (exchange (idle_exchange true) late_answer).delivered
exchange-IsOwn_example = exchange-IsOwn true late_answer

abbrev request : List String
request = "dbc" ∷ "mdb" ∷ "dbc" ∷ []

resolve_update_targets_cases_example :
    Rejects (wanted request) (resolve_update_targets request false)
    ⊎ ((all_boards (wanted request) ≡ true)
        × Queues (wanted request) false (resolve_update_targets request false))
resolve_update_targets_cases_example = resolve_update_targets_cases request false

navigation_is_guarded_example : str_eq "lpush" "lpush" ≡ true
unfolding redis_command
navigation_is_guarded_example =
    navigation_is_guarded "lpush" ("navigation" ∷ "x" ∷ []) (lpush "navigation" "x") refl refl

abbrev locked_down : GateConfig
locked_down = record { commands = ("honk", true) ∷ []; environment = "production" }

abbrev two_bytes : Codec
two_bytes = record {
  Any = ℕ;
  marshal = λ msg. some (1 ∷ 2 ∷ []);
  parse_type = λ bytes. none;
  parse_header = λ bytes. none;
  parse_auth_response = λ bytes. none;
  parse_command = λ bytes. none;
  parse_config_update = λ bytes. none;
}

abbrev online : Manager two_bytes
unfolding new_manager
online = record (new_manager two_bytes) { connected = true; authenticated = true }

abbrev unlock : CommandMessage ℕ
unlock = record { request_id = "r1"; command = "unlock"; params = [] }

abbrev succeeds : Handling → GoMap ℕ × Option String
succeeds h = ([], none)

-- The same command by evaluation: its handler runs, and a response is queued.
unlock_run :
    let r = execute_command locked_down succeeds "now" online unlock in
    (r.0 ≡ some (send_command "scooter:state" "unlock")) × (r.1.send_chan ≡ (1 ∷ 2 ∷ []) ∷ [])
unfolding execute_command dispatch lookup command_disabled new_manager send_response
    send_command_response increment_messages_sent
unlock_run = (refl, refl)

abbrev decimals : Numbers
decimals = record { Float = ℕ; parse_trimmed = λ s. none }

abbrev tour : GoMap (Param decimals)
tour =
    (
      "waypoints",
      array (
          object (("lat", number 52) ∷ ("lon", number 13) ∷ [])
          ∷ object (("lat", text "north") ∷ [])
          ∷ []),
    )
    ∷ []

navigate-IsJustified_example :
    IsJustified
      (some "cap:ext:nav=2")
      (lookup "waypoints" tour)
      (as_scalar (lookup "latitude" tour))
      (as_scalar (lookup "longitude" tour))
      (as_text (some (as_scalar (lookup "address" tour))))
      (navigate (some "cap:ext:nav=2") tour)
navigate-IsJustified_example = navigate-IsJustified (some "cap:ext:nav=2") tour

abbrev whole_turn : Turn
whole_turn = record { on_accepted = true; off_accepted = true; beep_slept = true; gap_slept = true }

-- The service ends during the second beep.
abbrev cut_turn : Turn
cut_turn = record { on_accepted = true; off_accepted = true; beep_slept = false; gap_slept = true }

locate_leaves_quiet_example :
    let sent = (locate true whole_turn cut_turn true whole_turn whole_turn true).0 in
    (awaits_off "scooter:horn" false sent ≡ false)
    × (awaits_off "scooter:blinker" false sent ≡ false)
    × ((refuses_off sent ≡ true)
        ⊎ ((left_on "scooter:horn" false sent ≡ false)
            × (left_on "scooter:blinker" false sent ≡ false)))
locate_leaves_quiet_example =
    locate_leaves_quiet true whole_turn cut_turn true whole_turn whole_turn true
