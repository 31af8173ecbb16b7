-- ===== src/Commands/Gate.antt =====
-- executeCommand, dispatch and sendResponse in internal/commands/handler.go: which commands are
-- refused, which handler runs, and the response.
use uplink_service.Prelude.{
  String, Bool, false, not, ◌&&◌, Option, none, some, [], ◌∷◌, if◌then◌else◌, str_eq, or_else,
  append,
}
use uplink_service.GoMap.{GoMap, lookup}
use uplink_service.Connection.State.{Codec, Manager, CommandMessage, CommandResponse}
use uplink_service.Connection.Sends.{send_command_response}

-- The parts of the configuration that the gate reads: the disabled flag of each configured command,
-- and the environment.
pub record GateConfig : Type 0 where
  pub commands : GoMap Bool
  pub environment : String

unfoldable pub command_disabled : GateConfig → String → Bool
command_disabled c command = or_else (lookup command c.commands) false

unfoldable pub is_development : GateConfig → Bool
is_development c = str_eq c.environment "development"

-- What dispatch calls: sendCommand with a queue and a text, or the method of another handler.
pub data Handling : Type 0 where
  send_command : String → String → Handling
  honk : Handling
  locate : Handling
  trip_reset : Handling
  update_check : Handling
  alarm_pulse : Handling
  navigate : Handling
  redis_command : Handling
  config_get : Handling
  config_set : Handling
  config_del : Handling
  config_save : Handling
  keycards_list : Handling
  keycards_add : Handling
  keycards_delete : Handling
  keycard_master_get : Handling
  keycard_master_set : Handling
  restart : Handling
  send_state_snapshot : Handling
  nothing : Handling

abbrev pub vehicle_commands : GoMap Handling
vehicle_commands =
    ("unlock", send_command "scooter:state" "unlock")
    ∷ ("lock", send_command "scooter:state" "lock")
    ∷ ("lock_hibernate", send_command "scooter:state" "lock-hibernate")
    ∷ ("force_lock", send_command "scooter:state" "force-lock")
    ∷ ("open_seatbox", send_command "scooter:seatbox" "open")
    ∷ ("honk", honk)
    ∷ ("blinker_left", send_command "scooter:blinker" "left")
    ∷ ("blinker_right", send_command "scooter:blinker" "right")
    ∷ ("blinker_both", send_command "scooter:blinker" "both")
    ∷ ("blinker_off", send_command "scooter:blinker" "off")
    ∷ ("dashboard_on", send_command "scooter:hardware" "dashboard:on")
    ∷ ("dashboard_off", send_command "scooter:hardware" "dashboard:off")
    ∷ ("engine_on", send_command "scooter:hardware" "engine:on")
    ∷ ("engine_off", send_command "scooter:hardware" "engine:off")
    ∷ ("handlebar_lock", send_command "scooter:hardware" "handlebar:lock")
    ∷ ("handlebar_unlock", send_command "scooter:hardware" "handlebar:unlock")
    ∷ ("reboot", send_command "scooter:power" "reboot")
    ∷ ("hibernate", send_command "scooter:power" "hibernate")
    ∷ ("hibernate_manual", send_command "scooter:power" "hibernate-manual")
    ∷ ("alarm_arm", send_command "scooter:alarm" "arm")
    ∷ ("alarm_disarm", send_command "scooter:alarm" "disarm")
    ∷ ("alarm_enable", send_command "scooter:alarm" "enable")
    ∷ ("alarm_disable", send_command "scooter:alarm" "disable")
    ∷ ("alarm_stop", send_command "scooter:alarm" "stop")
    ∷ []

abbrev pub service_commands : GoMap Handling
service_commands =
    ("locate", locate)
    ∷ ("trip_reset", trip_reset)
    ∷ ("update_check", update_check)
    ∷ ("alarm", alarm_pulse)
    ∷ ("navigate", navigate)
    ∷ ("redis", redis_command)
    ∷ ("config:get", config_get)
    ∷ ("config:set", config_set)
    ∷ ("config:del", config_del)
    ∷ ("config:save", config_save)
    ∷ ("keycards:list", keycards_list)
    ∷ ("keycards:add", keycards_add)
    ∷ ("keycards:delete", keycards_delete)
    ∷ ("keycards:master_key:get", keycard_master_get)
    ∷ ("keycards:master_key:set", keycard_master_set)
    ∷ ("restart", restart)
    ∷ ("get_state", send_state_snapshot)
    ∷ ("ping", nothing)
    ∷ []

abbrev pub second_table : String → Option Handling → Option Handling
second_table command none = lookup command service_commands
second_table command (some h) = some h

-- The switch of dispatch; none is its default.
unfoldable pub dispatch : String → Option Handling
dispatch command = second_table command (lookup command vehicle_commands)

module _ {D : Type 0} where
  abbrev pub response_with : String → String → GoMap D → Option String → CommandResponse D
  response_with request_id now result none = record {
    request_id = request_id;
    status = "success";
    result = result;
    error = "";
    timestamp = now;
  }
  response_with request_id now result (some err) = record {
    request_id = request_id;
    status = "failed";
    result = result;
    error = err;
    timestamp = now;
  }

module _ {k : Codec} where
  open k use {Any}

  -- sendResponse: an error of SendCommandResponse is only logged.
  unfoldable pub send_response : Manager k → String → String → GoMap Any → Option String → Manager k
  send_response m request_id now result err =
      (send_command_response m (response_with request_id now result err)).0

  -- A dispatched command with what its handler returned: a result and an error.
  abbrev pub dispatched :
      (Handling → GoMap Any × Option String)
      → String
      → Manager k
      → CommandMessage Any
      → Option Handling
      → Option Handling × Manager k
  dispatched returned now m cmd none =
      (none, send_response m cmd.request_id now [] (some (append "unknown command: " cmd.command)))
  dispatched returned now m cmd (some h) =
      (some h, send_response m cmd.request_id now (returned h).0 (returned h).1)

  -- The handler that ran, and the connection behind the response; the connection `m` is that of the
  -- time of the response.
  unfoldable pub execute_command :
      GateConfig
      → (Handling → GoMap Any × Option String)
      → String
      → Manager k
      → CommandMessage Any
      → Option Handling × Manager k
  execute_command c returned now m cmd =
      if not (str_eq cmd.command "ping")
        && not (str_eq cmd.command "get_state")
        && command_disabled c cmd.command
      then (none, send_response m cmd.request_id now [] (some "command disabled in config"))
      else if str_eq cmd.command "shell" && not (is_development c)
      then (
        none,
        send_response m cmd.request_id now [] (some "command not allowed in this environment"),
      )
      else dispatched returned now m cmd (dispatch cmd.command)
