-- ===== src/Commands/Names.antt =====
-- The names of the remote commands, read off what dispatch does for each.
use uplink_service.Prelude.{
  code, String, Bool, false, ◌||◌, Option, none, some, List, [], ◌∷◌, ◌++◌, ◌≡◌, refl, arith,
  if◌then◌else◌, str_eq, ◌==◌, append, is_some, Bool-cases, inl, inr, eq_iff, ◌∙◌, sym,
}
use uplink_service.GoMap.{GoMap, lookup}
use uplink_service.Commands.Gate.{
  Handling, send_command, honk, locate, trip_reset, update_check, alarm_pulse, navigate,
  redis_command, config_get, config_set, config_del, config_save, keycards_list, keycards_add,
  keycards_delete, keycard_master_get, keycard_master_set, restart, send_state_snapshot, nothing,
  vehicle_commands, service_commands, second_table, dispatch,
}

-- A text with an underscore for every hyphen and colon.
abbrev underscored : String → String
underscored String.[] = String.[]
underscored (String.◌∷◌ c s) =
    String.◌∷◌ (if code c == b'-' then "_" else if code c == b':' then "_" else c) (underscored s)

-- The command whose request goes to a queue with a text.
abbrev queue_command : String → String → String
queue_command queue text =
    if str_eq queue "scooter:seatbox"
    then append text "_seatbox"
    else if str_eq queue "scooter:blinker"
    then append "blinker_" text
    else if str_eq queue "scooter:alarm"
    then append "alarm_" text
    else underscored text

-- The command that a handler is for.
abbrev pub command_of : Handling → String
command_of (send_command queue text) = queue_command queue text
command_of honk = "honk"
command_of locate = "locate"
command_of trip_reset = "trip_reset"
command_of update_check = "update_check"
command_of alarm_pulse = "alarm"
command_of navigate = "navigate"
command_of redis_command = "redis"
command_of config_get = "config:get"
command_of config_set = "config:set"
command_of config_del = "config:del"
command_of config_save = "config:save"
command_of keycards_list = "keycards:list"
command_of keycards_add = "keycards:add"
command_of keycards_delete = "keycards:delete"
command_of keycard_master_get = "keycards:master_key:get"
command_of keycard_master_set = "keycards:master_key:set"
command_of restart = "restart"
command_of send_state_snapshot = "get_state"
command_of nothing = "ping"

abbrev known_commands : List String
known_commands =
    "unlock" ∷ "lock" ∷ "lock_hibernate" ∷ "force_lock" ∷ "open_seatbox" ∷ "honk" ∷ "blinker_left"
    ∷ "blinker_right" ∷ "blinker_both" ∷ "blinker_off" ∷ "dashboard_on" ∷ "dashboard_off"
    ∷ "engine_on" ∷ "engine_off" ∷ "handlebar_lock" ∷ "handlebar_unlock" ∷ "reboot" ∷ "hibernate"
    ∷ "hibernate_manual" ∷ "alarm_arm" ∷ "alarm_disarm" ∷ "alarm_enable" ∷ "alarm_disable"
    ∷ "alarm_stop" ∷ "locate" ∷ "trip_reset" ∷ "update_check" ∷ "alarm" ∷ "navigate" ∷ "redis"
    ∷ "config:get" ∷ "config:set" ∷ "config:del" ∷ "config:save" ∷ "keycards:list" ∷ "keycards:add"
    ∷ "keycards:delete" ∷ "keycards:master_key:get" ∷ "keycards:master_key:set" ∷ "restart"
    ∷ "get_state" ∷ "ping" ∷ []

abbrev among : String → List String → Bool
among s [] = false
among s (x ∷ xs) = str_eq x s || among s xs

-- The forty-two commands that the service knows.
abbrev pub is_known : String → Bool
is_known command = among command known_commands

abbrev keys : {V : Type 0} → GoMap V → List String
keys [] = []
keys ((k, v) ∷ m) = k ∷ keys m

abbrev IsNamed : GoMap Handling → Type 0
IsNamed [] = Unit {0}
IsNamed ((k, h) ∷ m) = (command_of h ≡ k) × IsNamed m

is_some-lookup : {V : Type 0} (s : String) (m : GoMap V) → is_some (lookup s m) ≡ among s (keys m)
unfolding lookup
is_some-lookup s [] = refl
is_some-lookup s ((k, v) ∷ m) = elim (Bool-cases (str_eq k s)) [
  | inl same ↦ rw same refl
  | inr other ↦ rw other (is_some-lookup s m)
]

among-append : (s : String) (xs ys : List String) → among s (xs ++ ys) ≡ (among s xs || among s ys)
among-append s [] ys = refl
among-append s (x ∷ xs) ys = ground (arith, among-append s xs ys)

is_some-second_table :
    (command : String) (o : Option Handling)
    → is_some (second_table command o) ≡ (is_some o || is_some (lookup command service_commands))
is_some-second_table command none = refl
is_some-second_table command (some h) = refl

-- Exactly the known commands have a case in the switch.
pub is_some-dispatch : (command : String) → is_some (dispatch command) ≡ is_known command
unfolding dispatch
is_some-dispatch command =
    is_some-second_table command (lookup command vehicle_commands)
    ∙ (rw (is_some-lookup command vehicle_commands, is_some-lookup command service_commands) refl
        ∙ sym (among-append command (keys vehicle_commands) (keys service_commands)))

lookup-IsNamed :
    (command : String) (m : GoMap Handling) (h : Handling)
    → IsNamed m
    → lookup command m ≡ some h
    → command_of h ≡ command
unfolding lookup
lookup-IsNamed command [] h named found = absurd (cc)
lookup-IsNamed command ((k, g) ∷ m) h named found = elim (Bool-cases (str_eq k command)) [
  | inl same ↦ cc (rw same at found, named.0, (eq_iff k command).0 same)
  | inr other ↦ lookup-IsNamed command m h named.1 (rw other at found)
]

vehicle_commands-IsNamed : IsNamed vehicle_commands
unfolding append
vehicle_commands-IsNamed = (
  refl,
  (
    refl,
    (
      refl,
      (
        refl,
        (
          refl,
          (
            refl,
            (
              refl,
              (
                refl,
                (
                  refl,
                  (
                    refl,
                    (
                      refl,
                      (
                        refl,
                        (
                          refl,
                          (
                            refl,
                            (
                              refl,
                              (
                                refl,
                                (refl, (refl, (refl, (refl, (refl, (refl, (refl, (refl, tt)))))))),
                              ),
                            ),
                          ),
                        ),
                      ),
                    ),
                  ),
                ),
              ),
            ),
          ),
        ),
      ),
    ),
  ),
)

service_commands-IsNamed : IsNamed service_commands
service_commands-IsNamed = (
  refl,
  (
    refl,
    (
      refl,
      (
        refl,
        (
          refl,
          (
            refl,
            (
              refl,
              (
                refl,
                (refl, (refl, (refl, (refl, (refl, (refl, (refl, (refl, (refl, (refl, tt)))))))))),
              ),
            ),
          ),
        ),
      ),
    ),
  ),
)

named_second :
    (command : String) (h : Handling) (o : Option Handling)
    → lookup command vehicle_commands ≡ o
    → second_table command o ≡ some h
    → command_of h ≡ command
named_second command h none first found =
    lookup-IsNamed command service_commands h service_commands-IsNamed found
named_second command h (some g) first found =
    lookup-IsNamed command vehicle_commands h vehicle_commands-IsNamed (first ∙ found)

-- A command reaches the handler that is for it.
pub command_of-dispatch :
    (command : String) (h : Handling) → dispatch command ≡ some h → command_of h ≡ command
unfolding dispatch
command_of-dispatch command h found =
    named_second command h (lookup command vehicle_commands) refl found
