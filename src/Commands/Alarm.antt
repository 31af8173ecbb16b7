-- ===== src/Commands/Alarm.antt =====
-- The alarm of internal/commands/scooter.go: each alarm runs in a goroutine with a context of its
-- own, and a generation tells the newest from those that end late.
use uplink_service.Prelude.{
  ℕ, ◌+◌, ◌%◌, String, Bool, Option, none, some, List, [], ◌∷◌, ◌==◌, if◌then◌else◌, str_eq, false,
}

-- alarmCancel as the generation whose context it cancels, and alarmGen, a 64-bit int. Fewer than
-- 2 ^ 64 alarms start, so that a generation names one alarm.
pub record Alarms : Type 0 where
  pub alarm_cancel : Option ℕ
  pub alarm_gen : ℕ

-- The second result is the generation, the third the alarm that is cancelled.
unfoldable pub start_alarm : Alarms → Alarms × ℕ × Option ℕ
start_alarm a =
    let gen = (a.alarm_gen + 1) % 18446744073709551616 in
    (record { alarm_cancel = some gen; alarm_gen = gen }, gen, a.alarm_cancel)

unfoldable pub clear_alarm : Alarms → ℕ → Alarms
clear_alarm a gen = if a.alarm_gen == gen then record a { alarm_cancel = none } else a

unfoldable pub stop_alarm : Alarms → Alarms × Option ℕ
stop_alarm a = (record a { alarm_cancel = none }, a.alarm_cancel)

-- The alarms with the generations of the goroutines that beep: they have not ended, and their
-- contexts are not cancelled.
pub record Beeping : Type 0 where
  pub alarms : Alarms
  pub alive : List ℕ

abbrev pub remove : ℕ → List ℕ → List ℕ
remove g [] = []
remove g (h ∷ hs) = let rest = remove g hs in if h == g then rest else h ∷ rest

abbrev pub cancel : Option ℕ → List ℕ → List ℕ
cancel none hs = hs
cancel (some g) hs = remove g hs

-- alarmPulse by its state parameter.
unfoldable pub alarm_pulse : Beeping → Option String → Beeping
unfolding start_alarm stop_alarm
alarm_pulse b state =
    if is_off state
    then record { alarms = (stop_alarm b.alarms).0; alive = cancel (stop_alarm b.alarms).1 b.alive }
    else record {
      alarms = (start_alarm b.alarms).0;
      alive = (start_alarm b.alarms).1 ∷ cancel (start_alarm b.alarms).2 b.alive;
    }
  where
    is_off : Option String → Bool
    is_off none = false
    is_off (some s) = str_eq s "off"

-- The goroutine of a generation ends, cancelled or at its deadline.
unfoldable pub alarm_ends : Beeping → ℕ → Beeping
unfolding clear_alarm
alarm_ends b gen = record { alarms = clear_alarm b.alarms gen; alive = remove gen b.alive }

pub data AlarmEvent : Type 0 where
  pulses : Option String → AlarmEvent
  ends : ℕ → AlarmEvent

abbrev pub alarm_step : Beeping → AlarmEvent → Beeping
alarm_step b (pulses state) = alarm_pulse b state
alarm_step b (ends gen) = alarm_ends b gen

abbrev pub alarm_run : Beeping → List AlarmEvent → Beeping
alarm_run b [] = b
alarm_run b (e ∷ es) = alarm_run (alarm_step b e) es

abbrev pub silent : Beeping
silent = record { alarms = record { alarm_cancel = none; alarm_gen = 0 }; alive = [] }
