-- ===== src/Commands/Silence.antt =====
-- At most one alarm beeps.
use uplink_service.Prelude.{
  ℕ, ◌≤◌, String, Option, none, some, List, [], ◌∷◌, ◌≡◌, refl, arith, ◌⊎◌, inl, inr, ◌==◌, str_eq,
  length, Bool-cases,
}
use uplink_service.Commands.Alarm.{
  start_alarm, clear_alarm, stop_alarm, Beeping, remove, cancel, alarm_pulse, alarm_ends,
  AlarmEvent, pulses, ends, alarm_run, silent,
}

-- Nothing beeps, or the newest alarm alone does and its cancellation is at hand.
abbrev IsSingle : Beeping → Type 0
IsSingle b =
    (b.alive ≡ [])
    ⊎ ((b.alive ≡ b.alarms.alarm_gen ∷ []) × (b.alarms.alarm_cancel ≡ some b.alarms.alarm_gen))

cancel-nil : (o : Option ℕ) → cancel o [] ≡ []
cancel-nil none = refl
cancel-nil (some g) = refl

remove_self : (g : ℕ) → remove g (g ∷ []) ≡ []
remove_self g = ground arith

cancel-IsSingle : (b : Beeping) → IsSingle b → cancel b.alarms.alarm_cancel b.alive ≡ []
cancel-IsSingle b (inl quiet) = rw quiet (cancel-nil b.alarms.alarm_cancel)
cancel-IsSingle b (inr (one, at_hand)) = rw at_hand (rw one (remove_self b.alarms.alarm_gen))

alarm_pulse-IsSingle :
    (b : Beeping) (state : Option String) → IsSingle b → IsSingle (alarm_pulse b state)
unfolding alarm_pulse start_alarm stop_alarm
alarm_pulse-IsSingle b none h = inr (rw (cancel-IsSingle b h) refl, refl)
alarm_pulse-IsSingle b (some s) h = elim (Bool-cases (str_eq s "off")) [
  | inl off ↦ simp off (inl (cancel-IsSingle b h))
  | inr on ↦ simp on (inr (rw (cancel-IsSingle b h) refl, refl))
]

alarm_ends-IsSingle : (b : Beeping) (gen : ℕ) → IsSingle b → IsSingle (alarm_ends b gen)
unfolding alarm_ends clear_alarm
alarm_ends-IsSingle b gen (inl quiet) = inl (rw quiet refl)
alarm_ends-IsSingle b gen (inr (one, at_hand)) = elim (Bool-cases (b.alarms.alarm_gen == gen)) [
  | inl newest ↦ inl (rw one (rw newest refl))
  | inr older ↦ inr (simp (one, older) refl, simp older at_hand)
]

alarm_run-IsSingle : (b : Beeping) (es : List AlarmEvent) → IsSingle b → IsSingle (alarm_run b es)
alarm_run-IsSingle b [] h = h
alarm_run-IsSingle b (pulses state ∷ es) h =
    alarm_run-IsSingle (alarm_pulse b state) es (alarm_pulse-IsSingle b state h)
alarm_run-IsSingle b (ends gen ∷ es) h =
    alarm_run-IsSingle (alarm_ends b gen) es (alarm_ends-IsSingle b gen h)

length-single : (b : Beeping) → IsSingle b → length b.alive ≤ 1
length-single b (inl quiet) = rw quiet (omega arith)
length-single b (inr (one, at_hand)) = rw one (omega arith)

-- After any sequence of alarm commands and of alarms that end, in any order, at most one alarm
-- beeps, and an alarm command with the state "off" silences it.
pub at_most_one_alarm :
    (es : List AlarmEvent)
    → (length (alarm_run silent es).alive ≤ 1)
      × ((alarm_pulse (alarm_run silent es) (some "off")).alive ≡ [])
unfolding alarm_pulse stop_alarm
at_most_one_alarm es =
    let h = alarm_run-IsSingle silent es (inl refl) in
    (length-single (alarm_run silent es) h, cancel-IsSingle (alarm_run silent es) h)
