-- ===== src/Telemetry/Monitor/Deadlines.antt =====
-- A change that is reported is due within the deadline of its priority, and stays due until a flush.
use uplink_service.Prelude.{
  ℕ, ◌+◌, ◌≤◌, String, Bool, false, some, List, [], ◌∷◌, ◌≡◌, refl, arith, inl, inr, Bool-cases,
  Option-cases,
}
use native.Mathlib.Nat.{le_refl}
use uplink_service.GoMap.{lookup, insert}
use uplink_service.Telemetry.Env.{Env}
use uplink_service.Telemetry.Collector.{any_equal}
use uplink_service.Telemetry.Monitor.{
  Priority, immediate, quick, medium, slow, priority_deadline, Armed, armed_at, set_armed,
  none_armed, Monitor, arm_locked, handle_field_change, priority_for, full_key, noisy_fields,
  quantize, cloud_value, same_value, on_deadline, flush_all_pending,
}

-- Every pending timer fires within its deadline from now.
abbrev pub InTime : ℕ → Monitor → Type 0
InTime now m = (p : Priority) (t : ℕ) → armed_at m.armed p ≡ some t → t ≤ now + priority_deadline p

set_armed_self : (a : Armed) (p : Priority) (t : ℕ) → armed_at (set_armed a p t) p ≡ some t
set_armed_self a immediate t = refl
set_armed_self a quick t = refl
set_armed_self a medium t = refl
set_armed_self a slow t = refl

arm_locked_due :
    (m : Monitor) (now : ℕ) (p : Priority)
    → ((t : ℕ) → armed_at m.armed p ≡ some t → t ≤ now + priority_deadline p)
    → (t : ℕ) × (armed_at (arm_locked m now p).armed p ≡ some t) × (t ≤ now + priority_deadline p)
unfolding arm_locked
arm_locked_due m now p h = elim (Option-cases (armed_at m.armed p)) [
  | inr (t, armed) ↦ simp armed (t, refl, h t armed)
  | inl idle ↦
      simp idle
        (now + priority_deadline p, set_armed_self m.armed p (now + priority_deadline p), le_refl _)
]

arm_locked_keeps :
    (m : Monitor) (now : ℕ) (p q : Priority) (t : ℕ)
    → armed_at m.armed q ≡ some t
    → armed_at (arm_locked m now p).armed q ≡ some t
unfolding arm_locked
arm_locked_keeps m now immediate immediate t h = ground arith
arm_locked_keeps m now p q t h = ground arith

arm_locked-InTime :
    (m : Monitor) (now : ℕ) (p : Priority) → InTime now m → InTime now (arm_locked m now p)
unfolding arm_locked
arm_locked-InTime m now immediate h immediate t a = ground (arith, h immediate t)
arm_locked-InTime m now p h q t a = ground (arith, h q t)

module _ (e : Env) where
  -- What reaches the monitor: a change at a time, a timer that fires and a flush on request, with
  -- whether the connection is up.
  pub data Event : Type 0 where
    changes : ℕ → String → String → String → Event
    fires : ℕ → Priority → Bool → Event
    requests : ℕ → Bool → Event

  unfoldable pub step : Monitor → Event → Monitor
  step m (changes now hash field value) = handle_field_change e m now hash field value
  step m (fires now p connected) = (on_deadline m p connected).0
  step m (requests now connected) = (flush_all_pending m connected).0

  abbrev pub time_of : Event → ℕ
  time_of (changes now hash field value) = now
  time_of (fires now p connected) = now
  time_of (requests now connected) = now

  unfoldable pub run : Monitor → List Event → Monitor
  run m [] = m
  run m (ev ∷ evs) = run (step m ev) evs

  -- The times of the events do not fall, from a start.
  abbrev pub Ordered : ℕ → List Event → Type 0
  Ordered now [] = Unit {0}
  Ordered now (ev ∷ evs) = (now ≤ time_of ev) × Ordered (time_of ev) evs

  abbrev pub last_time : ℕ → List Event → ℕ
  last_time now [] = now
  last_time now (ev ∷ evs) = last_time (time_of ev) evs

  -- The change passes the filter of noisy fields and differs from the last value of its field.
  abbrev pub IsReported : Monitor → String → String → String → Type 0
  IsReported m hash field value =
      (any_equal (full_key hash field) noisy_fields ≡ false)
      × (same_value e (lookup (full_key hash field) m.last_values)
            (quantize e (full_key hash field) (cloud_value e hash field value))
          ≡ false)

  handle_keeps :
      (m : Monitor) (now : ℕ) (hash field value : String) (q : Priority) (t : ℕ)
      → armed_at m.armed q ≡ some t
      → armed_at (handle_field_change e m now hash field value).armed q ≡ some t
  unfolding handle_field_change
  handle_keeps m now hash field value q t h =
      let key = full_key hash field in
      let v = quantize e key (cloud_value e hash field value) in
      elim (Bool-cases (any_equal key noisy_fields)) [
        | inl noisy ↦ simp noisy h
        | inr quiet ↦ simp quiet (elim (Bool-cases (same_value e (lookup key m.last_values) v)) [
          | inl same ↦ simp same h
          | inr new ↦ simp new (
              arm_locked_keeps (record m { last_values = insert key v m.last_values }) now
                (priority_for hash field) q t h)
        ])
      ]

  -- The changes that follow, with no flush among them.
  abbrev pub OnlyChanges : List Event → Type 0
  OnlyChanges [] = Unit {0}
  OnlyChanges (changes now hash field value ∷ evs) = OnlyChanges evs
  OnlyChanges (fires now p connected ∷ evs) = ⊥
  OnlyChanges (requests now connected ∷ evs) = ⊥

  run_keeps :
      (m : Monitor) (evs : List Event) (q : Priority) (t : ℕ)
      → OnlyChanges evs
      → armed_at m.armed q ≡ some t
      → armed_at (run m evs).armed q ≡ some t
  unfolding run step
  run_keeps m [] q t o h = h
  run_keeps m (changes now hash field value ∷ evs) q t o h =
      run_keeps (handle_field_change e m now hash field value) evs q t o
        (handle_keeps m now hash field value q t h)
  run_keeps m (fires now p connected ∷ evs) q t o h = absurd o
  run_keeps m (requests now connected ∷ evs) q t o h = absurd o

  -- A reported change is due within the deadline of its field's priority, and later changes do not
  -- move the time at which its timer fires.
  pub reported_change_is_due :
      (m : Monitor) (now : ℕ) (hash field value : String)
      → InTime now m
      → IsReported m hash field value
      → (t : ℕ) × (t ≤ now + priority_deadline (priority_for hash field))
        × ((evs : List Event)
            → OnlyChanges evs
            → armed_at
                (run (handle_field_change e m now hash field value) evs).armed
                (priority_for hash field)
              ≡ some t)
  unfolding handle_field_change
  reported_change_is_due m now hash field value h (loud, new) =
      let key = full_key hash field in
      let v = quantize e key (cloud_value e hash field value) in
      let p = priority_for hash field in
      let m' = record m { last_values = insert key v m.last_values } in
      let (t, armed, due) = arm_locked_due m' now p (h p) in
      (
        t,
        due,
        λ evs o.
            run_keeps (handle_field_change e m now hash field value) evs p t o
              (simp (loud, new) armed),
      )

  handle-InTime :
      (m : Monitor) (now : ℕ) (hash field value : String)
      → InTime now m
      → InTime now (handle_field_change e m now hash field value)
  unfolding handle_field_change
  handle-InTime m now hash field value h =
      let key = full_key hash field in
      let v = quantize e key (cloud_value e hash field value) in
      elim (Bool-cases (any_equal key noisy_fields)) [
        | inl noisy ↦ simp noisy h
        | inr quiet ↦ simp quiet (elim (Bool-cases (same_value e (lookup key m.last_values) v)) [
          | inl same ↦ simp same h
          | inr new ↦ simp new (
              arm_locked-InTime (record m { last_values = insert key v m.last_values }) now
                (priority_for hash field) h)
        ])
      ]

  none-InTime : (m : Monitor) (now : ℕ) → InTime now (record m { armed = none_armed })
  none-InTime m now immediate t h = absurd (cc)
  none-InTime m now p t h = absurd (cc)

  step-InTime :
      (m : Monitor) (now : ℕ) (ev : Event)
      → now ≤ time_of ev
      → InTime now m
      → InTime (time_of ev) (step m ev)
  unfolding step on_deadline flush_all_pending
  step-InTime m now (changes later hash field value) o h =
      handle-InTime m later hash field value (λ p t a. omega (arith, h p t a))
  step-InTime m now (fires later p connected) o h = none-InTime m later
  step-InTime m now (requests later connected) o h = none-InTime m later

  -- In every run whose times do not fall, each pending timer is set for a time within its priority's
  -- deadline from the last event.
  pub run-InTime :
      (m : Monitor) (now : ℕ) (evs : List Event)
      → Ordered now evs
      → InTime now m
      → InTime (last_time now evs) (run m evs)
  unfolding run
  run-InTime m now [] o h = h
  run-InTime m now (ev ∷ evs) o h =
      run-InTime (step m ev) (time_of ev) evs o.1 (step-InTime m now ev o.0 h)
