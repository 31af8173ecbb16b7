-- ===== src/Tests/Reporting.antt =====
-- Runs of the publisher and of the monitor.
use uplink_service.Prelude.{
  ℕ, ◌≤◌, ◌+◌, ◌-◌, ◌==◌, String, true, false, Option, none, some, List, [], ◌∷◌, ◌≡◌, refl, arith,
  str_eq, if◌then◌else◌, ltb, cut_at, append, ◌⊎◌,
}
use uplink_service.GoMap.{GoMap, lookup}
use uplink_service.Timeutil.{Clock, Moment, now, reproject, is_relative}
use uplink_service.Timeutil.Reprojection.{reproject-now, at_moment}
use uplink_service.Prelude.Int.{pos, ◌+ℤ◌, at_most, difference}
use uplink_service.Telemetry.Env.{Env, FieldValue, text, fields, Snapshot}
use uplink_service.Telemetry.Delta.{flatten_state, diff_flat, nest_flat}
use uplink_service.Telemetry.Delta.Diff.{merged, merged-diff_flat}
use uplink_service.Telemetry.Delta.Flatten.{IsState, state_leaf, lookup-flatten_state}
use uplink_service.Telemetry.Publisher.{
  Publisher, Sink, new_publisher, publish, smooth_parked_gps, parse_float_field,
}
use uplink_service.Telemetry.Publisher.Sync.{received, InSync}
use uplink_service.Telemetry.Publisher.Resync.{
  publish_exact, run-InSync, run, messages, messages-IsSpaced, IsSpaced, publishes, resets, Call,
}
use uplink_service.Telemetry.Publisher.Parked.{
  smooth_parked_gps_cases, driving, is_near, ReportsAnchor,
}
use uplink_service.Telemetry.Monitor.{
  new_monitor, priority_for, priority_deadline, handle_field_change, immediate, armed_at, quantize,
}
use uplink_service.Telemetry.Collector.{any_equal, cloudify_vehicle_state}
use uplink_service.Telemetry.Monitor.Deadlines.{
  reported_change_is_due, run-InTime, InTime, changes, fires, Event, OnlyChanges, run as run_events,
}

-- Whole numbers in place of floats.
abbrev toy : Env
toy = record {
  Float = ℕ;
  Other = Unit {0};
  sprint_other = λ x. "";
  parse_float = λ s. if str_eq s "" then none else some 0;
  format_float = λ n. "0";
  lt_float = ltb;
  plus = λ a b. a;
  minus = λ a b. 0;
  times = λ a b. 0;
  over = λ a b. 0;
  sin = λ a. a;
  cos = λ a. a;
  sqrt = λ a. a;
  atan2 = λ a b. a;
  pi = 3;
  literal = λ n. n;
  one_half = 0;
  truncate = λ a. a;
}

abbrev parked_at : String → Snapshot toy
parked_at lat =
    ("vehicle", fields (("state", text "parked") ∷ []))
    ∷ ("gps", fields (("latitude", text lat) ∷ ("longitude", text "7") ∷ []))
    ∷ []

abbrev home : Snapshot toy
home = parked_at "51"

home-IsState : IsState toy home
unfolding cut_at lookup
home-IsState = (refl, (refl, tt), refl, (refl, (refl, (refl, tt)), refl, tt))

abbrev online : Sink
online = record { connected = true; accepts = true }

abbrev nothing_seen : String → Option String
nothing_seen k = none

abbrev fresh : Publisher toy
fresh = new_publisher toy true

publish_exact_example :
    received toy (publish toy fresh online "12:00" home false).1.sent nothing_seen "vehicle.state"
    ≡ state_leaf toy "vehicle.state" (smooth_parked_gps toy fresh home).1
unfolding cut_at
publish_exact_example =
    publish_exact toy fresh online "12:00" home false nothing_seen "vehicle.state" home-IsState tt
      refl refl refl

abbrev two_calls : List (Call toy)
two_calls = publishes online "12:00" home false ∷ resets ∷ publishes online "12:05" home false ∷ []

run-InSync_example :
    InSync toy
      (run toy fresh nothing_seen two_calls).0.last_sent_flat
      (run toy fresh nothing_seen two_calls).1
run-InSync_example =
    run-InSync toy fresh nothing_seen two_calls (home-IsState, (tt, (home-IsState, tt))) tt

messages-IsSpaced_example : IsSpaced toy 0 (messages toy fresh two_calls)
messages-IsSpaced_example = messages-IsSpaced toy fresh two_calls

abbrev parked_before : Publisher toy
parked_before = record fresh { last_gps_valid = true }

abbrev home_gps : GoMap (FieldValue toy)
home_gps = ("latitude", text "51") ∷ ("longitude", text "7") ∷ []

smooth_parked_gps_cases_example :
    let r = smooth_parked_gps toy parked_before home in
    ((driving toy home ≡ false)
      × (parked_before.last_gps_valid ≡ true)
      × (is_near toy parked_before 0 0 ≡ true)
      × (r.0 ≡ parked_before)
      × ReportsAnchor toy parked_before home home_gps r.1)
    ⊎ (((driving toy home ≡ true)
          ⊎ (parked_before.last_gps_valid ≡ false)
          ⊎ (is_near toy parked_before 0 0 ≡ false))
        × (r ≡ (
          record parked_before { last_gps_lat = 0; last_gps_lng = 0; last_gps_valid = true },
          home,
        )))
unfolding lookup parse_float_field
smooth_parked_gps_cases_example =
    smooth_parked_gps_cases toy parked_before home home_gps 0 0 refl refl refl

lookup-flatten_state_example :
    lookup "vehicle.state" (flatten_state toy home) ≡ state_leaf toy "vehicle.state" home
unfolding cut_at
lookup-flatten_state_example = lookup-flatten_state toy home "vehicle.state" home-IsState refl

abbrev before : GoMap String
before = ("vehicle.state", "parked") ∷ ("gps.state", "off") ∷ []

abbrev after : GoMap String
after = ("vehicle.state", "stand-by") ∷ []

merged-diff_flat_example :
    merged
      (nest_flat (diff_flat before after).0)
      (diff_flat before after).1
      (λ k. lookup k before)
      "gps.state"
    ≡ lookup "gps.state" after
unfolding cut_at lookup
merged-diff_flat_example =
    merged-diff_flat before after (λ k. lookup k before) "gps.state" (refl, tt) refl refl

idle-InTime : InTime 5 new_monitor
idle-InTime immediate t h = absurd (cc)
idle-InTime p t h = absurd (cc)

reported_change_is_due_example :
    (t : ℕ) × (t ≤ 5 + priority_deadline (priority_for "vehicle" "state"))
    × ((evs : List (Event toy))
        → OnlyChanges toy evs
        → armed_at
            (run_events toy
              (handle_field_change toy new_monitor 5 "vehicle" "state" "parked")
              evs).armed
            (priority_for "vehicle" "state")
          ≡ some t)
unfolding lookup any_equal quantize append cloudify_vehicle_state
reported_change_is_due_example =
    reported_change_is_due toy new_monitor 5 "vehicle" "state" "parked" idle-InTime (refl, refl)

abbrev two_events : List (Event toy)
two_events = changes 6 "vehicle" "state" "parked" ∷ fires 2000000000 immediate true ∷ []

-- The deadlines are kept behind a run with a report, so that the next change is due in time too.
flushed-InTime : InTime 2000000000 (run_events toy new_monitor two_events)
flushed-InTime = run-InTime toy new_monitor 5 two_events (omega arith) idle-InTime

abbrev offline_clock : Clock
offline_clock = record { valid = false; session_id = "a1" }

-- Time in whole nanoseconds; half a minute behind the anchor is the one time with a text.
abbrev at_start : Moment
at_start = record {
  Float = ℕ;
  wall_now = pos 0;
  since_anchor = 30000000000;
  minus = λ x y. x - y;
  to_duration = pos;
  rfc3339 = λ i. if at_most i 1767268830000000000 then "2026-01-01T12:00:30Z" else "later";
  format_seconds = λ n. if n == 30000000000 then "30.000" else "";
  parse_float = λ s. if str_eq s "30.000" then some 30000000000 else none;
}

-- A minute and a half behind the anchor, when the wall clock gives it noon.
reproject-now_example :
    (is_relative (now offline_clock at_start) ≡ true)
    × (reproject
          (at_moment at_start (pos 1767268800000000000 +ℤ pos 90000000000) 90000000000)
          (now offline_clock at_start)
        ≡ ("2026-01-01T12:00:30Z", true))
unfolding difference ◌+ℤ◌
reproject-now_example =
    reproject-now offline_clock at_start 90000000000 30000000000 (pos 1767268800000000000)
      90000000000 30000000000 refl refl refl refl
