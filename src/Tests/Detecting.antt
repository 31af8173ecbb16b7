-- ===== src/Tests/Detecting.antt =====
-- Runs of the event handlers.
use uplink_service.Prelude.{ℕ, false, none, [], ◌∷◌, ◌≡◌, refl, append}
use uplink_service.GoMap.{lookup}
use uplink_service.Telemetry.Env.{Env, text, fields, Snapshot}
use uplink_service.Telemetry.Events.{
  handle, power_state, handlebar_lock, seatbox_lock, ota_status, initialize_baseline,
}
use uplink_service.Telemetry.Events.Edges.{Log, repeated_report_is_silent, run}
use uplink_service.Telemetry.Events.Baseline.{baseline_misses}

abbrev reports : Log
reports = (ota_status, "idle") ∷ (power_state, "running") ∷ (ota_status, "installing") ∷ []

repeated_report_is_silent_example : (handle ota_status (run [] reports) "installing").1 ≡ none
unfolding lookup
repeated_report_is_silent_example =
    repeated_report_is_silent [] reports ota_status "installing" refl

module _ (e : Env) where
  abbrev woken : Snapshot e
  woken =
      ("power-manager", fields (("state", text "running") ∷ []))
      ∷ (
        "vehicle",
        fields (
            ("state", text "parked")
            ∷ ("handlebar:lock-sensor", text "locked")
            ∷ ("seatbox:lock", text "closed")
            ∷ []),
      )
      ∷ []

-- An env without values, for states that hold texts only.
abbrev bare : Env
bare = record {
  Float = ℕ;
  Other = ⊥;
  sprint_other = λ x. absurd x;
  parse_float = λ s. none;
  format_float = λ n. "";
  lt_float = λ a b. false;
  plus = λ a b. a;
  minus = λ a b. a;
  times = λ a b. a;
  over = λ a b. a;
  sin = λ a. a;
  cos = λ a. a;
  sqrt = λ a. a;
  atan2 = λ a b. a;
  pi = 3;
  literal = λ n. n;
  one_half = 0;
  truncate = λ a. a;
}

baseline_misses_example :
    ((handle power_state (initialize_baseline bare (woken bare) []) "hibernating").1 ≡ none)
    × ((handle handlebar_lock (initialize_baseline bare (woken bare) []) "hibernating").1 ≡ none)
    × ((handle seatbox_lock (initialize_baseline bare (woken bare) []) "hibernating").1 ≡ none)
unfolding append
baseline_misses_example =
    baseline_misses bare (woken bare) "hibernating" ((refl, tt), ((refl, (refl, (refl, tt))), tt))
      ((refl, tt), ((refl, (refl, (refl, tt))), tt)) ((refl, tt), ((refl, (refl, (refl, tt))), tt))
