-- ===== src/RideGroup/Inputs.antt =====
-- What the adapter of the ride group reacts to, as one function, and the states that it reaches.
use uplink_service.Prelude.{ℕ, String, Bool, true, false, Option, none, List, [], ◌∷◌}
use uplink_service.RideGroup.State.{
  Activity, Control, PeerPosition, PeerStatus, LocalStop, Encoder, reconcile, Adapter, Now,
}
use uplink_service.RideGroup.Egress.{next_publication}
use uplink_service.RideGroup.Probes.{issue_probe}
use uplink_service.RideGroup.Snapshots.{handle_snapshot}
use uplink_service.RideGroup.Source.{Sample, handle_gps}
use uplink_service.RideGroup.Controls.{accept_activity, handle_control}
use uplink_service.RideGroup.Peers.{handle_peer, handle_peer_status}
use uplink_service.RideGroup.Delivery.{redis_step}
use uplink_service.RideGroup.Link.{
  begin_connect, end_connect, on_disconnected, set_blocked, fail_closed, expire_lease, stop_adapter,
}

pub data Input : Type 0 where
  gives_snapshot : LocalStop → Input
  gives_activity : Activity → Input
  gives_control : Control → Input
  gives_peer : PeerPosition → Input
  gives_peer_status : PeerStatus → Input
  -- the time stamp of a report, whether it has a fix, and the sample of the estimator
  gives_report : Option ℕ → Bool → Option Sample → Input
  begins_connect : ℕ → Input
  ends_connect : ℕ → ℕ → Option String → Input
  disconnects : ℕ → Input
  starts_recovery : Input
  reads_setting : Bool → Input
  ends_recovery : Input
  loses_redis : Input
  ticks : Input
  takes_mqtt : Input
  takes_redis : Input
  stops : String → Input

abbrev pub is_control : Input → Bool
is_control (gives_control c) = true
is_control _ = false

unfoldable pub step : Encoder → Adapter → Now → Input → Adapter
step e a t (gives_snapshot s) = handle_snapshot e a t s
step e a t (gives_activity x) = accept_activity e a t x
step e a t (gives_control c) = handle_control e a t c
step e a t (gives_peer p) = handle_peer a t p
step e a t (gives_peer_status s) = handle_peer_status a t s
step e a t (gives_report at fix sample) = handle_gps e a t at fix sample
step e a t (begins_connect client) = (begin_connect a t client).0
step e a t (ends_connect client attempt connection) = end_connect e a t client attempt connection
step e a t (disconnects client) = on_disconnected a client
step e a t starts_recovery = record a { settings_ready = false }
step e a t (reads_setting blocked) = set_blocked e a t blocked
step e a t ends_recovery = (issue_probe e a t reconcile none).0
step e a t loses_redis = fail_closed a
step e a t ticks = expire_lease e a t
step e a t takes_mqtt = (next_publication a).0
step e a t takes_redis = (redis_step e a t).0
step e a t (stops topic) = stop_adapter a t topic

-- The state behind inputs, each at its time.
unfoldable pub run : Encoder → Adapter → List (Now × Input) → Adapter
run e a [] = a
run e a ((t, i) ∷ inputs) = run e (step e a t i) inputs
