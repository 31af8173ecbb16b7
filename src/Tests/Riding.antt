-- ===== src/Tests/Riding.antt =====
-- Runs of the adapter of the ride group.
use uplink_service.Prelude.{
  ℕ, ◌+◌, ◌*◌, ◌≤◌, ◌<◌, true, false, none, some, List, [], ◌∷◌, ◌++◌, ◌≡◌, refl, ◌⊎◌, map, length,
}
use uplink_service.GoMap.{GoMap, lookup}
use uplink_service.RideGroup.State.{
  Activity, Control, LocalStop, PeerPosition, Encoder, Adapter, Now, Probe, reconcile, control,
  RedisPublication,
}
use uplink_service.RideGroup.Controls.{
  evict, handle_control, by_action, handle_grant, admits_grant, take_grant, restore_challenge,
  set_peer_replay_scope, set_grant, start_stream, reopen_fix, keep_listed,
}
use uplink_service.RideGroup.Source.{publish_no_fix_status}
use uplink_service.RideGroup.Peers.{admits_peer, handle_peer}
use uplink_service.RideGroup.Delivery.{
  final_message, final_control, final_grant, final_payload, is_same_grant, since,
}
use uplink_service.RideGroup.Authority.{
  journal_is_idle, grant_challenge_current, grantable, receiver_tuple_current, grant_current,
  peer_in_grant, lists_peer,
}
use uplink_service.RideGroup.Link.{new_adapter}
use uplink_service.RideGroup.Inputs.{
  Input, gives_snapshot, gives_activity, gives_control, begins_connect, ends_connect, reads_setting,
  ticks, step, run,
}
use uplink_service.RideGroup.Consent.{IsConsented}
use uplink_service.RideGroup.ConsentReached.{grant-IsConsented}
use uplink_service.RideGroup.GrantOrigin.{Grants, grant_needs_control}
use uplink_service.RideGroup.Replay.{no_position_twice}
use uplink_service.RideGroup.Applied.{IsFree, apply_free}
use uplink_service.RideGroup.AppliedReached.{apply_needs_confirmation}
use uplink_service.RideGroup.Forwarded.{forwarded_lease_fits}
use uplink_service.RideGroup.Egress.{
  redis_publication, queue_redis, drop_pending_position, drop_pending_source,
}
use uplink_service.RideGroup.RedisOrder.{Call, queue_calls, newest, redis_queue_is_newest}
use uplink_service.RideGroup.Challenges.{evict_terminates}

abbrev encoder : Encoder
encoder = record { encodes = λ msg. true; canonical = λ s. some (1 ∷ []) }

-- The second in which something happens, with the identifiers that are drawn then.
abbrev at : ℕ → Now
at n = record {
  time = n * 1000000000;
  link_up = true;
  hello_id = some "hello";
  probe_id = some "probe";
}

abbrev idle_snapshot : LocalStop
idle_snapshot = record {
  operation_id = none;
  journal_revision = 1;
  phase = "idle";
  blocked = false;
  expected_generation = none;
  committed_generation = none;
  challenge = "probe";
}

abbrev ride : Activity
ride = record {
  boot_nonce = "boot";
  seq = 1;
  active = true;
  session_id = some "session";
  member_id = some "member";
  challenge = "challenge";
}

abbrev grant : Control
grant = record {
  connection_nonce = "connection";
  action = "grant";
  session_id = some "session";
  member_id = some "member";
  revision = 1;
  transport_epoch = 1;
  stream_id = some "stream";
  challenge = "challenge";
  server_time_ms = 1;
  lease_ttl_ms = 8000;
  cadence_ms = some 2000;
  peers = record { peer_id = "peer"; label = "Peer"; palette_index = 0 } ∷ [];
  consent_generation = 0;
  stop_operation_id = none;
  stop_result = none;
  stop_expected_generation = none;
}

abbrev before_grant : List (Now × Input)
before_grant =
    (at 1, reads_setting false)
    ∷ (at 2, begins_connect 7)
    ∷ (at 3, ends_connect 7 1 (some "connection"))
    ∷ (at 4, gives_snapshot idle_snapshot)
    ∷ (at 5, gives_activity ride)
    ∷ []

-- The state behind these inputs, as far as a grant looks at it
abbrev ready : Adapter
ready = record new_adapter {
  settings_ready = true;
  mqtt = some 7;
  connection = "connection";
  journal = record new_adapter.journal { ready = true; state = some idle_snapshot };
  lease = record new_adapter.lease {
    activity = some ride;
    activity_at = some 5000000000;
    challenges = ("challenge", 5000000000) ∷ [];
  };
}

abbrev riding : Adapter
riding = record ready {
  lease = record ready.lease {
    grant = some grant;
    grant_at = some 6000000000;
    grant_ttl = 7000000000;
    grant_active = true;
  };
}

grant-IsConsented_example :
    IsConsented (run encoder new_adapter (before_grant ++ (at 6, gives_control grant) ∷ []))
grant-IsConsented_example =
    grant-IsConsented encoder (before_grant ++ (at 6, gives_control grant) ∷ [])

grant_is_given : (step encoder ready (at 6) (gives_control grant)).lease.grant ≡ some grant
unfolding step handle_control by_action handle_grant admits_grant grant_challenge_current lookup
    grantable journal_is_idle take_grant queue_redis restore_challenge publish_no_fix_status
    set_peer_replay_scope set_grant start_stream reopen_fix keep_listed drop_pending_position
    drop_pending_source
grant_is_given = refl

grant_needs_control_example :
    (ready.lease.grant ≡ some grant)
    ⊎ ((gives_control grant ≡ gives_control grant) × Grants ready (at 6) grant)
grant_needs_control_example =
    grant_needs_control encoder ready (at 6) (gives_control grant) grant grant_is_given

abbrev first_position : PeerPosition
first_position = record {
  session_id = "session";
  revision = 1;
  transport_epoch = 1;
  stream_id = "stream";
  peer_stream_id = "other";
  peer_transport_epoch = 3;
  seq = 5;
  peer_id = "peer";
  captured_at_ms = 6500;
  valid_for_ms = 3000;
  others = [];
}

position_is_admitted : admits_peer riding (at 7) first_position ≡ true
unfolding admits_peer receiver_tuple_current grant_current grantable journal_is_idle peer_in_grant
    lists_peer lookup
position_is_admitted = refl

no_position_twice_example :
    admits_peer
      (run encoder (handle_peer riding (at 7) first_position) ((at 8, ticks) ∷ []))
      (at 8)
      (record first_position { seq = 4 })
    ≡ false
no_position_twice_example =
    no_position_twice encoder riding (at 7) (at 8) first_position
      (record first_position { seq = 4 }) ((at 8, ticks) ∷ []) position_is_admitted refl refl
      (refl, tt)

abbrev queued_grant : RedisPublication
queued_grant = record {
  channel = "ride-group:control";
  message = control grant;
  expires_at = none;
  queued_at = 6000000000;
}

grant_is_forwarded :
    final_payload encoder riding (at 8) queued_grant
    ≡ some (control (record grant { lease_ttl_ms = 5000 }))
unfolding final_payload final_message final_control final_grant grantable journal_is_idle
grant_is_forwarded = refl

forwarded_lease_fits_example :
    (record grant { lease_ttl_ms = 5000 } ≡ record grant { lease_ttl_ms = 5000 })
    × (grantable riding (at 8) ≡ true)
    × (is_same_grant riding.lease.grant grant ≡ true)
    × (5000 * 1000000 + since 8000000000 riding.lease.grant_at ≤ riding.lease.grant_ttl)
    × (5000 * 1000000 + 8000000000 ≤ 8000 * 1000000 + 6000000000)
forwarded_lease_fits_example =
    forwarded_lease_fits encoder riding (at 8) queued_grant grant
      (record grant { lease_ttl_ms = 5000 }) refl refl grant_is_forwarded

abbrev call : ℕ → Call
call n = record {
  now = at n;
  channel = "ride-group:control";
  message = control (record grant { revision = n });
  max_age = 10000000000;
}

abbrev calls : List Call
calls = call 1 ∷ call 2 ∷ call 3 ∷ call 4 ∷ call 5 ∷ call 6 ∷ call 7 ∷ call 8 ∷ call 9 ∷ []

redis_queue_is_newest_example :
    (queue_calls new_adapter calls).redis_queue
    ≡ newest 8 (map (λ c. redis_publication c.now c.channel c.message c.max_age) calls)
redis_queue_is_newest_example = redis_queue_is_newest new_adapter calls refl

abbrev challenges : GoMap ℕ
challenges =
    ("a", 1)
    ∷ ("b", 2)
    ∷ ("c", 3)
    ∷ ("d", 4)
    ∷ ("e", 5)
    ∷ ("f", 6)
    ∷ ("g", 7)
    ∷ ("h", 8)
    ∷ ("i", 9)
    ∷ ("j", 10)
    ∷ []

evict_terminates_example :
    (length (evict 10 challenges) < 10) × (evict (10 + 5) challenges ≡ evict 10 challenges)
evict_terminates_example = evict_terminates challenges 5

abbrev open_probe : Probe
open_probe = record {
  challenge = "probe";
  connection = "connection";
  issued_at = 6000000000;
  deadline = 16000000000;
  purpose = reconcile;
  operation_id = "";
  revision = 0;
  fence = none;
  ipc_epoch = 1;
}

abbrev probing : Adapter
probing = record ready {
  journal = record ready.journal { ipc_epoch = 1; probes = ("probe", open_probe) ∷ [] };
}

abbrev prepared_snapshot : LocalStop
prepared_snapshot = record {
  operation_id = some "operation";
  journal_revision = 2;
  phase = "prepared";
  blocked = true;
  expected_generation = some 4;
  committed_generation = none;
  challenge = "probe";
}

apply_needs_confirmation_example :
    IsFree (step encoder probing (at 7) (gives_snapshot prepared_snapshot))
unfolding apply_free lookup
apply_needs_confirmation_example =
    apply_needs_confirmation encoder probing (at 7) (gives_snapshot prepared_snapshot) refl refl
