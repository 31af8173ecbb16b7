-- ===== src/RideGroup/Streams.antt =====
-- Which reactions of the ride group's adapter touch what is known of the peers.
use uplink_service.Prelude.{ℕ, String, Bool, true, false, Option, none, some, ◌≡◌, refl, arith}
use uplink_service.GoMap.{lookup}
use uplink_service.Connection.State.{plus64, Bytes}
use uplink_service.RideGroup.State.{Activity, LocalStop, Encoder, reconcile, Probe, Adapter, Now}
use uplink_service.RideGroup.Egress.{
  drop_pending_position, drop_pending_source, next_publication, least, stop_worker, put_pending,
}
use uplink_service.RideGroup.Lease.{
  invalidate_positions, clear_grant, clear_all, invalidate_attempts, forget_activity,
  inhibit_journal, publish_hello,
}
use uplink_service.RideGroup.Probes.{consume_probe, drop_stale_probes}
use uplink_service.RideGroup.Controls.{
  set_activity, confirm_grant, take_activity, remember_challenge, accept_activity,
}
use uplink_service.RideGroup.Delivery.{redis_step}
use uplink_service.RideGroup.Link.{
  reset_connection, give_up_connect, end_connect, leave_attempt, on_disconnected, announce,
  block_journal, set_blocked, fail_closed, expire_activity, expire_grant, drop_stale_attempts,
  expire_v2_lease, expire_lease, stop_adapter,
}
use uplink_service.RideGroup.Inputs.{
  Input, gives_snapshot, gives_activity, gives_control, gives_peer, gives_peer_status, gives_report,
  begins_connect, ends_connect, disconnects, starts_recovery, reads_setting, ends_recovery,
  loses_redis, ticks, takes_mqtt, takes_redis, stops, step,
}
use uplink_service.RideGroup.Same.{
  reconcile_journal-Same, consume_probe-Same, publish_hello-Same, publish_activity-Same,
  issue_probe-Same,
}
use uplink_service.RideGroup.SameSource.{handle_gps-Same, retry_no_fix_status-Same}
use uplink_service.RideGroup.Consent.{act_on-Core}
use uplink_service.RideGroup.ConsentReached.{
  greet-Same, announce-Same, begin_connect-Same, take_entry-Same, take_redis-Same,
}
use uplink_service.RideGroup.Snapshots.{
  admit, take_snapshot, refuse_snapshot, with_probe, unless_used, with_canonical, handle_snapshot,
}

inhibit_journal-streams : (a : Adapter) → (inhibit_journal a).peer_streams ≡ a.peer_streams
unfolding inhibit_journal invalidate_attempts forget_activity clear_grant invalidate_positions
    drop_pending_position drop_pending_source
inhibit_journal-streams a = refl

admit-streams : (a : Adapter) (s : LocalStop) → (admit a s).peer_streams ≡ a.peer_streams
unfolding admit clear_grant invalidate_positions drop_pending_position drop_pending_source
admit-streams a s = ground arith

refuse_snapshot-streams :
    (e : Encoder) (a : Adapter) (t : Now) (s : LocalStop)
    → (refuse_snapshot e a t s).peer_streams ≡ a.peer_streams
refuse_snapshot-streams e a t s = ground (
  arith,
  reconcile_journal-Same e a t,
  reconcile_journal-Same e (inhibit_journal a) t,
  inhibit_journal-streams a,
)

take_snapshot-streams :
    (e : Encoder) (a : Adapter) (t : Now) (s : LocalStop) (p : Probe) (payload : Bytes)
    → (take_snapshot e a t s p payload).peer_streams ≡ a.peer_streams
unfolding take_snapshot
take_snapshot-streams e a t s p payload =
    let used = consume_probe a p payload in
    let inhibited = consume_probe (inhibit_journal a) p payload in
    ground (
      arith,
      act_on-Core e (admit used s) t s p p.purpose,
      admit-streams used s,
      consume_probe-Same a p payload,
      reconcile_journal-Same e inhibited t,
      consume_probe-Same (inhibit_journal a) p payload,
      inhibit_journal-streams a,
    )

with_probe-streams :
    (e : Encoder) (a : Adapter) (t : Now) (s : LocalStop) (c : Bytes) (o : Option Probe)
    → (with_probe e a t s c o).peer_streams ≡ a.peer_streams
with_probe-streams e a t s c none = refuse_snapshot-streams e a t s
with_probe-streams e a t s c (some p) =
    ground (arith, take_snapshot-streams e a t s p c, refuse_snapshot-streams e a t s)

unless_used-streams :
    (e : Encoder) (a : Adapter) (t : Now) (s : LocalStop) (c : Bytes) (o : Option Bytes)
    → (unless_used e a t s c o).peer_streams ≡ a.peer_streams
unless_used-streams e a t s c none =
    with_probe-streams e a t s c (lookup s.challenge a.journal.probes)
unless_used-streams e a t s c (some prior) =
    ground (arith, reconcile_journal-Same e (inhibit_journal a) t, inhibit_journal-streams a)

with_canonical-streams :
    (e : Encoder) (a : Adapter) (t : Now) (s : LocalStop) (o : Option Bytes)
    → (with_canonical e a t s o).peer_streams ≡ a.peer_streams
with_canonical-streams e a t s none = refl
with_canonical-streams e a t s (some c) =
    unless_used-streams e a t s c (lookup s.challenge a.journal.used)

accept_activity-streams :
    (e : Encoder) (a : Adapter) (t : Now) (x : Activity)
    → (accept_activity e a t x).peer_streams ≡ a.peer_streams
unfolding accept_activity take_activity remember_challenge confirm_grant set_activity clear_grant
    invalidate_positions drop_pending_position drop_pending_source
accept_activity-streams e a t x =
    let known = remember_challenge (take_activity a t x) t x.challenge in
    let greeted = publish_hello e known t x.challenge in
    ground (arith, publish_activity-Same e greeted t x, publish_hello-Same e known t x.challenge)

block_journal-streams :
    (e : Encoder) (a : Adapter) (t : Now) → (block_journal e a t).peer_streams ≡ a.peer_streams
unfolding block_journal invalidate_attempts
block_journal-streams e a t =
    let inhibited = invalidate_attempts (inhibit_journal a) in
    let next = record inhibited {
      journal = record inhibited.journal { ipc_epoch = plus64 inhibited.journal.ipc_epoch 1 };
    } in
    ground (arith, reconcile_journal-Same e next t, inhibit_journal-streams a)

set_blocked-streams :
    (e : Encoder) (a : Adapter) (t : Now) (blocked : Bool)
    → (set_blocked e a t blocked).peer_streams ≡ a.peer_streams
unfolding set_blocked
set_blocked-streams e a t blocked =
    let set = record a { blocked = blocked; settings_ready = true } in
    ground (
      arith,
      block_journal-streams e (announce e set t a.settings_ready) t,
      announce-Same e set t a.settings_ready,
    )

end_connect-streams :
    (e : Encoder) (a : Adapter) (t : Now) (client attempt : ℕ) (connection : Option String)
    → (end_connect e a t client attempt connection).peer_streams ≡ a.peer_streams
unfolding end_connect give_up_connect reset_connection clear_all clear_grant invalidate_positions
    drop_pending_position drop_pending_source
end_connect-streams e a t client attempt none = ground arith
end_connect-streams e a t client attempt (some connection) =
    let fresh = reset_connection (record a { connecting = false }) (some client) connection in
    ground (arith, greet-Same e fresh t)

on_disconnected-streams :
    (a : Adapter) (client : ℕ) → (on_disconnected a client).peer_streams ≡ a.peer_streams
unfolding on_disconnected leave_attempt reset_connection clear_all clear_grant invalidate_positions
    drop_pending_position drop_pending_source
on_disconnected-streams a client = ground arith

fail_closed-streams : (a : Adapter) → (fail_closed a).peer_streams ≡ a.peer_streams
unfolding fail_closed invalidate_attempts forget_activity clear_all clear_grant invalidate_positions
    drop_pending_position drop_pending_source
fail_closed-streams a = refl

expire_lease-streams :
    (e : Encoder) (a : Adapter) (t : Now) → (expire_lease e a t).peer_streams ≡ a.peer_streams
unfolding expire_lease expire_v2_lease drop_stale_attempts drop_stale_probes expire_grant
    expire_activity forget_activity clear_grant invalidate_positions drop_pending_position
    drop_pending_source
expire_lease-streams e a t = ground (arith, retry_no_fix_status-Same e (expire_v2_lease a t) t)

stop_adapter-streams :
    (a : Adapter) (t : Now) (topic : String)
    → (stop_adapter a t topic).peer_streams ≡ a.peer_streams
unfolding stop_adapter stop_worker clear_all clear_grant put_pending invalidate_positions
    drop_pending_position drop_pending_source
stop_adapter-streams a t topic = ground arith

-- An input that is no message of a peer and no control
abbrev pub spares_streams : Input → Bool
spares_streams (gives_control c) = false
spares_streams (gives_peer p) = false
spares_streams (gives_peer_status s) = false
spares_streams _ = true

pub step-streams :
    (e : Encoder) (a : Adapter) (t : Now) (i : Input)
    → spares_streams i ≡ true
    → (step e a t i).peer_streams ≡ a.peer_streams
unfolding step next_publication redis_step handle_snapshot
step-streams e a t (gives_snapshot s) h = with_canonical-streams e a t s (e.canonical s)
step-streams e a t (gives_activity x) h = accept_activity-streams e a t x
step-streams e a t (gives_report at fix sample) h = (handle_gps-Same e a t at fix sample).1.9
step-streams e a t (begins_connect client) h = (begin_connect-Same a t client).1.9
step-streams e a t (ends_connect client attempt connection) h =
    end_connect-streams e a t client attempt connection
step-streams e a t (disconnects client) h = on_disconnected-streams a client
step-streams e a t starts_recovery h = refl
step-streams e a t (reads_setting blocked) h = set_blocked-streams e a t blocked
step-streams e a t ends_recovery h = (issue_probe-Same e a t reconcile none).1.9
step-streams e a t loses_redis h = fail_closed-streams a
step-streams e a t ticks h = expire_lease-streams e a t
step-streams e a t takes_mqtt h = (take_entry-Same a (least none a.mqtt_pending)).1.9
step-streams e a t takes_redis h = (take_redis-Same e a t a.redis_queue).1.9
step-streams e a t (stops topic) h = stop_adapter-streams a t topic
step-streams e a t (gives_control c) h = absurd (ground arith)
step-streams e a t (gives_peer p) h = absurd (ground arith)
step-streams e a t (gives_peer_status s) h = absurd (ground arith)
