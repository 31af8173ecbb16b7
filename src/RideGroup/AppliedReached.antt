-- ===== src/RideGroup/AppliedReached.antt =====
-- The reactions of the adapter and the attempts that apply a local stop.
use uplink_service.Prelude.{ℕ, String, Bool, true, false, Option, none, some, ◌≡◌, refl, arith}
use uplink_service.GoMap.{lookup}
use uplink_service.Connection.State.{plus64}
use uplink_service.RideGroup.State.{
  Activity, Encoder, reconcile, Adapter, Now, PeerPosition, PeerStatus,
}
use uplink_service.RideGroup.Egress.{
  drop_pending_position, drop_pending_source, next_publication, least, stop_worker, put_pending,
  queue_redis,
}
use uplink_service.RideGroup.Lease.{
  invalidate_positions, clear_grant, clear_all, invalidate_attempts, forget_activity,
  inhibit_journal, publish_hello,
}
use uplink_service.RideGroup.Probes.{drop_stale_probes}
use uplink_service.RideGroup.Controls.{
  set_activity, confirm_grant, take_activity, remember_challenge, accept_activity,
}
use uplink_service.RideGroup.Delivery.{redis_step}
use uplink_service.RideGroup.Link.{
  reset_connection, give_up_connect, end_connect, leave_attempt, on_disconnected, announce,
  block_journal, set_blocked, fail_closed, expire_activity, expire_grant, drop_stale_attempts,
  attempt_is_open, expire_v2_lease, expire_lease, stop_adapter,
}
use uplink_service.RideGroup.Inputs.{
  Input, gives_snapshot, gives_activity, gives_control, gives_peer, gives_peer_status, gives_report,
  begins_connect, ends_connect, disconnects, starts_recovery, reads_setting, ends_recovery,
  loses_redis, ticks, takes_mqtt, takes_redis, stops, step,
}
use uplink_service.RideGroup.Same.{publish_hello-Same, publish_activity-Same, issue_probe-Same}
use uplink_service.RideGroup.SameSource.{handle_gps-Same, retry_no_fix_status-Same}
use uplink_service.RideGroup.ConsentReached.{
  greet-Same, announce-Same, begin_connect-Same, take_entry-Same, take_redis-Same,
}
use uplink_service.RideGroup.Snapshots.{handle_snapshot}
use uplink_service.RideGroup.Peers.{put_stream, handle_peer, handle_peer_status}
use uplink_service.RideGroup.Applied.{apply_free, IsFree, Same-IsFree, keep-IsFree, is_confirmation}
use uplink_service.RideGroup.AppliedSnapshots.{reconcile_journal-IsFree, with_canonical-IsFree}
use uplink_service.RideGroup.AppliedControls.{handle_control-IsFree}

accept_activity-attempts :
    (e : Encoder) (a : Adapter) (t : Now) (x : Activity)
    → (accept_activity e a t x).journal.attempts ≡ a.journal.attempts
unfolding accept_activity take_activity remember_challenge confirm_grant set_activity clear_grant
    invalidate_positions drop_pending_position drop_pending_source
accept_activity-attempts e a t x =
    let known = remember_challenge (take_activity a t x) t x.challenge in
    let greeted = publish_hello e known t x.challenge in
    ground (arith, publish_activity-Same e greeted t x, publish_hello-Same e known t x.challenge)

block_journal-IsFree : (e : Encoder) (a : Adapter) (t : Now) → IsFree (block_journal e a t)
unfolding block_journal invalidate_attempts apply_free
block_journal-IsFree e a t =
    let inhibited = invalidate_attempts (inhibit_journal a) in
    let next = record inhibited {
      journal = record inhibited.journal { ipc_epoch = plus64 inhibited.journal.ipc_epoch 1 };
    } in
    reconcile_journal-IsFree e next t refl

set_blocked-IsFree :
    (e : Encoder) (a : Adapter) (t : Now) (blocked : Bool)
    → IsFree a
    → IsFree (set_blocked e a t blocked)
unfolding set_blocked
set_blocked-IsFree e a t blocked i =
    let set = record a { blocked = blocked; settings_ready = true } in
    ground (
      arith,
      block_journal-IsFree e (announce e set t a.settings_ready) t,
      announce-Same e set t a.settings_ready,
    )

reset_connection-IsFree :
    (a : Adapter) (client : Option ℕ) (connection : String)
    → IsFree (reset_connection a client connection)
unfolding reset_connection invalidate_attempts clear_all clear_grant invalidate_positions
    drop_pending_position drop_pending_source apply_free
reset_connection-IsFree a client connection = refl

end_connect-IsFree :
    (e : Encoder) (a : Adapter) (t : Now) (client attempt : ℕ) (connection : Option String)
    → IsFree a
    → IsFree (end_connect e a t client attempt connection)
unfolding end_connect give_up_connect
end_connect-IsFree e a t client attempt none i = ground arith
end_connect-IsFree e a t client attempt (some connection) i =
    let fresh = reset_connection (record a { connecting = false }) (some client) connection in
    ground (
      arith,
      greet-Same e fresh t,
      reset_connection-IsFree (record a { connecting = false }) (some client) connection,
    )

on_disconnected-IsFree : (a : Adapter) (client : ℕ) → IsFree a → IsFree (on_disconnected a client)
unfolding on_disconnected leave_attempt
on_disconnected-IsFree a client i =
    ground (arith, reset_connection-IsFree (leave_attempt a) none "")

fail_closed-IsFree : (a : Adapter) → IsFree (fail_closed a)
unfolding fail_closed invalidate_attempts clear_all clear_grant invalidate_positions
    drop_pending_position drop_pending_source apply_free
fail_closed-IsFree a = refl

expired-IsFree :
    (a : Adapter) (t : Now)
    → IsFree a
    → IsFree (drop_stale_probes (expire_grant (expire_activity a t) t) t)
unfolding drop_stale_probes expire_grant expire_activity forget_activity clear_grant
    invalidate_positions drop_pending_position drop_pending_source
expired-IsFree a t i = ground arith

expire_v2_lease-IsFree : (a : Adapter) (t : Now) → IsFree a → IsFree (expire_v2_lease a t)
unfolding expire_v2_lease drop_stale_attempts
expire_v2_lease-IsFree a t i =
    let b = drop_stale_probes (expire_grant (expire_activity a t) t) t in
    keep-IsFree (attempt_is_open b t) b.journal.attempts (expired-IsFree a t i)

expire_lease-IsFree : (e : Encoder) (a : Adapter) (t : Now) → IsFree a → IsFree (expire_lease e a t)
unfolding expire_lease
expire_lease-IsFree e a t i =
    Same-IsFree (expire_v2_lease a t) (expire_lease e a t)
      (retry_no_fix_status-Same e (expire_v2_lease a t) t) (expire_v2_lease-IsFree a t i)

stop_adapter-attempts :
    (a : Adapter) (t : Now) (topic : String)
    → (stop_adapter a t topic).journal.attempts ≡ a.journal.attempts
unfolding stop_adapter stop_worker clear_all clear_grant put_pending invalidate_positions
    drop_pending_position drop_pending_source
stop_adapter-attempts a t topic = ground arith

handle_peer-attempts :
    (a : Adapter) (t : Now) (p : PeerPosition)
    → (handle_peer a t p).journal.attempts ≡ a.journal.attempts
unfolding handle_peer queue_redis put_stream
handle_peer-attempts a t p = ground arith

handle_peer_status-attempts :
    (a : Adapter) (t : Now) (s : PeerStatus)
    → (handle_peer_status a t s).journal.attempts ≡ a.journal.attempts
unfolding handle_peer_status queue_redis put_stream
handle_peer_status-attempts a t s = ground arith

-- The input is a snapshot that answers an open probe for the confirmation of the query that is pending,
-- and says that its operation, at its revision and fence, is prepared and not committed.
abbrev pub confirms_query : Adapter → Now → Input → Bool
confirms_query a t (gives_snapshot s) =
    is_confirmation a t s (lookup s.challenge a.journal.probes) a.journal.pending_query
confirms_query a t _ = false

-- Where no attempt applies a stop, none does behind any input but a snapshot that confirms the query
-- which is pending: it answers the open probe for the confirmation, in time and on this connection, and
-- names the operation, the revision and the fence of the query as prepared and not committed.
pub apply_needs_confirmation :
    (e : Encoder) (a : Adapter) (t : Now) (i : Input)
    → IsFree a
    → confirms_query a t i ≡ false
    → IsFree (step e a t i)
unfolding step next_publication redis_step handle_snapshot
apply_needs_confirmation e a t (gives_snapshot s) h c =
    with_canonical-IsFree e a t s (e.canonical s) c h
apply_needs_confirmation e a t (gives_activity x) h c = rw (accept_activity-attempts e a t x) h
apply_needs_confirmation e a t (gives_control d) h c = handle_control-IsFree e a t d h
apply_needs_confirmation e a t (gives_peer p) h c = rw (handle_peer-attempts a t p) h
apply_needs_confirmation e a t (gives_peer_status s) h c = rw (handle_peer_status-attempts a t s) h
apply_needs_confirmation e a t (gives_report at fix sample) h c =
    rw ((handle_gps-Same e a t at fix sample).0) h
apply_needs_confirmation e a t (begins_connect client) h c =
    rw ((begin_connect-Same a t client).0) h
apply_needs_confirmation e a t (ends_connect client attempt connection) h c =
    end_connect-IsFree e a t client attempt connection h
apply_needs_confirmation e a t (disconnects client) h c = on_disconnected-IsFree a client h
apply_needs_confirmation e a t starts_recovery h c = h
apply_needs_confirmation e a t (reads_setting blocked) h c = set_blocked-IsFree e a t blocked h
apply_needs_confirmation e a t ends_recovery h c = rw ((issue_probe-Same e a t reconcile none).0) h
apply_needs_confirmation e a t loses_redis h c = fail_closed-IsFree a
apply_needs_confirmation e a t ticks h c = expire_lease-IsFree e a t h
apply_needs_confirmation e a t takes_mqtt h c =
    rw ((take_entry-Same a (least none a.mqtt_pending)).0) h
apply_needs_confirmation e a t takes_redis h c = rw ((take_redis-Same e a t a.redis_queue).0) h
apply_needs_confirmation e a t (stops topic) h c = rw (stop_adapter-attempts a t topic) h
