-- ===== src/RideGroup/ConsentReached.antt =====
-- What a grant of protocol_v2_adapter.go stands on, in the states that the adapter reaches.
use uplink_service.Prelude.{
  ℕ, ◌==◌, ◌||◌, String, Bool, true, false, Option, none, some, List, [], ◌∷◌, ◌≡◌, refl, arith,
  Bool-cases, inl, inr,
}
use uplink_service.Connection.State.{plus64}
use uplink_service.RideGroup.State.{
  PeerPosition, PeerStatus, Encoder, reconcile, Publication, Adapter, Now, RedisPublication,
  same_int,
}
use uplink_service.RideGroup.Authority.{journal_is_idle}
use uplink_service.RideGroup.Egress.{
  drop_pending_position, drop_pending_source, next_publication, least, take_entry, stop_worker,
  put_pending, queue_redis,
}
use uplink_service.RideGroup.Lease.{
  invalidate_positions, clear_grant, clear_all, invalidate_attempts, forget_activity,
  inhibit_journal, publish_hello,
}
use uplink_service.RideGroup.Probes.{drop_stale_probes}
use uplink_service.RideGroup.Delivery.{redis_step, take_redis}
use uplink_service.RideGroup.Link.{
  new_adapter, reset_connection, begin_connect, give_up_connect, greet, end_connect, leave_attempt,
  on_disconnected, announce, block_journal, set_blocked, fail_closed, expire_activity, expire_grant,
  drop_stale_attempts, expire_v2_lease, expire_lease, stop_adapter,
}
use uplink_service.RideGroup.Inputs.{
  Input, gives_snapshot, gives_activity, gives_control, gives_peer, gives_peer_status, gives_report,
  begins_connect, ends_connect, disconnects, starts_recovery, reads_setting, ends_recovery,
  loses_redis, ticks, takes_mqtt, takes_redis, stops, step, run,
}
use uplink_service.RideGroup.Same.{Same, Same-refl, publish_hello-Same, issue_probe-Same}
use uplink_service.RideGroup.SameSource.{handle_gps-Same, retry_no_fix_status-Same}
use uplink_service.RideGroup.Peers.{put_stream, handle_peer, handle_peer_status}
use uplink_service.RideGroup.Consent.{
  IsConsented, Same-IsConsented, no_grant-IsConsented, clear_grant-IsConsented,
  reconcile_journal-IsConsented, handle_snapshot-IsConsented,
}
use uplink_service.RideGroup.ConsentKept.{accept_activity-IsConsented, handle_control-IsConsented}

pub reset_connection-no_grant :
    (a : Adapter) (client : Option ℕ) (connection : String)
    → (reset_connection a client connection).lease.grant ≡ none
unfolding reset_connection clear_all clear_grant invalidate_positions drop_pending_position
    drop_pending_source
reset_connection-no_grant a client connection = refl

pub greet-Same : (e : Encoder) (a : Adapter) (t : Now) → Same a (greet e a t)
greet-Same e a t = ground (
  arith,
  publish_hello-Same e a t "",
  issue_probe-Same e (publish_hello e a t "") t reconcile none,
)

end_connect-IsConsented :
    (e : Encoder) (a : Adapter) (t : Now) (client attempt : ℕ) (connection : Option String)
    → IsConsented a
    → IsConsented (end_connect e a t client attempt connection)
unfolding end_connect give_up_connect journal_is_idle
end_connect-IsConsented e a t client attempt none i = ground arith
end_connect-IsConsented e a t client attempt (some connection) i =
    let fresh = reset_connection (record a { connecting = false }) (some client) connection in
    elim (Bool-cases (a.connect_attempt == attempt)) [
      | inl current ↦ rw current (
          Same-IsConsented fresh (greet e fresh t) (greet-Same e fresh t) (
            no_grant-IsConsented fresh (
              reset_connection-no_grant (record a { connecting = false }) (some client)
                connection)))
      | inr other ↦ rw other i
    ]

on_disconnected-IsConsented :
    (a : Adapter) (client : ℕ) → IsConsented a → IsConsented (on_disconnected a client)
unfolding on_disconnected leave_attempt journal_is_idle
on_disconnected-IsConsented a client i = elim (Bool-cases (same_int a.mqtt (some client))) [
  | inl mine ↦ rw mine (
      no_grant-IsConsented (reset_connection (leave_attempt a) none "")
        (reset_connection-no_grant (leave_attempt a) none ""))
  | inr other ↦ rw other (ground arith)
]

block_journal-IsConsented :
    (e : Encoder) (a : Adapter) (t : Now) → IsConsented (block_journal e a t)
unfolding block_journal invalidate_attempts inhibit_journal clear_grant
block_journal-IsConsented e a t =
    let inhibited = invalidate_attempts (inhibit_journal a) in
    let next = record inhibited {
      journal = record inhibited.journal { ipc_epoch = plus64 inhibited.journal.ipc_epoch 1 };
    } in
    reconcile_journal-IsConsented e next t (no_grant-IsConsented next refl)

pub announce-Same :
    (e : Encoder) (a : Adapter) (t : Now) (was_ready : Bool) → Same a (announce e a t was_ready)
announce-Same e a t was_ready = ground (
  arith,
  publish_hello-Same e a t "",
  issue_probe-Same e (publish_hello e a t "") t reconcile none,
)

set_blocked-IsConsented :
    (e : Encoder) (a : Adapter) (t : Now) (blocked : Bool)
    → IsConsented a
    → IsConsented (set_blocked e a t blocked)
unfolding set_blocked journal_is_idle
set_blocked-IsConsented e a t blocked i =
    let set = record a { blocked = blocked; settings_ready = true } in
    elim (Bool-cases (blocked || a.blocked)) [
      | inl blocks ↦ rw blocks (block_journal-IsConsented e (announce e set t a.settings_ready) t)
      | inr allows ↦ rw allows (
          Same-IsConsented set (announce e set t a.settings_ready)
            (announce-Same e set t a.settings_ready) (ground arith))
    ]

fail_closed-IsConsented : (a : Adapter) → IsConsented (fail_closed a)
unfolding fail_closed clear_all
fail_closed-IsConsented a = clear_grant-IsConsented _

expire_v2_lease-IsConsented :
    (a : Adapter) (t : Now) → IsConsented a → IsConsented (expire_v2_lease a t)
unfolding expire_v2_lease drop_stale_attempts drop_stale_probes expire_grant expire_activity
    forget_activity clear_grant invalidate_positions drop_pending_position drop_pending_source
    journal_is_idle
expire_v2_lease-IsConsented a t i = ground arith

expire_lease-IsConsented :
    (e : Encoder) (a : Adapter) (t : Now) → IsConsented a → IsConsented (expire_lease e a t)
unfolding expire_lease
expire_lease-IsConsented e a t i =
    Same-IsConsented (expire_v2_lease a t) (expire_lease e a t)
      (retry_no_fix_status-Same e (expire_v2_lease a t) t) (expire_v2_lease-IsConsented a t i)

stop_adapter-IsConsented :
    (a : Adapter) (t : Now) (topic : String) → IsConsented (stop_adapter a t topic)
unfolding stop_adapter stop_worker clear_all clear_grant put_pending
stop_adapter-IsConsented a t topic = no_grant-IsConsented (stop_adapter a t topic) (ground arith)

pub begin_connect-Same : (a : Adapter) (t : Now) (client : ℕ) → Same a (begin_connect a t client).0
unfolding begin_connect
begin_connect-Same a t client = ground arith

starts_recovery-IsConsented :
    (a : Adapter) → IsConsented a → IsConsented (record a { settings_ready = false })
unfolding journal_is_idle
starts_recovery-IsConsented a h = ground arith

pub take_entry-Same : (a : Adapter) (o : Option (String × Publication)) → Same a (take_entry a o).0
take_entry-Same a none = Same-refl a
take_entry-Same a (some (kind, p)) = Same-refl a

pub take_redis-Same :
    (e : Encoder) (a : Adapter) (t : Now) (q : List RedisPublication)
    → Same a (take_redis e a t q).0
take_redis-Same e a t [] = Same-refl a
take_redis-Same e a t (p ∷ q) = Same-refl a

handle_peer-IsConsented :
    (a : Adapter) (t : Now) (p : PeerPosition) → IsConsented a → IsConsented (handle_peer a t p)
unfolding handle_peer queue_redis put_stream journal_is_idle
handle_peer-IsConsented a t p h = ground arith

handle_peer_status-IsConsented :
    (a : Adapter) (t : Now) (s : PeerStatus)
    → IsConsented a
    → IsConsented (handle_peer_status a t s)
unfolding handle_peer_status queue_redis put_stream journal_is_idle
handle_peer_status-IsConsented a t s h = ground arith

step-IsConsented :
    (e : Encoder) (a : Adapter) (t : Now) (i : Input) → IsConsented a → IsConsented (step e a t i)
unfolding step next_publication redis_step
step-IsConsented e a t (gives_snapshot s) h = handle_snapshot-IsConsented e a t s h
step-IsConsented e a t (gives_activity x) h = accept_activity-IsConsented e a t x h
step-IsConsented e a t (gives_control c) h = handle_control-IsConsented e a t c h
step-IsConsented e a t (gives_peer p) h = handle_peer-IsConsented a t p h
step-IsConsented e a t (gives_peer_status s) h = handle_peer_status-IsConsented a t s h
step-IsConsented e a t (gives_report at fix sample) h =
    Same-IsConsented a _ (handle_gps-Same e a t at fix sample) h
step-IsConsented e a t (begins_connect client) h =
    Same-IsConsented a _ (begin_connect-Same a t client) h
step-IsConsented e a t (ends_connect client attempt connection) h =
    end_connect-IsConsented e a t client attempt connection h
step-IsConsented e a t (disconnects client) h = on_disconnected-IsConsented a client h
step-IsConsented e a t starts_recovery h = starts_recovery-IsConsented a h
step-IsConsented e a t (reads_setting blocked) h = set_blocked-IsConsented e a t blocked h
step-IsConsented e a t ends_recovery h =
    Same-IsConsented a _ (issue_probe-Same e a t reconcile none) h
step-IsConsented e a t loses_redis h = fail_closed-IsConsented a
step-IsConsented e a t ticks h = expire_lease-IsConsented e a t h
step-IsConsented e a t takes_mqtt h =
    Same-IsConsented a _ (take_entry-Same a (least none a.mqtt_pending)) h
step-IsConsented e a t takes_redis h = Same-IsConsented a _ (take_redis-Same e a t a.redis_queue) h
step-IsConsented e a t (stops topic) h = stop_adapter-IsConsented a t topic

run-IsConsented :
    (e : Encoder) (a : Adapter) (inputs : List (Now × Input))
    → IsConsented a
    → IsConsented (run e a inputs)
unfolding run
run-IsConsented e a [] h = h
run-IsConsented e a ((t, i) ∷ inputs) h =
    run-IsConsented e (step e a t i) inputs (step-IsConsented e a t i h)

-- Whatever the adapter is given from its start on: while it holds a grant, the setting does not block
-- sharing, the last snapshot of the journal was idle and not blocked, the activity of the vehicle is
-- active, there is a client, and the grant came on the present connection.
pub grant-IsConsented :
    (e : Encoder) (inputs : List (Now × Input)) → IsConsented (run e new_adapter inputs)
grant-IsConsented e inputs = run-IsConsented e new_adapter inputs refl
