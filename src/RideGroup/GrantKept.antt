-- ===== src/RideGroup/GrantKept.antt =====
-- Which functions of protocol_v2_adapter.go and adapter.go touch the grant.
use uplink_service.Prelude.{
  ℕ, ◌-◌, ◌*◌, or_else, String, Bool, true, false, Option, none, some, ◌≡◌, refl, arith, ◌⊎◌, ◌⊎◌,
  inl, inr, if◌then◌else◌,
}
use uplink_service.GoMap.{lookup}
use uplink_service.Connection.State.{plus64, Bytes}
use uplink_service.RideGroup.State.{
  Activity, Control, LocalStop, Encoder, Attempt, Probe, Adapter, Now, millisecond,
}
use uplink_service.RideGroup.Egress.{
  drop_pending_position, drop_pending_source, stop_worker, put_pending, queue_redis,
}
use uplink_service.RideGroup.Lease.{
  invalidate_positions, clear_grant, clear_all, invalidate_attempts, forget_activity,
  inhibit_journal, publish_hello,
}
use uplink_service.RideGroup.Probes.{consume_probe, drop_stale_probes}
use uplink_service.RideGroup.Answers.{answer_attempt, handle_stop_status}
use uplink_service.RideGroup.Controls.{
  set_activity, confirm_grant, take_activity, remember_challenge, accept_activity, start_stream,
  set_grant, set_peer_replay_scope, restore_challenge, take_grant, forward_clear, clear_for,
  handle_clear, handle_status, is_new_stream,
}
use uplink_service.RideGroup.Link.{
  reset_connection, give_up_connect, end_connect, leave_attempt, on_disconnected, announce,
  block_journal, set_blocked, fail_closed, expire_activity, expire_grant, drop_stale_attempts,
  expire_v2_lease, expire_lease, stop_adapter,
}
use uplink_service.RideGroup.Same.{
  reconcile_journal-Same, consume_probe-Same, publish_hello-Same, publish_activity-Same,
}
use uplink_service.RideGroup.CoreStops.{take_answer-Core, maybe_send_offer-Core}
use uplink_service.RideGroup.SameSource.{publish_no_fix_status-Same, retry_no_fix_status-Same}
use uplink_service.RideGroup.Consent.{act_on-Core}
use uplink_service.RideGroup.ConsentReached.{reset_connection-no_grant, greet-Same, announce-Same}
use uplink_service.RideGroup.Snapshots.{
  admit, take_snapshot, refuse_snapshot, with_probe, unless_used, with_canonical,
}

-- The grant is the one before, or there is none.
abbrev pub Kept : Adapter → Adapter → Type 0
Kept a b = (b.lease.grant ≡ a.lease.grant) ⊎ (b.lease.grant ≡ none)

clear_grant-no_grant : (a : Adapter) → (clear_grant a).lease.grant ≡ none
unfolding clear_grant
clear_grant-no_grant a = refl

inhibit_journal-no_grant : (a : Adapter) → (inhibit_journal a).lease.grant ≡ none
unfolding inhibit_journal
inhibit_journal-no_grant a = clear_grant-no_grant _

admit-Kept : (a : Adapter) (s : LocalStop) → Kept a (admit a s)
unfolding admit clear_grant invalidate_positions drop_pending_position drop_pending_source
admit-Kept a s = ground arith

refuse_snapshot-Kept :
    (e : Encoder) (a : Adapter) (t : Now) (s : LocalStop) → Kept a (refuse_snapshot e a t s)
refuse_snapshot-Kept e a t s = ground (
  arith,
  reconcile_journal-Same e a t,
  reconcile_journal-Same e (inhibit_journal a) t,
  inhibit_journal-no_grant a,
)

take_snapshot-Kept :
    (e : Encoder) (a : Adapter) (t : Now) (s : LocalStop) (p : Probe) (payload : Bytes)
    → Kept a (take_snapshot e a t s p payload)
unfolding take_snapshot
take_snapshot-Kept e a t s p payload =
    let used = consume_probe a p payload in
    let inhibited = consume_probe (inhibit_journal a) p payload in
    ground (
      arith,
      act_on-Core e (admit used s) t s p p.purpose,
      admit-Kept used s,
      consume_probe-Same a p payload,
      reconcile_journal-Same e inhibited t,
      consume_probe-Same (inhibit_journal a) p payload,
      inhibit_journal-no_grant a,
    )

with_probe-Kept :
    (e : Encoder) (a : Adapter) (t : Now) (s : LocalStop) (c : Bytes) (o : Option Probe)
    → Kept a (with_probe e a t s c o)
with_probe-Kept e a t s c none = refuse_snapshot-Kept e a t s
with_probe-Kept e a t s c (some p) =
    ground (arith, take_snapshot-Kept e a t s p c, refuse_snapshot-Kept e a t s)

unless_used-Kept :
    (e : Encoder) (a : Adapter) (t : Now) (s : LocalStop) (c : Bytes) (o : Option Bytes)
    → Kept a (unless_used e a t s c o)
unless_used-Kept e a t s c none = with_probe-Kept e a t s c (lookup s.challenge a.journal.probes)
unless_used-Kept e a t s c (some prior) =
    ground (arith, reconcile_journal-Same e (inhibit_journal a) t, inhibit_journal-no_grant a)

pub with_canonical-Kept :
    (e : Encoder) (a : Adapter) (t : Now) (s : LocalStop) (o : Option Bytes)
    → Kept a (with_canonical e a t s o)
with_canonical-Kept e a t s none = inl refl
with_canonical-Kept e a t s (some c) =
    unless_used-Kept e a t s c (lookup s.challenge a.journal.used)

pub accept_activity-Kept :
    (e : Encoder) (a : Adapter) (t : Now) (x : Activity) → Kept a (accept_activity e a t x)
unfolding accept_activity take_activity remember_challenge confirm_grant set_activity clear_grant
    invalidate_positions drop_pending_position drop_pending_source
accept_activity-Kept e a t x =
    let known = remember_challenge (take_activity a t x) t x.challenge in
    let greeted = publish_hello e known t x.challenge in
    ground (arith, publish_activity-Same e greeted t x, publish_hello-Same e known t x.challenge)

block_journal-no_grant :
    (e : Encoder) (a : Adapter) (t : Now) → (block_journal e a t).lease.grant ≡ none
unfolding block_journal invalidate_attempts
block_journal-no_grant e a t =
    let inhibited = invalidate_attempts (inhibit_journal a) in
    let next = record inhibited {
      journal = record inhibited.journal { ipc_epoch = plus64 inhibited.journal.ipc_epoch 1 };
    } in
    ground (arith, reconcile_journal-Same e next t, inhibit_journal-no_grant a)

pub set_blocked-Kept :
    (e : Encoder) (a : Adapter) (t : Now) (blocked : Bool) → Kept a (set_blocked e a t blocked)
unfolding set_blocked
set_blocked-Kept e a t blocked =
    let set = record a { blocked = blocked; settings_ready = true } in
    ground (
      arith,
      block_journal-no_grant e (announce e set t a.settings_ready) t,
      announce-Same e set t a.settings_ready,
    )

pub end_connect-Kept :
    (e : Encoder) (a : Adapter) (t : Now) (client attempt : ℕ) (connection : Option String)
    → Kept a (end_connect e a t client attempt connection)
unfolding end_connect give_up_connect
end_connect-Kept e a t client attempt none = ground arith
end_connect-Kept e a t client attempt (some connection) =
    let fresh = reset_connection (record a { connecting = false }) (some client) connection in
    ground (
      arith,
      greet-Same e fresh t,
      reset_connection-no_grant (record a { connecting = false }) (some client) connection,
    )

pub on_disconnected-Kept : (a : Adapter) (client : ℕ) → Kept a (on_disconnected a client)
unfolding on_disconnected leave_attempt
on_disconnected-Kept a client = ground (arith, reset_connection-no_grant (leave_attempt a) none "")

pub fail_closed-Kept : (a : Adapter) → Kept a (fail_closed a)
unfolding fail_closed clear_all
fail_closed-Kept a = inr (clear_grant-no_grant _)

pub expire_lease-Kept : (e : Encoder) (a : Adapter) (t : Now) → Kept a (expire_lease e a t)
unfolding expire_lease expire_v2_lease drop_stale_attempts drop_stale_probes expire_grant
    expire_activity forget_activity clear_grant invalidate_positions drop_pending_position
    drop_pending_source
expire_lease-Kept e a t = ground (arith, retry_no_fix_status-Same e (expire_v2_lease a t) t)

pub stop_adapter-Kept : (a : Adapter) (t : Now) (topic : String) → Kept a (stop_adapter a t topic)
unfolding stop_adapter stop_worker clear_all clear_grant put_pending
stop_adapter-Kept a t topic = inr (ground arith)

answer_attempt-Kept :
    (e : Encoder) (a : Adapter) (t : Now) (c : Control) (result : String) (o : Option Attempt)
    → Kept a (answer_attempt e a t c result o)
answer_attempt-Kept e a t c result none = inl refl
answer_attempt-Kept e a t c result (some x) =
    ground (arith, take_answer-Core e a t c x result, inhibit_journal-no_grant a)

pub handle_status-Kept :
    (e : Encoder) (a : Adapter) (t : Now) (c : Control) (result : Option String)
    → Kept a (handle_status e a t c result)
unfolding handle_stop_status queue_redis
handle_status-Kept e a t c none = ground (arith, maybe_send_offer-Core e a t c)
handle_status-Kept e a t c (some result) =
    answer_attempt-Kept e a t c result (lookup c.challenge a.journal.attempts)

pub handle_clear-Kept :
    (a : Adapter) (t : Now) (c : Control) (g : Option Control) → Kept a (handle_clear a t c g)
unfolding handle_clear forward_clear clear_for clear_grant invalidate_positions
    drop_pending_position drop_pending_source queue_redis
handle_clear-Kept a t c none = ground arith
handle_clear-Kept a t c (some g) = ground arith

pub take_grant-grant :
    (e : Encoder) (a : Adapter) (t : Now) (c : Control) (sent_at : ℕ)
    → (take_grant e a t c sent_at).lease.grant ≡ some c
unfolding take_grant restore_challenge set_peer_replay_scope set_grant queue_redis
take_grant-grant e a t c sent_at =
    let streamed = if is_new_stream a.lease.grant c then start_stream a c else a in
    let n = c.lease_ttl_ms * millisecond - (t.time - sent_at) in
    let scoped =
      set_peer_replay_scope (set_grant streamed t c n) (or_else c.session_id "") c.peers in
    ground (arith, publish_no_fix_status-Same e scoped t)
