-- ===== src/RideGroup/Same.antt =====
-- What the functions of the ride group that publish or probe leave as it is: the lease, the link, the
-- word of the journal, the streams of the peers, and the attempts to stop.
use uplink_service.Prelude.{ℕ, String, Option, none, ◌≡◌, refl, arith}
use uplink_service.Connection.State.{Bytes}
use uplink_service.RideGroup.State.{
  Message, Activity, Encoder, Purpose, reconcile, Probe, Attempt, Query, Publication, Adapter, Now,
}
use uplink_service.RideGroup.Egress.{put_pending, queue_mqtt, queue_redis, drop_pending_position}
use uplink_service.RideGroup.Lease.{
  invalidate_positions, publish_hello, publish_activity, publish_queued_activity,
}
use uplink_service.RideGroup.Probes.{
  drop_stale_probes, drop_old_times, add_probe, issue_probe, reconcile_journal, consume_probe,
}
use uplink_service.RideGroup.Stops.{put_attempt}

-- The part that a request to the server may leave as it is, too
abbrev pub Core : Adapter → Adapter → Type 0
Core a b =
    (b.lease ≡ a.lease)
    × (b.blocked ≡ a.blocked)
    × (b.settings_ready ≡ a.settings_ready)
    × (b.mqtt ≡ a.mqtt)
    × (b.connection ≡ a.connection)
    × (b.journal.ready ≡ a.journal.ready)
    × (b.journal.state ≡ a.journal.state)
    × (b.journal.blocked ≡ a.journal.blocked)
    × (b.journal.ipc_epoch ≡ a.journal.ipc_epoch)
    × (b.peer_streams ≡ a.peer_streams)

abbrev pub Same : Adapter → Adapter → Type 0
Same a b = (b.journal.attempts ≡ a.journal.attempts) × Core a b

pub Core-refl : (a : Adapter) → Core a a
Core-refl a = (refl, refl, refl, refl, refl, refl, refl, refl, refl, refl)

pub Core-trans : (a b c : Adapter) → Core a b → Core b c → Core a c
Core-trans a b c h i = ground arith

pub Same-refl : (a : Adapter) → Same a a
Same-refl a = (refl, Core-refl a)

pub Same-trans : (a b c : Adapter) → Same a b → Same b c → Same a c
Same-trans a b c h i = ground arith

pub queue_mqtt-Same : (a : Adapter) (p : Publication) → Same a (queue_mqtt a p)
unfolding queue_mqtt put_pending
queue_mqtt-Same a p = ground arith

pub queue_redis-Same :
    (a : Adapter) (t : Now) (channel : String) (msg : Message) (n : ℕ)
    → Same a (queue_redis a t channel msg n)
unfolding queue_redis
queue_redis-Same a t channel msg n = Same-refl a

pub invalidate_positions-Same : (a : Adapter) → Same a (invalidate_positions a)
unfolding invalidate_positions drop_pending_position
invalidate_positions-Same a = Same-refl a

pub publish_hello-Same :
    (e : Encoder) (a : Adapter) (t : Now) (challenge : String)
    → Same a (publish_hello e a t challenge)
unfolding publish_hello queue_mqtt put_pending
publish_hello-Same e a t challenge = ground arith

pub publish_activity-Same :
    (e : Encoder) (a : Adapter) (t : Now) (x : Activity) → Same a (publish_activity e a t x)
unfolding publish_activity queue_mqtt put_pending
publish_activity-Same e a t x = ground arith

pub publish_queued_activity-Same :
    (e : Encoder) (a : Adapter) (t : Now) → Same a (publish_queued_activity e a t)
unfolding publish_queued_activity publish_activity queue_mqtt put_pending
publish_queued_activity-Same e a t = ground arith

pub issue_probe-Same :
    (e : Encoder) (a : Adapter) (t : Now) (purpose : Purpose) (query : Option Query)
    → Same a (issue_probe e a t purpose query).0
unfolding issue_probe drop_stale_probes drop_old_times add_probe queue_redis
issue_probe-Same e a t purpose query = ground arith

pub reconcile_journal-Same :
    (e : Encoder) (a : Adapter) (t : Now) → Same a (reconcile_journal e a t)
unfolding reconcile_journal
reconcile_journal-Same e a t = ground (arith, issue_probe-Same e a t reconcile none)

pub consume_probe-Same :
    (a : Adapter) (p : Probe) (payload : Bytes) → Same a (consume_probe a p payload)
unfolding consume_probe
consume_probe-Same a p payload = Same-refl a

pub put_attempt-Core : (a : Adapter) (x : Attempt) → Core a (put_attempt a x)
unfolding put_attempt
put_attempt-Core a x = Core-refl a
