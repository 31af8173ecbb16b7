-- ===== src/RideGroup/SameSource.antt =====
-- The functions of the own position that leave the lease, the link and the word of the journal as they
-- are.
use uplink_service.Prelude.{ℕ, String, Bool, true, false, Option, none, some, arith}
use uplink_service.RideGroup.State.{Control, Encoder, Adapter, Now}
use uplink_service.RideGroup.Egress.{
  put_pending, queue_mqtt, drop_pending_position, drop_pending_source,
}
use uplink_service.RideGroup.Lease.{invalidate_positions}
use uplink_service.RideGroup.Source.{
  Sample, queue_source, publish_status_value, set_sequence, publish_no_fix_status,
  publish_source_status, retry_no_fix_status, close_source_fix, queue_position, enqueue_position,
  recover_fix, observe, handle_gps, lose_fix, with_names, with_grant, send_sample, set_pending,
}
use uplink_service.RideGroup.Same.{Same, Same-refl, Same-trans, invalidate_positions-Same}

pub publish_no_fix_status-Same :
    (e : Encoder) (a : Adapter) (t : Now) → Same a (publish_no_fix_status e a t)
unfolding publish_no_fix_status publish_status_value set_sequence queue_source drop_pending_source
    queue_mqtt put_pending
publish_no_fix_status-Same e a t = ground arith

pub retry_no_fix_status-Same :
    (e : Encoder) (a : Adapter) (t : Now) → Same a (retry_no_fix_status e a t)
unfolding retry_no_fix_status queue_source queue_mqtt put_pending
retry_no_fix_status-Same e a t = ground arith

publish_source_status-Same :
    (e : Encoder) (a : Adapter) (t : Now) (state : String) (at : Option ℕ)
    → Same a (publish_source_status e a t state at).0
unfolding publish_source_status publish_status_value set_sequence queue_source drop_pending_source
    queue_mqtt put_pending
publish_source_status-Same e a t state at = ground arith

pub close_source_fix-Same : (e : Encoder) (a : Adapter) (t : Now) → Same a (close_source_fix e a t)
unfolding close_source_fix invalidate_positions drop_pending_position
close_source_fix-Same e a t = ground (
  arith,
  retry_no_fix_status-Same e a t,
  publish_source_status-Same e
      (invalidate_positions (record a {
        source = record a.source { no_fix_closed = true; fix_available_pending = false };
      }))
      t "no_fix" none,
)

lose_fix-Same : (e : Encoder) (a : Adapter) (t : Now) → Same a (lose_fix e a t)
lose_fix-Same e a t =
    Same-trans a (invalidate_positions a) (lose_fix e a t) (invalidate_positions-Same a)
      (close_source_fix-Same e (invalidate_positions a) t)

queue_position-Same :
    (e : Encoder) (a : Adapter) (t : Now) (sample : Sample) (c : Control)
    (session member stream : String)
    → Same a (queue_position e a t sample c session member stream)
unfolding queue_position enqueue_position queue_mqtt put_pending
queue_position-Same e a t sample c session member stream = ground arith

with_names-Same :
    (e : Encoder) (a : Adapter) (t : Now) (sample : Sample) (c : Control)
    (session member stream : Option String)
    → Same a (with_names e a t sample c session member stream)
with_names-Same e a t sample c none member stream = Same-refl a
with_names-Same e a t sample c (some session) none stream = Same-refl a
with_names-Same e a t sample c (some session) (some member) none = Same-refl a
with_names-Same e a t sample c (some session) (some member) (some stream) =
    queue_position-Same e a t sample c session member stream

with_grant-Same :
    (e : Encoder) (a : Adapter) (t : Now) (sample : Sample) (c : Option Control)
    → Same a (with_grant e a t sample c)
with_grant-Same e a t sample none = Same-refl a
with_grant-Same e a t sample (some c) =
    with_names-Same e a t sample c c.session_id c.member_id c.stream_id

send_sample-Same :
    (e : Encoder) (a : Adapter) (t : Now) (sample : Option Sample)
    → Same a (send_sample e a t sample)
send_sample-Same e a t none = invalidate_positions-Same a
send_sample-Same e a t (some sample) = ground (arith, with_grant-Same e a t sample a.lease.grant)

set_pending-Same : (a : Adapter) (r : Adapter × Bool) → Same a r.0 → Same a (set_pending r)
set_pending-Same a (r, true) h = h
set_pending-Same a (r, false) h = h

recover_fix-Same : (e : Encoder) (a : Adapter) (t : Now) (at : ℕ) → Same a (recover_fix e a t at)
unfolding recover_fix
recover_fix-Same e a t at = ground (
  arith,
  retry_no_fix_status-Same e a t,
  set_pending-Same a (publish_source_status e a t "fix_available" (some at))
      (publish_source_status-Same e a t "fix_available" (some at)),
)

observe-Same :
    (e : Encoder) (a : Adapter) (t : Now) (at : ℕ) (fix : Bool) (sample : Option Sample)
    → Same a (observe e a t at fix sample)
unfolding observe
observe-Same e a t at fix sample =
    let seen = record a { source = record a.source { gps_observed_at = some at } } in
    ground (
      arith,
      lose_fix-Same e seen t,
      recover_fix-Same e seen t at,
      send_sample-Same e seen t sample,
    )

pub handle_gps-Same :
    (e : Encoder) (a : Adapter) (t : Now) (at : Option ℕ) (fix : Bool) (sample : Option Sample)
    → Same a (handle_gps e a t at fix sample)
unfolding handle_gps
handle_gps-Same e a t none fix sample = lose_fix-Same e a t
handle_gps-Same e a t (some at) fix sample =
    ground (arith, lose_fix-Same e a t, observe-Same e a t at fix sample)
