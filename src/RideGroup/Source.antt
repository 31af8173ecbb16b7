-- ===== src/RideGroup/Source.antt =====
-- The position and the status of the own scooter in gps_v2.go. The parser of a report and the
-- estimator of the motion are outside: what they return is an argument.
mod Status
unfoldable pub use Status.{
  queue_source, publish_status_value, set_sequence, publish_no_fix_status, publish_source_status,
  retry_no_fix_status,
}
pub use Status.{status_of}
use uplink_service.Prelude.{
  ℕ, ◌+◌, ◌-◌, ◌*◌, ◌/◌, String, Bool, true, false, ◌&&◌, ◌||◌, not, Option, none, some, leb, ltb,
  str_eq, is_some, or_else, if◌then◌else◌,
}
use uplink_service.Connection.State.{Bytes, plus64, second}
use uplink_service.RideGroup.State.{
  Control, source_status, SourceStatus, Position, position, Encoder, Subject, about_source,
  about_position, Adapter, Now, millisecond,
}
use uplink_service.RideGroup.Authority.{grant_current, activity_matches_grant}
use uplink_service.RideGroup.Egress.{queue_mqtt, drop_pending_source, is_recent}
use uplink_service.RideGroup.Lease.{invalidate_positions}

abbrev announces_fix : Option SourceStatus → Bool
announces_fix none = false
announces_fix (some s) = str_eq s.state "fix_available"

-- closeSourceFixV2Locked; recoveryFixAfterV2 is written and never read.
unfoldable pub close_source_fix : Encoder → Adapter → Now → Adapter
close_source_fix e a t =
    if a.source.no_fix_closed && not (announces_fix a.source.last_status)
    then retry_no_fix_status e a t
    else (publish_source_status e
        (invalidate_positions (record a {
          source = record a.source { no_fix_closed = true; fix_available_pending = false };
        }))
        t "no_fix" none).0

-- A MotionSample: when it was captured, and its numbers as they are encoded.
pub record Sample : Type 0 where
  pub captured_at : ℕ
  pub encoded : Bytes

unfoldable pub enqueue_position : Adapter → Now → Position → Subject → Adapter
enqueue_position a t p subject =
    let queued = queue_mqtt a (record {
      client = a.mqtt;
      connection = a.connection;
      message = some (position p);
      expires_at = some (t.time + 5 * second);
      priority = 1;
      subject = subject;
      order = 0;
    }) in
    record queued {
      source = record queued.source { source_sequence = p.seq; last_position_at = some t.time };
    }

abbrev position_for : Adapter → Sample → Control → String → String → Position
position_for a sample c session stream = record {
  session_id = session;
  revision = c.revision;
  transport_epoch = c.transport_epoch;
  stream_id = stream;
  seq = a.source.source_sequence + 1;
  captured_at_ms = sample.captured_at / millisecond;
  sample = sample.encoded;
}

unfoldable pub queue_position :
    Encoder → Adapter → Now → Sample → Control → String → String → String → Adapter
queue_position e a t sample c session member stream =
    if e.encodes (position (position_for a sample c session stream))
    then enqueue_position a t (position_for a sample c session stream) (
        about_position session member stream c.revision c.transport_epoch a.source.generation
          sample.captured_at)
    else a

abbrev cadence_passed : Adapter → Now → Option ℕ → Bool
cadence_passed a t none = true
cadence_passed a t (some last) = leb (last + a.source.cadence) t.time

abbrev pub with_names :
    Encoder
    → Adapter
    → Now
    → Sample
    → Control
    → Option String
    → Option String
    → Option String
    → Adapter
with_names e a t sample c (some session) (some member) (some stream) =
    queue_position e a t sample c session member stream
with_names e a t sample c _ _ _ = a

abbrev pub with_grant : Encoder → Adapter → Now → Sample → Option Control → Adapter
with_grant e a t sample none = a
with_grant e a t sample (some c) = with_names e a t sample c c.session_id c.member_id c.stream_id

abbrev pub send_sample : Encoder → Adapter → Now → Option Sample → Adapter
send_sample e a t none = invalidate_positions a
send_sample e a t (some sample) =
    if grant_current a t
      && activity_matches_grant a
      && is_recent t.time (some sample.captured_at)
      && cadence_passed a t a.source.last_position_at
    then with_grant e a t sample a.lease.grant
    else a

abbrev pub lose_fix : Encoder → Adapter → Now → Adapter
lose_fix e a t = close_source_fix e (invalidate_positions a) t

abbrev status_is_fresh : Now → Option SourceStatus → Bool
status_is_fresh t none = false
status_is_fresh t (some s) =
    is_some s.captured_at_ms && leb (t.time - or_else s.captured_at_ms 0 * millisecond) (5 * second)

abbrev pub set_pending : Adapter × Bool → Adapter
set_pending (a, true) = record a { source = record a.source { fix_available_pending = true } }
set_pending (a, false) = a

unfoldable pub recover_fix : Encoder → Adapter → Now → ℕ → Adapter
recover_fix e a t at =
    if a.source.fix_available_pending && status_is_fresh t a.source.last_status
    then retry_no_fix_status e a t
    else set_pending (publish_source_status e a t "fix_available" (some at))

-- capturedAt is after the last report that was read.
abbrev is_newer : ℕ → Option ℕ → Bool
is_newer at none = true
is_newer at (some last) = ltb last at

unfoldable pub observe : Encoder → Adapter → Now → ℕ → Bool → Option Sample → Adapter
observe e a t at fix sample =
    let seen = record a { source = record a.source { gps_observed_at = some at } } in
    if not fix || ltb (5 * second) (t.time - at)
    then lose_fix e seen t
    else if a.source.no_fix_closed
    then recover_fix e seen t at
    else send_sample e seen t sample

-- handleGPSV2: the time stamp of the report, whether it has a fix, and what the estimator makes of it
unfoldable pub handle_gps : Encoder → Adapter → Now → Option ℕ → Bool → Option Sample → Adapter
handle_gps e a t none fix sample = lose_fix e a t
handle_gps e a t (some at) fix sample =
    if ltb t.time at
    then lose_fix e a t
    else if is_newer at a.source.gps_observed_at
    then observe e a t at fix sample
    else if fix
    then a
    else lose_fix e a t
