-- ===== src/RideGroup/Source/Status.antt =====
-- The status of the own scooter's receiver, in gps_v2.go.
use uplink_service.Prelude.{
  ℕ, ◌+◌, ◌*◌, ◌/◌, String, Bool, true, false, ◌&&◌, ◌||◌, Option, none, some, leb, str_eq,
  if◌then◌else◌,
}
use uplink_service.Connection.State.{plus64, second}
use uplink_service.RideGroup.State.{
  Control, source_status, SourceStatus, Encoder, about_source, Adapter, Now, millisecond,
}
use uplink_service.RideGroup.Authority.{grant_current, activity_matches_grant}
use uplink_service.RideGroup.Egress.{queue_mqtt, drop_pending_source, is_recent}

abbrev retry_delay : ℕ
retry_delay = 3 * second

abbrev to_nanoseconds : Option ℕ → Option ℕ
to_nanoseconds none = none
to_nanoseconds (some ms) = some (ms * millisecond)

unfoldable pub queue_source : Adapter → Now → SourceStatus → Adapter
queue_source a t s = queue_mqtt a (record {
  client = a.mqtt;
  connection = a.connection;
  message = some (source_status s);
  expires_at = some (t.time + 5 * second);
  priority = 2;
  subject = about_source s.state s.seq (to_nanoseconds s.captured_at_ms) a.source.status_generation;
  order = 0;
})

-- publishSourceStatusValueV2Locked; the flag says whether the status was queued.
unfoldable pub publish_status_value : Encoder → Adapter → Now → SourceStatus → Adapter × Bool
publish_status_value e a t s =
    if e.encodes (source_status s)
    then (
      queue_source
          (drop_pending_source (record a {
            source = record a.source {
              last_status = some s;
              status_generation = plus64 a.source.status_generation 1;
              retry_at = t.time + retry_delay;
            };
          }))
          t s,
      true,
    )
    else (a, false)

unfoldable pub set_sequence : Adapter → ℕ → Adapter
set_sequence a seq = record a { source = record a.source { source_sequence = seq } }

abbrev counted : ℕ → Adapter × Bool → Adapter × Bool
counted seq (a, true) = (set_sequence a seq, true)
counted seq (a, false) = (a, false)

abbrev status_named :
    Adapter
    → String
    → Option ℕ
    → Control
    → Option String
    → Option String
    → Option String
    → Option SourceStatus
status_named a state at c (some session) (some member) (some stream) = some (record {
  connection_nonce = a.connection;
  session_id = session;
  member_id = member;
  revision = c.revision;
  transport_epoch = c.transport_epoch;
  stream_id = stream;
  seq = a.source.source_sequence + 1;
  state = state;
  captured_at_ms = at;
})
status_named a state at c _ _ _ = none

-- The SourceStatusV2 of the grant; none stands for a nil grant or a nil name in it.
abbrev pub status_of : Adapter → String → Option ℕ → Option Control → Option SourceStatus
status_of a state at none = none
status_of a state at (some c) = status_named a state at c c.session_id c.member_id c.stream_id

abbrev publish_counted : Encoder → Adapter → Now → Option SourceStatus → Adapter × Bool
publish_counted e a t none = (a, false)
publish_counted e a t (some s) = counted s.seq (publish_status_value e a t s)

-- publishNoFixStatusV2Locked
unfoldable pub publish_no_fix_status : Encoder → Adapter → Now → Adapter
publish_no_fix_status e a t =
    if a.source.no_fix_closed
    then (publish_counted e a t (status_of a "no_fix" none a.lease.grant)).0
    else a

abbrev in_milliseconds : Option ℕ → Option ℕ
in_milliseconds none = none
in_milliseconds (some at) = some (at / millisecond)

-- publishSourceStatusV2Locked
unfoldable pub publish_source_status : Encoder → Adapter → Now → String → Option ℕ → Adapter × Bool
publish_source_status e a t state at =
    if grant_current a t && activity_matches_grant a
    then if str_eq state "fix_available"
      then if is_recent t.time at
        then publish_counted e a t (status_of a state (in_milliseconds at) a.lease.grant)
        else (a, false)
      else if str_eq state "no_fix"
      then publish_counted e a t (status_of a state none a.lease.grant)
      else (a, false)
    else (a, false)

abbrev may_retry : Adapter → Now → SourceStatus → Bool
may_retry a t s =
    grant_current a t
    && activity_matches_grant a
    && leb a.source.retry_at t.time
    && (str_eq s.state "no_fix"
        || str_eq s.state "fix_available" && is_recent t.time (to_nanoseconds s.captured_at_ms))

abbrev retry_with : Encoder → Adapter → Now → Option SourceStatus → Adapter
retry_with e a t none = a
retry_with e a t (some s) =
    if may_retry a t s && e.encodes (source_status s)
    then queue_source (record a { source = record a.source { retry_at = t.time + retry_delay } }) t
        s
    else a

-- retryNoFixStatusV2Locked
unfoldable pub retry_no_fix_status : Encoder → Adapter → Now → Adapter
retry_no_fix_status e a t = retry_with e a t a.source.last_status
