-- ===== src/RideGroup/Delivery.antt =====
-- The worker of egress.go that publishes to Redis, with its last check of ipc_v2.go.
use uplink_service.Prelude.{
  ℕ, ◌+◌, ◌-◌, ◌*◌, ◌/◌, String, Bool, false, ◌&&◌, ◌||◌, not, Option, none, some, List, [], ◌∷◌,
  leb, ltb, ◌==◌, str_eq, is_some, or_else, if◌then◌else◌,
}
use uplink_service.GoMap.{lookup}
use uplink_service.RideGroup.State.{
  Message, local_stop_probe, local_stop_result, control, peer, peer_status, Control, LocalStop,
  PeerPosition, PeerStatus, Encoder, RedisPublication, Probe, PeerReplay, Adapter, Now, millisecond,
  online, same_text, within,
}
use uplink_service.RideGroup.Authority.{grantable, receiver_tuple_current}
use uplink_service.RideGroup.Egress.{names_operation, has_expired}
use uplink_service.RideGroup.Probes.{min}

-- sameControlIdentityV2, with the epoch and the generation
abbrev pub is_same_grant : Option Control → Control → Bool
is_same_grant none c = false
is_same_grant (some g) c =
    same_text g.session_id c.session_id
    && same_text g.member_id c.member_id
    && same_text g.stream_id c.stream_id
    && g.revision == c.revision
    && c.transport_epoch == g.transport_epoch
    && c.consent_generation == g.consent_generation

abbrev pub since : ℕ → Option ℕ → ℕ
since now none = now
since now (some at) = now - at

-- What is left of the lease, of the grant that stands and of the one that was queued.
abbrev pub time_left : Adapter → Now → ℕ → Control → ℕ
time_left a t queued_at c =
    min (a.lease.grant_ttl - since t.time a.lease.grant_at)
      (c.lease_ttl_ms * millisecond + queued_at - t.time)

abbrev encoded : Encoder → Message → Option Message
encoded e msg = if e.encodes msg then some msg else none

unfoldable pub final_grant : Encoder → Adapter → Now → ℕ → Control → Option Message
final_grant e a t queued_at c =
    if grantable a t
      && within t.time a.lease.grant_at a.lease.grant_ttl
      && is_same_grant a.lease.grant c
      && ltb 0 (time_left a t queued_at c)
    then encoded e (control (record c { lease_ttl_ms = time_left a t queued_at c / millisecond }))
    else none

unfoldable pub final_control : Encoder → Adapter → Now → ℕ → Control → Option Message
final_control e a t queued_at c =
    if str_eq c.connection_nonce a.connection
    then if str_eq c.action "grant" || str_eq c.action "renew"
      then final_grant e a t queued_at c
      else if str_eq c.action "clear" && is_some a.lease.grant
      then none
      else some (control c)
    else none

abbrev probe_is_open : Adapter → Now → Option Probe → Bool
probe_is_open a t none = false
probe_is_open a t (some p) =
    str_eq p.connection a.connection
    && p.ipc_epoch == a.journal.ipc_epoch
    && leb p.issued_at t.time
    && ltb t.time p.deadline

abbrev phase_takes : Option LocalStop → String → Bool
phase_takes none result = false
phase_takes (some s) result =
    if str_eq result "offer"
    then str_eq s.phase "preparing"
    else str_eq s.phase "prepared" || str_eq s.phase "uncertain"

abbrev unless_stale : Bool → Message → Option Message
unless_stale fits msg = if fits then some msg else none

-- What a missing key of peerStreams reads as
abbrev no_replay : PeerReplay
no_replay = record { stream_id = ""; epoch = 0; seq = 0; captured = 0; status = ""; closed = false }

abbrev stream_of : Adapter → String → PeerReplay
stream_of a peer_id = or_else (lookup peer_id a.peer_streams) no_replay

abbrev is_latest : PeerReplay → PeerPosition → Bool
is_latest r p =
    not r.closed
    && r.epoch == p.peer_transport_epoch
    && str_eq r.stream_id p.peer_stream_id
    && r.seq == p.seq
    && r.captured == p.captured_at_ms

-- time.Duration.Milliseconds of the age, which truncates: it is negative from one millisecond on.
abbrev age_ms : Now → ℕ → ℕ
age_ms t queued_at = (t.time - queued_at) / millisecond

unfoldable pub final_peer : Encoder → Adapter → Now → ℕ → PeerPosition → Option Message
final_peer e a t queued_at p =
    if receiver_tuple_current a t p.session_id p.revision p.transport_epoch p.stream_id
      && is_latest (stream_of a p.peer_id) p
      && ltb (queued_at - t.time) millisecond
      && ltb (age_ms t queued_at) p.valid_for_ms
    then encoded e (peer (record p { valid_for_ms = p.valid_for_ms - age_ms t queued_at }))
    else none

abbrev is_closed_by : PeerReplay → PeerStatus → Bool
is_closed_by r s =
    r.closed && r.epoch == s.peer_transport_epoch && str_eq r.stream_id s.peer_stream_id

unfoldable pub final_message : Encoder → Adapter → Now → ℕ → Message → Option Message
final_message e a t queued_at (local_stop_probe challenge) =
    unless_stale (probe_is_open a t (lookup challenge a.journal.probes))
      (local_stop_probe challenge)
final_message e a t queued_at (local_stop_result r) =
    unless_stale
      (str_eq r.connection_nonce a.connection
        && names_operation a.journal.state r.operation_id r.journal_revision
        && phase_takes a.journal.state r.result)
      (local_stop_result r)
final_message e a t queued_at (control c) = final_control e a t queued_at c
final_message e a t queued_at (peer p) = final_peer e a t queued_at p
final_message e a t queued_at (peer_status s) =
    unless_stale
      (receiver_tuple_current a t s.session_id s.revision s.transport_epoch s.stream_id
        && is_closed_by (stream_of a s.peer_id) s)
      (peer_status s)
final_message e a t queued_at _ = none

-- finalRedisPayloadV2Locked
unfoldable pub final_payload : Encoder → Adapter → Now → RedisPublication → Option Message
final_payload e a t p =
    if a.settings_ready && online a t then final_message e a t p.queued_at p.message else none

abbrev with_channel : String → Option Message → Option (String × Message)
with_channel channel none = none
with_channel channel (some msg) = some (channel, msg)

unfoldable pub deliver : Encoder → Adapter → Now → RedisPublication → Option (String × Message)
deliver e a t p =
    if has_expired t.time p.expires_at || not a.has_redis
    then none
    else with_channel p.channel (final_payload e a t p)

abbrev pub take_redis :
    Encoder → Adapter → Now → List RedisPublication → Adapter × Option (String × Message)
take_redis e a t [] = (a, none)
take_redis e a t (p ∷ rest) = (record a { redis_queue = rest }, deliver e a t p)

-- An iteration of runRedisWorker: what it publishes, and where.
unfoldable pub redis_step : Encoder → Adapter → Now → Adapter × Option (String × Message)
redis_step e a t = take_redis e a t a.redis_queue
