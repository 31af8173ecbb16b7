-- ===== src/RideGroup/Controls.antt =====
-- The activity of the vehicle and the controls of the server, in protocol_v2_adapter.go.
mod Activities
unfoldable pub use Activities.{
  oldest_of, evict, prune_challenges, set_activity, confirm_grant, take_activity,
  remember_challenge, admits_activity, accept_activity,
}
use uplink_service.Prelude.{
  ℕ, ◌+◌, ◌-◌, ◌*◌, String, Bool, true, false, ◌&&◌, ◌||◌, not, Option, none, some, List, [], ◌∷◌,
  leb, ltb, ◌==◌, str_eq, length, is_some, or_else, if◌then◌else◌, zero, suc,
}
use uplink_service.GoMap.{GoMap, lookup, insert, erase}
use uplink_service.Connection.State.{plus64, second}
use uplink_service.RideGroup.State.{
  control, Activity, Control, PeerDescriptor, Encoder, PeerReplay, Source, Adapter, Now,
  millisecond, lease_duration, attempt_lifetime, online, agree, same_text, keep, control_channel,
}
use uplink_service.RideGroup.Authority.{
  journal_is_idle, grantable, grant_challenge_current, same_member, lists_peer,
}
use uplink_service.RideGroup.Egress.{drop_pending_position, drop_pending_source, queue_redis}
use uplink_service.RideGroup.Lease.{clear_grant, publish_hello, publish_activity}
use uplink_service.RideGroup.Answers.{handle_stop_status, maybe_send_offer}
use uplink_service.RideGroup.Source.{publish_no_fix_status}

-- A control that is no step back behind this one, of the same session and member or of another.
abbrev pub not_before : Control → Control → Bool
not_before prior c =
    leb prior.transport_epoch c.transport_epoch
    && leb prior.revision c.revision
    && leb prior.consent_generation c.consent_generation
    && (not (c.transport_epoch == prior.transport_epoch) || same_text prior.stream_id c.stream_id)

abbrev pub follows_grant : Option Control → Control → Bool
follows_grant none c = true
follows_grant (some g) c =
    same_text g.session_id c.session_id && same_text g.member_id c.member_id && not_before g c

abbrev pub follows_authority : Option Control → Control → Bool
follows_authority none c = true
follows_authority (some prior) c =
    not (same_text prior.session_id c.session_id) || not_before prior c

abbrev pub follows_cleared : Option Control → Control → Bool
follows_cleared none c = true
follows_cleared (some cleared) c =
    not (same_text cleared.session_id c.session_id)
    || ltb cleared.transport_epoch c.transport_epoch && leb cleared.revision c.revision

abbrev pub is_for_activity : Option Activity → Control → Bool
is_for_activity none c = false
is_for_activity (some x) c =
    is_some c.session_id
    && is_some c.member_id
    && (not (is_some x.session_id)
        || same_text x.session_id c.session_id && same_text x.member_id c.member_id)

abbrev pub is_new_stream : Option Control → Control → Bool
is_new_stream none c = true
is_new_stream (some g) c =
    not (agree c.stream_id g.stream_id && c.transport_epoch == g.transport_epoch)

unfoldable pub reopen_fix : Source → Source
reopen_fix s =
    if s.fix_available_pending
    then record s { no_fix_closed = false; fix_available_pending = false }
    else s

unfoldable pub start_stream : Adapter → Control → Adapter
start_stream a c =
    let moved = drop_pending_source (
      drop_pending_position (record a {
        source = record a.source { source_sequence = 0; generation = plus64 a.source.generation 1 };
      })) in
    record moved {
      source = reopen_fix (record moved.source {
        stream_id = or_else c.stream_id "";
        session_id = or_else c.session_id "";
        epoch = c.transport_epoch;
      });
    }

unfoldable pub keep_listed : List PeerDescriptor → GoMap PeerReplay → GoMap PeerReplay
keep_listed peers [] = []
keep_listed peers ((peer_id, r) ∷ streams) =
    let rest = keep_listed peers streams in
    if lists_peer peer_id peers then (peer_id, r) ∷ rest else rest

-- setPeerReplayScopeLocked
unfoldable pub set_peer_replay_scope : Adapter → String → List PeerDescriptor → Adapter
set_peer_replay_scope a session peers =
    let streams = if str_eq a.peer_scope session then a.peer_streams else [] in
    record a { peer_scope = session; peer_streams = keep_listed peers streams }

abbrev pub is_active_for : Option Activity → Control → Bool
is_active_for none c = false
is_active_for (some x) c =
    is_some x.session_id && same_text x.session_id c.session_id && same_text x.member_id c.member_id

abbrev max : ℕ → ℕ → ℕ
max m n = if ltb m n then n else m

-- The assignments behind a grant that is accepted, with the time that its lease has left.
unfoldable pub set_grant : Adapter → Now → Control → ℕ → Adapter
set_grant a t c remaining = record a {
  lease = record a.lease {
    grant = some c;
    last_authority = some c;
    last_cleared = none;
    grant_at = some t.time;
    grant_ttl = remaining;
    grant_active = is_active_for a.lease.activity c;
  };
  source = record a.source { cadence = max (or_else c.cadence_ms 0 * millisecond) second };
}

unfoldable pub restore_challenge : Adapter → String → ℕ → Adapter
restore_challenge a challenge at = record a {
  lease = record a.lease { challenges = insert challenge at a.lease.challenges };
}

unfoldable pub take_grant : Encoder → Adapter → Now → Control → ℕ → Adapter
take_grant e a t c sent_at =
    let streamed = if is_new_stream a.lease.grant c then start_stream a c else a in
    let remaining = c.lease_ttl_ms * millisecond - (t.time - sent_at) in
    let granted = set_grant streamed t c remaining in
    let scoped = set_peer_replay_scope granted (or_else c.session_id "") c.peers in
    queue_redis (restore_challenge (publish_no_fix_status e scoped t) c.challenge sent_at) t
      control_channel (control c) (lease_duration - (t.time - sent_at))

unfoldable pub admits_grant : Adapter → Now → Control → Bool
admits_grant a t c =
    grant_challenge_current a t c.challenge
    && grantable a t
    && is_for_activity a.lease.activity c
    && follows_cleared a.lease.last_cleared c
    && follows_authority a.lease.last_authority c
    && follows_grant a.lease.grant c

abbrev pub grant_sent_at : Encoder → Adapter → Now → Control → Option ℕ → Adapter
grant_sent_at e a t c none = a
grant_sent_at e a t c (some sent_at) =
    if ltb (t.time - sent_at) (c.lease_ttl_ms * millisecond) then take_grant e a t c sent_at else a

unfoldable pub handle_grant : Encoder → Adapter → Now → Control → Adapter
handle_grant e a t c =
    if admits_grant a t c then grant_sent_at e a t c (lookup c.challenge a.lease.challenges) else a

unfoldable pub forward_clear : Adapter → Now → Control → Adapter
forward_clear a t c =
    queue_redis (record a { lease = record a.lease { challenges = [] } }) t control_channel
      (control c) 0

unfoldable pub clear_for : Adapter → Control → Adapter
clear_for a c =
    let cleared = clear_grant (record a { lease = record a.lease { last_cleared = some c } }) in
    record cleared { lease = record cleared.lease { activity = none; activity_at = none } }

unfoldable pub handle_clear : Adapter → Now → Control → Option Control → Adapter
handle_clear a t c none = if a.journal.blocked then a else forward_clear a t c
handle_clear a t c (some g) =
    if follows_grant (some g) c then forward_clear (clear_for a c) t c else a

abbrev pub handle_status : Encoder → Adapter → Now → Control → Option String → Adapter
handle_status e a t c (some result) = handle_stop_status e a t c result
handle_status e a t c none =
    queue_redis (maybe_send_offer e a t c) t control_channel (control c) attempt_lifetime

unfoldable pub by_action : Encoder → Adapter → Now → Control → Adapter
by_action e a t c =
    if str_eq c.action "status"
    then handle_status e a t c c.stop_result
    else if str_eq c.action "clear"
    then handle_clear a t c a.lease.grant
    else if str_eq c.action "grant" || str_eq c.action "renew"
    then handle_grant e a t c
    else a

-- handleControlV2, behind the parser
unfoldable pub handle_control : Encoder → Adapter → Now → Control → Adapter
handle_control e a t c =
    if online a t && str_eq c.connection_nonce a.connection then by_action e a t c else a
