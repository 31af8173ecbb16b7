-- ===== src/RideGroup/Authority.antt =====
-- The tests of protocol_v2_adapter.go, gps_v2.go and ipc_v2.go that ask whether the lease stands.
use uplink_service.Prelude.{
  ℕ, String, Bool, false, ◌&&◌, ◌||◌, not, Option, none, some, List, [], ◌∷◌, ◌==◌, is_some, str_eq,
}
use uplink_service.GoMap.{lookup}
use uplink_service.RideGroup.State.{
  Control, Activity, PeerDescriptor, Adapter, Now, lease_duration, online, agree, points_to, within,
  phase_is, is_active,
}

-- The journal says that no local stop is under way.
unfoldable pub journal_is_idle : Adapter → Bool
journal_is_idle a = a.journal.ready && not a.journal.blocked && phase_is "idle" a.journal.state

-- grantableV2Locked
unfoldable pub grantable : Adapter → Now → Bool
unfolding journal_is_idle
grantable a t =
    a.settings_ready
    && not a.blocked
    && journal_is_idle a
    && is_active a.lease.activity
    && within t.time a.lease.activity_at lease_duration

-- grantCurrentV2Locked
unfoldable pub grant_current : Adapter → Now → Bool
grant_current a t =
    grantable a t
    && online a t
    && is_some a.lease.grant
    && a.lease.grant_active
    && within t.time a.lease.grant_at a.lease.grant_ttl

-- grantChallengeCurrentV2Locked
unfoldable pub grant_challenge_current : Adapter → Now → String → Bool
grant_challenge_current a t challenge =
    within t.time (lookup challenge a.lease.challenges) lease_duration && is_active a.lease.activity

abbrev pub binds : Option Control → String → String → String → ℕ → ℕ → Bool
binds none session member stream revision epoch = false
binds (some c) session member stream revision epoch =
    points_to c.session_id session
    && points_to c.member_id member
    && points_to c.stream_id stream
    && c.revision == revision
    && c.transport_epoch == epoch

abbrev pub receives : Option Control → String → ℕ → ℕ → String → Bool
receives none session revision epoch stream = false
receives (some c) session revision epoch stream =
    points_to c.session_id session
    && c.revision == revision
    && c.transport_epoch == epoch
    && points_to c.stream_id stream

-- receiverTupleCurrentV2Locked
unfoldable pub receiver_tuple_current : Adapter → Now → String → ℕ → ℕ → String → Bool
receiver_tuple_current a t session revision epoch stream =
    grant_current a t && receives a.lease.grant session revision epoch stream

abbrev pub same_member : Option Activity → Option Control → Bool
same_member (some x) (some c) = agree x.session_id c.session_id && agree x.member_id c.member_id
same_member _ _ = false

-- activityMatchesGrantV2Locked
unfoldable pub activity_matches_grant : Adapter → Bool
activity_matches_grant a = same_member a.lease.activity a.lease.grant

unfoldable pub lists_peer : String → List PeerDescriptor → Bool
lists_peer peer_id [] = false
lists_peer peer_id (p ∷ rest) = str_eq p.peer_id peer_id || lists_peer peer_id rest

abbrev pub peers_of : Option Control → List PeerDescriptor
peers_of none = []
peers_of (some c) = c.peers

-- peerInGrantLocked
unfoldable pub peer_in_grant : Adapter → String → Bool
peer_in_grant a peer_id = lists_peer peer_id (peers_of a.lease.grant)
