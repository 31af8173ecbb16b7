-- ===== src/RideGroup/Controls/Activities.antt =====
-- The activity of the vehicle in protocol_v2_adapter.go, with its challenges.
use uplink_service.Prelude.{
  ℕ, ◌+◌, ◌-◌, String, Bool, true, false, ◌&&◌, ◌||◌, not, Option, none, some, [], ◌∷◌, leb, ltb,
  str_eq, length, is_some, if◌then◌else◌, zero, suc,
}
use uplink_service.GoMap.{GoMap, lookup, insert, erase}
use uplink_service.Connection.State.{second}
use uplink_service.RideGroup.State.{
  Activity, Encoder, Adapter, Now, lease_duration, online, agree, same_text, keep,
}
use uplink_service.RideGroup.Authority.{journal_is_idle, same_member}
use uplink_service.RideGroup.Lease.{clear_grant, publish_hello, publish_activity}

-- The challenge that was sent first, by the comparison of the loop.
unfoldable pub oldest_of : String → ℕ → GoMap ℕ → String
oldest_of oldest oldest_at [] = oldest
oldest_of oldest oldest_at ((challenge, sent) ∷ rest) =
    if str_eq oldest "" || ltb sent oldest_at
    then oldest_of challenge sent rest
    else oldest_of oldest oldest_at rest

-- The second loop of pruneChallengesLocked, on fuel.
unfoldable pub evict : ℕ → GoMap ℕ → GoMap ℕ
evict zero challenges = challenges
evict (suc fuel) challenges =
    let rest = evict fuel (erase (oldest_of "" 0 challenges) challenges) in
    if leb 10 (length challenges) then rest else challenges

-- pruneChallengesLocked
unfoldable pub prune_challenges : ℕ → GoMap ℕ → GoMap ℕ
prune_challenges now challenges =
    let fresh = keep (λ sent. ltb (now - sent) lease_duration) challenges in
    evict (length fresh) fresh

-- The activity is of another session or member than the one before, or of none.
abbrev changes_session : Option Activity → Activity → Bool
changes_session none x = false
changes_session (some previous) x =
    is_some previous.session_id
    && not (agree previous.session_id x.session_id && same_text previous.member_id x.member_id)

abbrev too_early : ℕ → Option ℕ → Bool
too_early now none = false
too_early now (some at) = ltb now (at + second)

unfoldable pub set_activity : Adapter → Now → Activity → Adapter
set_activity a t x = record a {
  lease = record a.lease {
    activity = some x;
    boot_nonce = x.boot_nonce;
    seq = x.seq;
    activity_at = some t.time;
  };
}

unfoldable pub confirm_grant : Adapter → Activity → Adapter
confirm_grant a x =
    if same_member (some x) a.lease.grant
    then record a { lease = record a.lease { grant_active = true } }
    else a

unfoldable pub take_activity : Adapter → Now → Activity → Adapter
take_activity a t x =
    let taken = set_activity a t x in
    confirm_grant (if x.active then taken else clear_grant taken) x

unfoldable pub remember_challenge : Adapter → Now → String → Adapter
remember_challenge a t challenge = record a {
  lease = record a.lease {
    challenges = prune_challenges t.time (insert challenge t.time a.lease.challenges);
  };
}

unfoldable pub admits_activity : Adapter → Now → Activity → Bool
admits_activity a t x =
    a.settings_ready
    && not a.blocked
    && journal_is_idle a
    && online a t
    && not (str_eq x.boot_nonce a.lease.boot_nonce && leb x.seq a.lease.seq)
    && not (is_some (lookup x.challenge a.lease.challenges))
    && not (x.active && changes_session a.lease.activity x)
    && not (x.active && too_early t.time a.lease.activity_at)

-- acceptActivityV2
unfoldable pub accept_activity : Encoder → Adapter → Now → Activity → Adapter
accept_activity e a t x =
    if admits_activity a t x
    then publish_activity e
        (publish_hello e (remember_challenge (take_activity a t x) t x.challenge) t x.challenge) t x
    else a
