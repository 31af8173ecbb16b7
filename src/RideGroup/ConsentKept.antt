-- ===== src/RideGroup/ConsentKept.antt =====
-- What a grant of protocol_v2_adapter.go stands on, and activities and controls.
use uplink_service.Prelude.{
  ℕ, ◌-◌, ◌*◌, ◌&&◌, or_else, String, true, Option, none, some, ◌≡◌, refl, arith, Bool-cases, inl,
  inr, str_eq, is_some, ltb, if◌then◌else◌,
}
use uplink_service.GoMap.{lookup}
use uplink_service.RideGroup.State.{
  Activity, Control, Encoder, Attempt, Adapter, Now, online, control, control_channel, millisecond,
  attempt_lifetime,
}
use uplink_service.RideGroup.Authority.{journal_is_idle, grantable}
use uplink_service.RideGroup.Egress.{drop_pending_position, drop_pending_source, queue_redis}
use uplink_service.RideGroup.Lease.{invalidate_positions, clear_grant, publish_hello}
use uplink_service.RideGroup.Answers.{
  take_answer, attempt_stands, answer_fits, answer_attempt, handle_stop_status, maybe_send_offer,
}
use uplink_service.RideGroup.Source.{publish_no_fix_status}
use uplink_service.RideGroup.Controls.{
  admits_activity, set_activity, confirm_grant, take_activity, remember_challenge, accept_activity,
  start_stream, set_grant, set_peer_replay_scope, restore_challenge, take_grant, admits_grant,
  grant_sent_at, handle_grant, forward_clear, clear_for, handle_clear, handle_status, by_action,
  handle_control, is_new_stream,
}
use uplink_service.RideGroup.Same.{
  Same, Same-refl, queue_redis-Same, publish_hello-Same, publish_activity-Same,
}
use uplink_service.RideGroup.CoreStops.{take_answer-Core, maybe_send_offer-Core}
use uplink_service.RideGroup.SameSource.{publish_no_fix_status-Same}
use uplink_service.RideGroup.Consent.{
  Core-IsConsented, IsConsented, Same-IsConsented, inhibit_journal-IsConsented,
}

take_activity-IsConsented :
    (a : Adapter) (t : Now) (x : Activity) → IsConsented a → IsConsented (take_activity a t x)
unfolding take_activity confirm_grant set_activity clear_grant invalidate_positions
    drop_pending_position drop_pending_source journal_is_idle
take_activity-IsConsented a t x i = ground arith

remember_challenge-IsConsented :
    (a : Adapter) (t : Now) (challenge : String)
    → IsConsented a
    → IsConsented (remember_challenge a t challenge)
unfolding remember_challenge journal_is_idle
remember_challenge-IsConsented a t challenge i = ground arith

pub accept_activity-IsConsented :
    (e : Encoder) (a : Adapter) (t : Now) (x : Activity)
    → IsConsented a
    → IsConsented (accept_activity e a t x)
unfolding accept_activity
accept_activity-IsConsented e a t x i = elim (Bool-cases (admits_activity a t x)) [
  | inl admitted ↦
      let known = remember_challenge (take_activity a t x) t x.challenge in
      let greeted = publish_hello e known t x.challenge in
      rw admitted (
        Same-IsConsented greeted _ (publish_activity-Same e greeted t x) (
          Same-IsConsented known greeted (publish_hello-Same e known t x.challenge) (
            remember_challenge-IsConsented (take_activity a t x) t x.challenge
              (take_activity-IsConsented a t x i))))
  | inr refused ↦ rw refused i
]

answer_attempt-IsConsented :
    (e : Encoder) (a : Adapter) (t : Now) (c : Control) (result : String) (o : Option Attempt)
    → IsConsented a
    → IsConsented (answer_attempt e a t c result o)
answer_attempt-IsConsented e a t c result none i = i
answer_attempt-IsConsented e a t c result (some x) i = elim (Bool-cases (attempt_stands a t c x)) [
  | inl stands ↦ elim (Bool-cases (answer_fits a c x result)) [
    | inl fits ↦ rw stands (
        rw fits
          (Core-IsConsented a (take_answer e a t c x result) (take_answer-Core e a t c x result) i))
    | inr unfit ↦ rw stands (rw unfit (inhibit_journal-IsConsented a))
  ]
  | inr stale ↦ rw stale i
]

handle_status-IsConsented :
    (e : Encoder) (a : Adapter) (t : Now) (c : Control) (result : Option String)
    → IsConsented a
    → IsConsented (handle_status e a t c result)
unfolding handle_stop_status
handle_status-IsConsented e a t c none i =
    let offered = maybe_send_offer e a t c in
    Same-IsConsented offered _
      (queue_redis-Same offered t control_channel (control c) attempt_lifetime)
      (Core-IsConsented a offered (maybe_send_offer-Core e a t c) i)
handle_status-IsConsented e a t c (some result) i =
    answer_attempt-IsConsented e a t c result (lookup c.challenge a.journal.attempts) i

handle_clear-IsConsented :
    (a : Adapter) (t : Now) (c : Control) (g : Option Control)
    → a.lease.grant ≡ g
    → IsConsented a
    → IsConsented (handle_clear a t c g)
unfolding handle_clear forward_clear clear_for clear_grant invalidate_positions
    drop_pending_position drop_pending_source queue_redis
handle_clear-IsConsented a t c none h i = ground arith
handle_clear-IsConsented a t c (some g) h i = ground arith

-- What a control that is admitted says of the state.
granted-IsConsented :
    (a : Adapter) (t : Now) (c : Control) (n : ℕ)
    → grantable a t ≡ true
    → is_some a.mqtt ≡ true
    → str_eq c.connection_nonce a.connection ≡ true
    → IsConsented (set_peer_replay_scope (set_grant a t c n) (or_else c.session_id "") c.peers)
unfolding set_peer_replay_scope set_grant grantable journal_is_idle
granted-IsConsented a t c n g m h = ground arith

restore_challenge-IsConsented :
    (a : Adapter) (challenge : String) (at : ℕ)
    → IsConsented a
    → IsConsented (restore_challenge a challenge at)
unfolding restore_challenge journal_is_idle
restore_challenge-IsConsented a challenge at i = ground arith

start_stream-Same : (a : Adapter) (c : Control) → Same a (start_stream a c)
unfolding start_stream drop_pending_position drop_pending_source
start_stream-Same a c = Same-refl a

streamed-Same :
    (a : Adapter) (c : Control)
    → Same a (if is_new_stream a.lease.grant c then start_stream a c else a)
streamed-Same a c = elim (Bool-cases (is_new_stream a.lease.grant c)) [
  | inl new ↦ rw new (start_stream-Same a c)
  | inr old ↦ rw old (Same-refl a)
]

Same-grantable : (a b : Adapter) (t : Now) → Same a b → grantable a t ≡ true → grantable b t ≡ true
unfolding grantable journal_is_idle
Same-grantable a b t h g = ground arith

take_grant-IsConsented :
    (e : Encoder) (a : Adapter) (t : Now) (c : Control) (sent_at : ℕ)
    → grantable a t ≡ true
    → is_some a.mqtt ≡ true
    → str_eq c.connection_nonce a.connection ≡ true
    → IsConsented (take_grant e a t c sent_at)
unfolding take_grant
take_grant-IsConsented e a t c sent_at g m h =
    let streamed = if is_new_stream a.lease.grant c then start_stream a c else a in
    let n = c.lease_ttl_ms * millisecond - (t.time - sent_at) in
    let scoped =
      set_peer_replay_scope (set_grant streamed t c n) (or_else c.session_id "") c.peers in
    let told = publish_no_fix_status e scoped t in
    let restored = restore_challenge told c.challenge sent_at in
    let k : Same a streamed = streamed-Same a c in
    Same-IsConsented restored _ (queue_redis-Same restored t control_channel (control c) _) (
      restore_challenge-IsConsented told c.challenge sent_at (
        Same-IsConsented scoped told (publish_no_fix_status-Same e scoped t) (
          granted-IsConsented streamed t c n (Same-grantable a streamed t k g) (ground arith)
            (ground arith))))

grant_sent_at-IsConsented :
    (e : Encoder) (a : Adapter) (t : Now) (c : Control) (o : Option ℕ)
    → grantable a t ≡ true
    → is_some a.mqtt ≡ true
    → str_eq c.connection_nonce a.connection ≡ true
    → IsConsented a
    → IsConsented (grant_sent_at e a t c o)
grant_sent_at-IsConsented e a t c none g m h i = i
grant_sent_at-IsConsented e a t c (some sent_at) g m h i =
    elim (Bool-cases (ltb (t.time - sent_at) (c.lease_ttl_ms * millisecond))) [
      | inl early ↦ rw early (take_grant-IsConsented e a t c sent_at g m h)
      | inr late ↦ rw late i
    ]

handle_grant-IsConsented :
    (e : Encoder) (a : Adapter) (t : Now) (c : Control)
    → is_some a.mqtt ≡ true
    → str_eq c.connection_nonce a.connection ≡ true
    → IsConsented a
    → IsConsented (handle_grant e a t c)
unfolding handle_grant admits_grant
handle_grant-IsConsented e a t c m h i = elim (Bool-cases (admits_grant a t c)) [
  | inl admitted ↦ rw admitted (
      grant_sent_at-IsConsented e a t c (lookup c.challenge a.lease.challenges) (ground arith) m h
        i)
  | inr refused ↦ rw refused i
]

pub handle_control-IsConsented :
    (e : Encoder) (a : Adapter) (t : Now) (c : Control)
    → IsConsented a
    → IsConsented (handle_control e a t c)
unfolding handle_control by_action
handle_control-IsConsented e a t c i =
    elim (Bool-cases (online a t && str_eq c.connection_nonce a.connection)) [
      | inl here ↦ rw here (elim (Bool-cases (str_eq c.action "status")) [
        | inl status ↦ rw status (handle_status-IsConsented e a t c c.stop_result i)
        | inr other ↦ rw other (
            ground (
              arith,
              handle_clear-IsConsented a t c a.lease.grant refl i,
              handle_grant-IsConsented e a t c (ground arith) (ground arith) i,
            ))
      ])
      | inr elsewhere ↦ rw elsewhere i
    ]
