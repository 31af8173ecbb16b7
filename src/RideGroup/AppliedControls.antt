-- ===== src/RideGroup/AppliedControls.antt =====
-- The controls of the server and the attempts that apply a local stop.
use uplink_service.Prelude.{
  ℕ, String, true, Option, none, some, ◌≡◌, refl, arith, ◌-◌, ◌*◌, or_else, inl, inr, if◌then◌else◌,
  ◌&&◌, Bool-cases, str_eq, ◌||◌,
}
use uplink_service.GoMap.{lookup}
use uplink_service.RideGroup.State.{
  Encoder, Adapter, Now, Control, Attempt, millisecond, online, apply_confirmation, LocalStopResult,
  Query,
}
use uplink_service.RideGroup.Egress.{drop_pending_position, drop_pending_source, queue_redis}
use uplink_service.RideGroup.Lease.{invalidate_positions, clear_grant}
use uplink_service.RideGroup.Controls.{
  start_stream, set_grant, set_peer_replay_scope, restore_challenge, take_grant, forward_clear,
  clear_for, handle_clear, handle_status, is_new_stream, admits_grant, grant_sent_at, handle_grant,
  by_action, handle_control,
}
use uplink_service.RideGroup.Same.{issue_probe-Same}
use uplink_service.RideGroup.SameSource.{publish_no_fix_status-Same}
use uplink_service.RideGroup.Answers.{
  ask_confirmation, report, result_for, after_answer, answer_attempt, handle_stop_status,
  take_answer, attempt_stands, answer_fits, maybe_send_offer,
}
use uplink_service.RideGroup.Stops.{put_attempt, forget_query}
use uplink_service.RideGroup.Applied.{IsFree, put_attempt-IsFree}
use uplink_service.RideGroup.AppliedSnapshots.{inhibit_journal-IsFree}

ask_confirmation-IsFree :
    (e : Encoder) (a : Adapter) (t : Now) (x : Attempt) (o : Option Query)
    → IsFree a
    → IsFree (ask_confirmation e a t x o)
unfolding forget_query
ask_confirmation-IsFree e a t x none i = ground arith
ask_confirmation-IsFree e a t x (some q) i =
    ground (arith, issue_probe-Same e a t apply_confirmation (some q))

report-IsFree :
    (e : Encoder) (a : Adapter) (t : Now) (r : LocalStopResult) (n : ℕ)
    → IsFree a
    → IsFree (report e a t r n)
unfolding queue_redis
report-IsFree e a t r n i = ground arith

after_answer-IsFree : (a : Adapter) (x : Attempt) → IsFree a → IsFree (after_answer a x)
unfolding forget_query
after_answer-IsFree a x i = ground arith

take_answer-IsFree :
    (e : Encoder) (a : Adapter) (t : Now) (c : Control) (x : Attempt) (result : String)
    → IsFree a
    → IsFree (take_answer e a t c x result)
unfolding take_answer
take_answer-IsFree e a t c x result i =
    let used = put_attempt a (record x { consumed = true }) in
    let b = report e used t (result_for c x result) (x.deadline - t.time) in
    let h : IsFree b =
      report-IsFree e used t (result_for c x result) (x.deadline - t.time)
        (put_attempt-IsFree a (record x { consumed = true }) refl i) in
    elim (Bool-cases (str_eq x.mode "query" && str_eq result "not_found")) [
      | inl asks ↦ rw asks (ask_confirmation-IsFree e b t x b.journal.pending_query h)
      | inr ends ↦ rw ends (after_answer-IsFree b x h)
    ]

answer_attempt-IsFree :
    (e : Encoder) (a : Adapter) (t : Now) (c : Control) (result : String) (o : Option Attempt)
    → IsFree a
    → IsFree (answer_attempt e a t c result o)
answer_attempt-IsFree e a t c result none i = i
answer_attempt-IsFree e a t c result (some x) i = elim (Bool-cases (attempt_stands a t c x)) [
  | inl stands ↦ elim (Bool-cases (answer_fits a c x result)) [
    | inl fits ↦ rw stands (rw fits (take_answer-IsFree e a t c x result i))
    | inr unfit ↦ rw stands (rw unfit (inhibit_journal-IsFree a))
  ]
  | inr stale ↦ rw stale i
]

maybe_send_offer-attempts :
    (e : Encoder) (a : Adapter) (t : Now) (c : Control)
    → (maybe_send_offer e a t c).journal.attempts ≡ a.journal.attempts
unfolding maybe_send_offer queue_redis
maybe_send_offer-attempts e a t c = ground arith

handle_status-IsFree :
    (e : Encoder) (a : Adapter) (t : Now) (c : Control) (result : Option String)
    → IsFree a
    → IsFree (handle_status e a t c result)
unfolding handle_stop_status queue_redis
handle_status-IsFree e a t c none i = rw (maybe_send_offer-attempts e a t c) i
handle_status-IsFree e a t c (some result) i =
    answer_attempt-IsFree e a t c result (lookup c.challenge a.journal.attempts) i

handle_clear-attempts :
    (a : Adapter) (t : Now) (c : Control) (g : Option Control)
    → (handle_clear a t c g).journal.attempts ≡ a.journal.attempts
unfolding handle_clear forward_clear clear_for clear_grant invalidate_positions
    drop_pending_position drop_pending_source queue_redis
handle_clear-attempts a t c none = ground arith
handle_clear-attempts a t c (some g) = ground arith

take_grant-attempts :
    (e : Encoder) (a : Adapter) (t : Now) (c : Control) (sent_at : ℕ)
    → (take_grant e a t c sent_at).journal.attempts ≡ a.journal.attempts
unfolding take_grant restore_challenge set_peer_replay_scope set_grant queue_redis start_stream
    drop_pending_position drop_pending_source
take_grant-attempts e a t c sent_at =
    let streamed = if is_new_stream a.lease.grant c then start_stream a c else a in
    let n = c.lease_ttl_ms * millisecond - (t.time - sent_at) in
    let scoped =
      set_peer_replay_scope (set_grant streamed t c n) (or_else c.session_id "") c.peers in
    ground (arith, publish_no_fix_status-Same e scoped t)

grant_sent_at-attempts :
    (e : Encoder) (a : Adapter) (t : Now) (c : Control) (o : Option ℕ)
    → (grant_sent_at e a t c o).journal.attempts ≡ a.journal.attempts
grant_sent_at-attempts e a t c none = refl
grant_sent_at-attempts e a t c (some sent_at) = ground (arith, take_grant-attempts e a t c sent_at)

handle_grant-attempts :
    (e : Encoder) (a : Adapter) (t : Now) (c : Control)
    → (handle_grant e a t c).journal.attempts ≡ a.journal.attempts
unfolding handle_grant
handle_grant-attempts e a t c = elim (Bool-cases (admits_grant a t c)) [
  | inl admitted ↦
      rw admitted (grant_sent_at-attempts e a t c (lookup c.challenge a.lease.challenges))
  | inr refused ↦ rw refused refl
]

rest_of_actions :
    (e : Encoder) (a : Adapter) (t : Now) (c : Control)
    → IsFree a
    → IsFree (
        if str_eq c.action "clear"
        then handle_clear a t c a.lease.grant
        else if str_eq c.action "grant" || str_eq c.action "renew"
        then handle_grant e a t c
        else a)
rest_of_actions e a t c i =
    ground (arith, handle_clear-attempts a t c a.lease.grant, handle_grant-attempts e a t c)

by_action-IsFree :
    (e : Encoder) (a : Adapter) (t : Now) (c : Control) → IsFree a → IsFree (by_action e a t c)
unfolding by_action
by_action-IsFree e a t c i = elim (Bool-cases (str_eq c.action "status")) [
  | inl status ↦ rw status (handle_status-IsFree e a t c c.stop_result i)
  | inr other ↦ rw other (rest_of_actions e a t c i)
]

pub handle_control-IsFree :
    (e : Encoder) (a : Adapter) (t : Now) (c : Control) → IsFree a → IsFree (handle_control e a t c)
unfolding handle_control
handle_control-IsFree e a t c i =
    elim (Bool-cases (online a t && str_eq c.connection_nonce a.connection)) [
      | inl here ↦ rw here (by_action-IsFree e a t c i)
      | inr elsewhere ↦ rw elsewhere i
    ]
