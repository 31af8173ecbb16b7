-- ===== src/RideGroup/Answers.antt =====
-- The answers of the server about a local stop, in protocol_v2_adapter.go.
use uplink_service.Prelude.{
  ℕ, ◌-◌, String, Bool, true, false, ◌&&◌, ◌||◌, not, Option, none, some, leb, ltb, ◌==◌, str_eq,
  is_some, if◌then◌else◌,
}
use uplink_service.GoMap.{lookup}
use uplink_service.RideGroup.State.{
  local_stop_result, LocalStop, LocalStopResult, Control, Encoder, apply_confirmation, Probe,
  Attempt, Query, Adapter, Now, same_int, points_to, phase_is, control_channel,
}
use uplink_service.RideGroup.Egress.{queue_redis, names_operation}
use uplink_service.RideGroup.Lease.{inhibit_journal}
use uplink_service.RideGroup.Probes.{issue_probe}
use uplink_service.RideGroup.Stops.{put_attempt, forget_query}

abbrev pub attempt_stands : Adapter → Now → Control → Attempt → Bool
attempt_stands a t c x =
    not x.consumed
    && str_eq x.connection_nonce a.connection
    && x.ipc_epoch == a.journal.ipc_epoch
    && leb t.time x.deadline
    && points_to c.stop_operation_id x.operation_id
    && str_eq c.connection_nonce x.connection_nonce

abbrev prepared_for : Option LocalStop → Option ℕ → Bool
prepared_for none fence = false
prepared_for (some s) fence = str_eq s.phase "prepared" && same_int s.expected_generation fence

abbrev pub answer_fits : Adapter → Control → Attempt → String → Bool
answer_fits a c x result =
    names_operation a.journal.state x.operation_id x.journal_revision
    && (if str_eq x.mode "apply" then prepared_for a.journal.state x.fence else true)
    && not (
        str_eq result "committed"
        && is_some x.fence
        && not (same_int c.stop_expected_generation x.fence))

abbrev pub result_for : Control → Attempt → String → LocalStopResult
result_for c x result = record {
  operation_id = x.operation_id;
  journal_revision = x.journal_revision;
  challenge = x.challenge;
  connection_nonce = x.connection_nonce;
  result = result;
  expected_generation = c.stop_expected_generation;
  committed_generation =
      if str_eq result "committed" || str_eq result "superseded" || str_eq result "unconfirmed"
      then some c.consent_generation
      else none;
}

abbrev pub report : Encoder → Adapter → Now → LocalStopResult → ℕ → Adapter
report e a t r max_age =
    if e.encodes (local_stop_result r)
    then queue_redis a t control_channel (local_stop_result r) max_age
    else a

-- pendingQueryMatchesV2
abbrev pub query_matches : Adapter → Now → Attempt → Query → Bool
query_matches a t x q =
    str_eq q.operation_id x.operation_id
    && q.revision == x.journal_revision
    && same_int x.fence (some q.fence)
    && str_eq q.connection a.connection
    && q.ipc_epoch == a.journal.ipc_epoch
    && str_eq q.query_challenge x.challenge
    && q.deadline == x.deadline
    && ltb t.time q.deadline
    && names_operation a.journal.state q.operation_id q.revision
    && prepared_for a.journal.state (some q.fence)

abbrev pub confirmed_by : Query → Adapter × Bool → Adapter
confirmed_by q (a, true) = record a { journal = record a.journal { pending_query = some q } }
confirmed_by q (a, false) = forget_query a

abbrev pub after_answer : Adapter → Attempt → Adapter
after_answer a x = if str_eq x.mode "apply" then forget_query a else a

abbrev pub ask_confirmation : Encoder → Adapter → Now → Attempt → Option Query → Adapter
ask_confirmation e a t x none = after_answer a x
ask_confirmation e a t x (some q) =
    if query_matches a t x q
    then confirmed_by q (issue_probe e a t apply_confirmation (some q))
    else after_answer a x

unfoldable pub take_answer : Encoder → Adapter → Now → Control → Attempt → String → Adapter
take_answer e a t c x result =
    let reported =
      report e (put_attempt a (record x { consumed = true })) t (result_for c x result)
        (x.deadline - t.time) in
    if str_eq x.mode "query" && str_eq result "not_found"
    then ask_confirmation e reported t x reported.journal.pending_query
    else after_answer reported x

abbrev pub answer_attempt : Encoder → Adapter → Now → Control → String → Option Attempt → Adapter
answer_attempt e a t c result none = a
answer_attempt e a t c result (some x) =
    if attempt_stands a t c x
    then if answer_fits a c x result then take_answer e a t c x result else inhibit_journal a
    else a

-- handleStopStatusV2Locked
unfoldable pub handle_stop_status : Encoder → Adapter → Now → Control → String → Adapter
handle_stop_status e a t c result =
    answer_attempt e a t c result (lookup c.challenge a.journal.attempts)

abbrev offer_for : Adapter → Control → Probe → LocalStopResult
offer_for a c permit = record {
  operation_id = permit.operation_id;
  journal_revision = permit.revision;
  challenge = permit.challenge;
  connection_nonce = a.connection;
  result = "offer";
  expected_generation = some c.consent_generation;
  committed_generation = none;
}

abbrev permit_stands : Adapter → Now → Control → Probe → Bool
permit_stands a t c permit =
    str_eq permit.connection a.connection
    && permit.ipc_epoch == a.journal.ipc_epoch
    && leb t.time permit.deadline
    && str_eq c.challenge permit.challenge
    && not (is_some c.stop_result)
    && phase_is "preparing" a.journal.state
    && names_operation a.journal.state permit.operation_id permit.revision

abbrev pub offer_with : Encoder → Adapter → Now → Control → Option Probe → Adapter
offer_with e a t c none = a
offer_with e a t c (some permit) =
    if permit_stands a t c permit && e.encodes (local_stop_result (offer_for a c permit))
    then queue_redis (record a { journal = record a.journal { offer_permit = none } }) t
        control_channel (local_stop_result (offer_for a c permit)) (permit.deadline - t.time)
    else a

-- maybeSendOfferV2Locked
unfoldable pub maybe_send_offer : Encoder → Adapter → Now → Control → Adapter
maybe_send_offer e a t c = offer_with e a t c a.journal.offer_permit
