-- ===== src/RideGroup/CoreStops.antt =====
-- The functions of local stops that leave the lease, the link and the word of the journal as they are.
use uplink_service.Prelude.{
  ℕ, ◌-◌, ◌&&◌, String, Bool, true, false, Option, none, some, arith, Bool-cases, inl, inr, str_eq,
}
use uplink_service.RideGroup.State.{
  Control, LocalStop, Encoder, apply_confirmation, LocalStopResult, Probe, Attempt, Query, Adapter,
  Now,
}
use uplink_service.RideGroup.Egress.{put_pending, queue_mqtt, queue_redis}
use uplink_service.RideGroup.Lease.{publish_hello}
use uplink_service.RideGroup.Probes.{issue_probe}
use uplink_service.RideGroup.Stops.{
  put_attempt, queue_stop, send_stop, forget_query, finalize_apply_confirmation,
}
use uplink_service.RideGroup.Snapshots.{
  permit_offer, query_prepared, on_preparing, on_prepared, on_uncertain, on_phase,
}
use uplink_service.RideGroup.Answers.{
  take_answer, maybe_send_offer, after_answer, confirmed_by, ask_confirmation, query_matches,
  report, result_for,
}
use uplink_service.RideGroup.Same.{
  Core, Core-refl, Core-trans, publish_queued_activity-Same, issue_probe-Same, put_attempt-Core,
}

pub send_stop-Core :
    (e : Encoder) (a : Adapter) (t : Now) (operation_id : String) (revision : ℕ)
    (expected : Option ℕ) (challenge mode : String) (deadline : ℕ)
    → Core a (send_stop e a t operation_id revision expected challenge mode deadline).0
unfolding send_stop queue_stop put_attempt queue_mqtt put_pending
send_stop-Core e a t operation_id revision expected challenge mode deadline = ground arith

pub finalize_apply_confirmation-Core :
    (e : Encoder) (a : Adapter) (t : Now) (s : LocalStop) (p : Probe)
    → Core a (finalize_apply_confirmation e a t s p)
unfolding finalize_apply_confirmation forget_query send_stop queue_stop put_attempt queue_mqtt
    put_pending
finalize_apply_confirmation-Core e a t s p = ground arith

permit_offer-Core :
    (e : Encoder) (a : Adapter) (t : Now) (s : LocalStop) (p : Probe) (id : String)
    → Core a (permit_offer e a t s p id)
unfolding permit_offer publish_hello queue_mqtt put_pending
permit_offer-Core e a t s p id = ground arith

query_prepared-Core :
    (e : Encoder) (a : Adapter) (t : Now) (s : LocalStop) (p : Probe) (id : String) (fence : ℕ)
    → Core a (query_prepared e a t s p id fence)
unfolding query_prepared send_stop queue_stop put_attempt queue_mqtt put_pending
query_prepared-Core e a t s p id fence = ground arith

on_prepared-Core :
    (e : Encoder) (a : Adapter) (t : Now) (s : LocalStop) (p : Probe) (id : Option String)
    (fence : Option ℕ)
    → Core a (on_prepared e a t s p id fence)
on_prepared-Core e a t s p none fence = Core-refl a
on_prepared-Core e a t s p (some id) none = Core-refl a
on_prepared-Core e a t s p (some id) (some fence) =
    ground (arith, query_prepared-Core e a t s p id fence)

on_preparing-Core :
    (e : Encoder) (a : Adapter) (t : Now) (s : LocalStop) (p : Probe) (id : Option String)
    → Core a (on_preparing e a t s p id)
on_preparing-Core e a t s p none = Core-refl a
on_preparing-Core e a t s p (some id) = ground (arith, permit_offer-Core e a t s p id)

on_uncertain-Core :
    (e : Encoder) (a : Adapter) (t : Now) (s : LocalStop) (p : Probe) (id : Option String)
    → Core a (on_uncertain e a t s p id)
unfolding send_stop queue_stop put_attempt queue_mqtt put_pending
on_uncertain-Core e a t s p none = Core-refl a
on_uncertain-Core e a t s p (some id) = ground arith

pub on_phase-Core :
    (e : Encoder) (a : Adapter) (t : Now) (s : LocalStop) (p : Probe) → Core a (on_phase e a t s p)
unfolding on_phase
on_phase-Core e a t s p = ground (
  arith,
  publish_queued_activity-Same e a t,
  on_preparing-Core e a t s p s.operation_id,
  on_prepared-Core e a t s p s.operation_id s.expected_generation,
  on_uncertain-Core e a t s p s.operation_id,
)

after_answer-Core : (a : Adapter) (x : Attempt) → Core a (after_answer a x)
unfolding forget_query
after_answer-Core a x = ground arith

confirmed_by-Core :
    (a : Adapter) (q : Query) (r : Adapter × Bool) → Core a r.0 → Core a (confirmed_by q r)
unfolding forget_query
confirmed_by-Core a q (r, true) h = h
confirmed_by-Core a q (r, false) h = h

ask_confirmation-Core :
    (e : Encoder) (a : Adapter) (t : Now) (x : Attempt) (q : Option Query)
    → Core a (ask_confirmation e a t x q)
ask_confirmation-Core e a t x none = after_answer-Core a x
ask_confirmation-Core e a t x (some q) = elim (Bool-cases (query_matches a t x q)) [
  | inl fits ↦ rw fits (
      confirmed_by-Core a q (issue_probe e a t apply_confirmation (some q))
        (issue_probe-Same e a t apply_confirmation (some q)).1)
  | inr not_fits ↦ rw not_fits (after_answer-Core a x)
]

report-Core :
    (e : Encoder) (a : Adapter) (t : Now) (r : LocalStopResult) (n : ℕ) → Core a (report e a t r n)
unfolding queue_redis
report-Core e a t r n = ground arith

pub take_answer-Core :
    (e : Encoder) (a : Adapter) (t : Now) (c : Control) (x : Attempt) (result : String)
    → Core a (take_answer e a t c x result)
unfolding take_answer
take_answer-Core e a t c x result =
    let used = put_attempt a (record x { consumed = true }) in
    let b = report e used t (result_for c x result) (x.deadline - t.time) in
    let h : Core a b =
      Core-trans a used b (put_attempt-Core a (record x { consumed = true }))
        (report-Core e used t (result_for c x result) (x.deadline - t.time)) in
    elim (Bool-cases (str_eq x.mode "query" && str_eq result "not_found")) [
      | inl asks ↦ rw asks (
          Core-trans a b (ask_confirmation e b t x b.journal.pending_query) h
            (ask_confirmation-Core e b t x b.journal.pending_query))
      | inr ends ↦ rw ends (Core-trans a b (after_answer b x) h (after_answer-Core b x))
    ]

pub maybe_send_offer-Core :
    (e : Encoder) (a : Adapter) (t : Now) (c : Control) → Core a (maybe_send_offer e a t c)
unfolding maybe_send_offer queue_redis
maybe_send_offer-Core e a t c = ground arith
