-- ===== src/RideGroup/Applied.antt =====
-- The requests of protocol_v2_adapter.go and the attempts that apply a local stop.
use uplink_service.Prelude.{
  ℕ, String, Bool, true, false, Option, none, some, ◌≡◌, refl, arith, inl, inr, ◌&&◌, Bool-cases,
  str_eq, [], ◌∷◌, not, ap,
}
use uplink_service.GoMap.{GoMap, insert}
use uplink_service.RideGroup.State.{
  keep, LocalStop, Encoder, Probe, Adapter, Now, Attempt, Purpose, apply_confirmation, Query,
}
use uplink_service.RideGroup.Egress.{put_pending, queue_mqtt}
use uplink_service.RideGroup.Lease.{publish_hello}
use uplink_service.RideGroup.Same.{Same, publish_queued_activity-Same}
use uplink_service.RideGroup.Snapshots.{
  permit_offer, query_prepared, on_preparing, on_prepared, on_uncertain, permit_offer,
  query_prepared, on_preparing, on_prepared, on_uncertain, on_phase,
}
use uplink_service.RideGroup.Stops.{
  attempt_for, put_attempt, queue_stop, send_stop, forget_query, finalize_query, confirms,
}

-- An attempt that applies a stop and still awaits its answer
abbrev pub applies : Attempt → Bool
applies x = not x.consumed && str_eq x.mode "apply"

unfoldable pub apply_free : GoMap Attempt → Bool
apply_free [] = true
apply_free ((challenge, x) ∷ rest) = not (applies x) && apply_free rest

abbrev pub IsFree : Adapter → Type 0
IsFree a = apply_free a.journal.attempts ≡ true

insert-IsFree :
    (k : String) (x : Attempt) (m : GoMap Attempt)
    → apply_free m ≡ true
    → applies x ≡ false
    → apply_free (insert k x m) ≡ true
unfolding apply_free insert
insert-IsFree k x [] h i = ground arith
insert-IsFree k x ((j, y) ∷ m) h i = ground (arith, insert-IsFree k x m)

pub keep-IsFree :
    (test : Attempt → Bool) (m : GoMap Attempt)
    → apply_free m ≡ true
    → apply_free (keep test m) ≡ true
unfolding apply_free keep
keep-IsFree test [] h = refl
keep-IsFree test ((j, y) ∷ m) h = ground (arith, keep-IsFree test m)

pub Same-IsFree : (a b : Adapter) → Same a b → IsFree a → IsFree b
Same-IsFree a b h i = rw h.0 i

pub put_attempt-IsFree :
    (a : Adapter) (x : Attempt) → applies x ≡ false → IsFree a → IsFree (put_attempt a x)
unfolding put_attempt
put_attempt-IsFree a x h i = insert-IsFree x.challenge x a.journal.attempts i h

send_query-IsFree :
    (e : Encoder) (a : Adapter) (t : Now) (id : String) (revision : ℕ) (expected : Option ℕ)
    (challenge : String) (deadline : ℕ)
    → IsFree a
    → IsFree (send_stop e a t id revision expected challenge "query" deadline).0
unfolding send_stop queue_stop put_attempt queue_mqtt put_pending
send_query-IsFree e a t id revision expected challenge deadline i = ground (
  arith,
  insert-IsFree challenge (attempt_for a t id revision expected challenge "query" deadline)
      a.journal.attempts,
)

pub forget_query-IsFree : (a : Adapter) → IsFree a → IsFree (forget_query a)
unfolding forget_query
forget_query-IsFree a i = i

permit_offer-IsFree :
    (e : Encoder) (a : Adapter) (t : Now) (s : LocalStop) (p : Probe) (id : String)
    → IsFree a
    → IsFree (permit_offer e a t s p id)
unfolding permit_offer publish_hello queue_mqtt put_pending
permit_offer-IsFree e a t s p id i = ground arith

query_prepared-IsFree :
    (e : Encoder) (a : Adapter) (t : Now) (s : LocalStop) (p : Probe) (id : String) (fence : ℕ)
    → IsFree a
    → IsFree (query_prepared e a t s p id fence)
unfolding query_prepared
query_prepared-IsFree e a t s p id fence i =
    send_query-IsFree e (record a { journal = record a.journal { pending_query = some _ } }) t id
      s.journal_revision (some fence) s.challenge p.deadline i

on_preparing-IsFree :
    (e : Encoder) (a : Adapter) (t : Now) (s : LocalStop) (p : Probe) (id : Option String)
    → IsFree a
    → IsFree (on_preparing e a t s p id)
on_preparing-IsFree e a t s p none i = i
on_preparing-IsFree e a t s p (some id) i = ground (arith, permit_offer-IsFree e a t s p id i)

on_prepared-IsFree :
    (e : Encoder) (a : Adapter) (t : Now) (s : LocalStop) (p : Probe) (id : Option String)
    (fence : Option ℕ)
    → IsFree a
    → IsFree (on_prepared e a t s p id fence)
on_prepared-IsFree e a t s p none fence i = i
on_prepared-IsFree e a t s p (some id) none i = i
on_prepared-IsFree e a t s p (some id) (some fence) i =
    ground (arith, query_prepared-IsFree e a t s p id fence i)

on_uncertain-IsFree :
    (e : Encoder) (a : Adapter) (t : Now) (s : LocalStop) (p : Probe) (id : Option String)
    → IsFree a
    → IsFree (on_uncertain e a t s p id)
on_uncertain-IsFree e a t s p none i = i
on_uncertain-IsFree e a t s p (some id) i =
    send_query-IsFree e a t id s.journal_revision s.expected_generation s.challenge p.deadline i

pub on_phase-IsFree :
    (e : Encoder) (a : Adapter) (t : Now) (s : LocalStop) (p : Probe)
    → IsFree a
    → IsFree (on_phase e a t s p)
unfolding on_phase
on_phase-IsFree e a t s p i = ground (
  arith,
  publish_queued_activity-Same e a t,
  on_preparing-IsFree e a t s p s.operation_id i,
  on_prepared-IsFree e a t s p s.operation_id s.expected_generation i,
  on_uncertain-IsFree e a t s p s.operation_id i,
)

abbrev is_for_apply : Purpose → Bool
is_for_apply apply_confirmation = true
is_for_apply _ = false

-- The snapshot confirms the query that this probe was issued for.
abbrev pub is_confirmation : Adapter → Now → LocalStop → Option Probe → Option Query → Bool
is_confirmation a t s (some p) (some q) = is_for_apply p.purpose && confirms a t s p q
is_confirmation a t s _ _ = false

not_both : {p q : Bool} → p ≡ true → q ≡ true → (p && q) ≡ false → ⊥
not_both h i j = absurd (ground arith)

pub finalize_query-IsFree :
    (e : Encoder) (a : Adapter) (t : Now) (s : LocalStop) (p : Probe) (o : Option Query)
    → p.purpose ≡ apply_confirmation
    → is_confirmation a t s (some p) o ≡ false
    → IsFree a
    → IsFree (finalize_query e a t s p o)
finalize_query-IsFree e a t s p none h c i = forget_query-IsFree a i
finalize_query-IsFree e a t s p (some q) h c i = elim (Bool-cases (confirms a t s p q)) [
  | inl does ↦ absurd (not_both (ap is_for_apply h) does c)
  | inr not ↦ rw not (forget_query-IsFree a i)
]
