-- ===== src/RideGroup/AppliedSnapshots.antt =====
-- The snapshots of the journal and the attempts that apply a local stop.
use uplink_service.Prelude.{
  ◌∙◌, false, Option, none, some, ◌≡◌, refl, arith, inl, inr, Bool-cases, ap,
}
use uplink_service.GoMap.{lookup}
use uplink_service.Connection.State.{Bytes}
use uplink_service.RideGroup.State.{
  LocalStop, Encoder, reconcile, Probe, Adapter, Now, Purpose, apply_confirmation, offer,
  same_bytes, Query,
}
use uplink_service.RideGroup.Egress.{drop_pending_position, drop_pending_source}
use uplink_service.RideGroup.Lease.{
  invalidate_positions, clear_grant, invalidate_attempts, inhibit_journal,
}
use uplink_service.RideGroup.Probes.{consume_probe, reconcile_journal}
use uplink_service.RideGroup.Same.{reconcile_journal-Same, consume_probe-Same}
use uplink_service.RideGroup.Snapshots.{
  admit, take_snapshot, refuse_snapshot, with_probe, unless_used, with_canonical, accept_revision,
  act_on, probe_stands,
}
use uplink_service.RideGroup.Stops.{finalize_apply_confirmation}
use uplink_service.RideGroup.Applied.{
  apply_free, IsFree, Same-IsFree, on_phase-IsFree, finalize_query-IsFree, is_confirmation,
}

admit-IsFree : (a : Adapter) (s : LocalStop) → IsFree a → IsFree (admit a s)
unfolding admit clear_grant invalidate_positions drop_pending_position drop_pending_source
admit-IsFree a s i = ground arith

pub inhibit_journal-IsFree : (a : Adapter) → IsFree (inhibit_journal a)
unfolding inhibit_journal invalidate_attempts clear_grant invalidate_positions drop_pending_position
    drop_pending_source apply_free
inhibit_journal-IsFree a = refl

pub reconcile_journal-IsFree :
    (e : Encoder) (a : Adapter) (t : Now) → IsFree a → IsFree (reconcile_journal e a t)
reconcile_journal-IsFree e a t i =
    Same-IsFree a (reconcile_journal e a t) (reconcile_journal-Same e a t) i

refuse_snapshot-IsFree :
    (e : Encoder) (a : Adapter) (t : Now) (s : LocalStop)
    → IsFree a
    → IsFree (refuse_snapshot e a t s)
refuse_snapshot-IsFree e a t s i = ground (
  arith,
  reconcile_journal-IsFree e a t i,
  reconcile_journal-IsFree e (inhibit_journal a) t (inhibit_journal-IsFree a),
)

act_on-IsFree :
    (e : Encoder) (a : Adapter) (t : Now) (s : LocalStop) (p : Probe) (purpose : Purpose)
    → p.purpose ≡ purpose
    → is_confirmation a t s (some p) a.journal.pending_query ≡ false
    → IsFree a
    → IsFree (act_on e a t s p purpose)
unfolding finalize_apply_confirmation
act_on-IsFree e a t s p reconcile h c i = on_phase-IsFree e a t s p i
act_on-IsFree e a t s p apply_confirmation h c i =
    finalize_query-IsFree e a t s p a.journal.pending_query h c i
act_on-IsFree e a t s p offer h c i = on_phase-IsFree e a t s p i

-- What the confirmation looks at
abbrev Stays : Adapter → Adapter → Type 0
Stays a b =
    (b.connection ≡ a.connection)
    × (b.journal.ipc_epoch ≡ a.journal.ipc_epoch)
    × (b.journal.pending_query ≡ a.journal.pending_query)

confirmation_stays :
    (a b : Adapter) (t : Now) (s : LocalStop) (p : Probe) (o : Option Query)
    → b.connection ≡ a.connection
    → b.journal.ipc_epoch ≡ a.journal.ipc_epoch
    → is_confirmation b t s (some p) o ≡ is_confirmation a t s (some p) o
confirmation_stays a b t s p none h i = refl
confirmation_stays a b t s p (some q) h i = rw h (rw i refl)

admit-Stays :
    (a : Adapter) (s : LocalStop) (p : Probe) (payload : Bytes)
    → Stays a (admit (consume_probe a p payload) s)
unfolding admit clear_grant invalidate_positions drop_pending_position drop_pending_source
    consume_probe
admit-Stays a s p payload = ground arith

is_confirmation_kept :
    (a b : Adapter) (t : Now) (s : LocalStop) (p : Probe)
    → Stays a b
    → is_confirmation b t s (some p) b.journal.pending_query
      ≡ is_confirmation a t s (some p) a.journal.pending_query
is_confirmation_kept a b t s p h =
    ap (is_confirmation b t s (some p)) h.2
    ∙ confirmation_stays a b t s p a.journal.pending_query h.0 h.1

take_snapshot-IsFree :
    (e : Encoder) (a : Adapter) (t : Now) (s : LocalStop) (p : Probe) (payload : Bytes)
    → is_confirmation a t s (some p) a.journal.pending_query ≡ false
    → IsFree a
    → IsFree (take_snapshot e a t s p payload)
unfolding take_snapshot
take_snapshot-IsFree e a t s p payload c i = elim (Bool-cases (accept_revision a.journal.state s)) [
  | inl newer ↦
      let used = consume_probe a p payload in
      rw newer (
        act_on-IsFree e (admit used s) t s p p.purpose refl
          (is_confirmation_kept a (admit used s) t s p (admit-Stays a s p payload) ∙ c)
          (admit-IsFree used s (Same-IsFree a used (consume_probe-Same a p payload) i)))
  | inr older ↦
      let used = consume_probe (inhibit_journal a) p payload in
      rw older (
        reconcile_journal-IsFree e used t (
          Same-IsFree (inhibit_journal a) used (consume_probe-Same (inhibit_journal a) p payload)
            (inhibit_journal-IsFree a)))
]

with_probe-IsFree :
    (e : Encoder) (a : Adapter) (t : Now) (s : LocalStop) (c : Bytes) (o : Option Probe)
    → is_confirmation a t s o a.journal.pending_query ≡ false
    → IsFree a
    → IsFree (with_probe e a t s c o)
with_probe-IsFree e a t s c none h i = refuse_snapshot-IsFree e a t s i
with_probe-IsFree e a t s c (some p) h i = elim (Bool-cases (probe_stands a t p)) [
  | inl stands ↦ rw stands (take_snapshot-IsFree e a t s p c h i)
  | inr stale ↦ rw stale (refuse_snapshot-IsFree e a t s i)
]

unless_used-IsFree :
    (e : Encoder) (a : Adapter) (t : Now) (s : LocalStop) (c : Bytes) (o : Option Bytes)
    → is_confirmation a t s (lookup s.challenge a.journal.probes) a.journal.pending_query ≡ false
    → IsFree a
    → IsFree (unless_used e a t s c o)
unless_used-IsFree e a t s c none h i =
    with_probe-IsFree e a t s c (lookup s.challenge a.journal.probes) h i
unless_used-IsFree e a t s c (some prior) h i = elim (Bool-cases (same_bytes prior c)) [
  | inl same ↦ rw same i
  | inr other ↦
      rw other (reconcile_journal-IsFree e (inhibit_journal a) t (inhibit_journal-IsFree a))
]

pub with_canonical-IsFree :
    (e : Encoder) (a : Adapter) (t : Now) (s : LocalStop) (o : Option Bytes)
    → is_confirmation a t s (lookup s.challenge a.journal.probes) a.journal.pending_query ≡ false
    → IsFree a
    → IsFree (with_canonical e a t s o)
with_canonical-IsFree e a t s none h i = i
with_canonical-IsFree e a t s (some c) h i =
    unless_used-IsFree e a t s c (lookup s.challenge a.journal.used) h i
