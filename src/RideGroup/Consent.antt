-- ===== src/RideGroup/Consent.antt =====
-- What a grant of protocol_v2_adapter.go stands on, and the snapshots of the journal.
use uplink_service.Prelude.{
  ◌&&◌, not, Bool, true, Option, none, some, ◌≡◌, refl, arith, Bool-cases, inl, inr, str_eq,
  is_some,
}
use uplink_service.GoMap.{lookup}
use uplink_service.Connection.State.{Bytes}
use uplink_service.RideGroup.State.{
  Control, LocalStop, Encoder, Purpose, reconcile, apply_confirmation, offer, Probe, Adapter, Now,
  is_active, same_bytes,
}
use uplink_service.RideGroup.Authority.{journal_is_idle}
use uplink_service.RideGroup.Lease.{invalidate_positions, clear_grant, inhibit_journal}
use uplink_service.RideGroup.Egress.{drop_pending_position, drop_pending_source}
use uplink_service.RideGroup.Probes.{reconcile_journal, consume_probe}
use uplink_service.RideGroup.Snapshots.{
  accept_revision, admit, act_on, take_snapshot, refuse_snapshot, probe_stands, with_probe,
  unless_used, with_canonical, handle_snapshot, is_idle,
}
use uplink_service.RideGroup.Same.{Core, Same, reconcile_journal-Same, consume_probe-Same}
use uplink_service.RideGroup.CoreStops.{finalize_apply_confirmation-Core, on_phase-Core}

abbrev pub is_consented_by : Option Control → Adapter → Bool
is_consented_by none a = true
is_consented_by (some c) a =
    not a.blocked
    && journal_is_idle a
    && is_active a.lease.activity
    && is_some a.mqtt
    && str_eq c.connection_nonce a.connection

-- With a grant, sharing is not blocked, the journal is idle, the activity is active, and the grant
-- was given on this connection.
abbrev pub IsConsented : Adapter → Type 0
IsConsented a = is_consented_by a.lease.grant a ≡ true

pub Core-IsConsented : (a b : Adapter) → Core a b → IsConsented a → IsConsented b
unfolding journal_is_idle
Core-IsConsented a b h i = ground arith

pub Same-IsConsented : (a b : Adapter) → Same a b → IsConsented a → IsConsented b
Same-IsConsented a b h i = Core-IsConsented a b h.1 i

pub no_grant-IsConsented : (a : Adapter) → a.lease.grant ≡ none → IsConsented a
no_grant-IsConsented a h = rw h refl

pub clear_grant-IsConsented : (a : Adapter) → IsConsented (clear_grant a)
unfolding clear_grant invalidate_positions drop_pending_position drop_pending_source
clear_grant-IsConsented a = refl

pub inhibit_journal-IsConsented : (a : Adapter) → IsConsented (inhibit_journal a)
unfolding inhibit_journal
inhibit_journal-IsConsented a = clear_grant-IsConsented _

pub reconcile_journal-IsConsented :
    (e : Encoder) (a : Adapter) (t : Now) → IsConsented a → IsConsented (reconcile_journal e a t)
reconcile_journal-IsConsented e a t i =
    Same-IsConsented a (reconcile_journal e a t) (reconcile_journal-Same e a t) i

admit-IsConsented : (a : Adapter) (s : LocalStop) → IsConsented a → IsConsented (admit a s)
unfolding admit journal_is_idle clear_grant invalidate_positions drop_pending_position
    drop_pending_source
admit-IsConsented a s i = ground arith

pub act_on-Core :
    (e : Encoder) (a : Adapter) (t : Now) (s : LocalStop) (p : Probe) (purpose : Purpose)
    → Core a (act_on e a t s p purpose)
act_on-Core e a t s p reconcile = on_phase-Core e a t s p
act_on-Core e a t s p apply_confirmation = finalize_apply_confirmation-Core e a t s p
act_on-Core e a t s p offer = on_phase-Core e a t s p

refuse_snapshot-IsConsented :
    (e : Encoder) (a : Adapter) (t : Now) (s : LocalStop)
    → IsConsented a
    → IsConsented (refuse_snapshot e a t s)
refuse_snapshot-IsConsented e a t s i = elim (Bool-cases (is_idle s)) [
  | inl idle ↦ rw idle (reconcile_journal-IsConsented e a t i)
  | inr busy ↦
      rw busy
        (reconcile_journal-IsConsented e (inhibit_journal a) t (inhibit_journal-IsConsented a))
]

consume_probe-IsConsented :
    (a : Adapter) (p : Probe) (payload : Bytes)
    → IsConsented a
    → IsConsented (consume_probe a p payload)
consume_probe-IsConsented a p payload i =
    Same-IsConsented a (consume_probe a p payload) (consume_probe-Same a p payload) i

take_snapshot-IsConsented :
    (e : Encoder) (a : Adapter) (t : Now) (s : LocalStop) (p : Probe) (payload : Bytes)
    → IsConsented a
    → IsConsented (take_snapshot e a t s p payload)
unfolding take_snapshot
take_snapshot-IsConsented e a t s p payload i =
    elim (Bool-cases (accept_revision a.journal.state s)) [
      | inl newer ↦ rw newer (
          Core-IsConsented (admit (consume_probe a p payload) s) _
            (act_on-Core e (admit (consume_probe a p payload) s) t s p p.purpose)
            (admit-IsConsented (consume_probe a p payload) s
              (consume_probe-IsConsented a p payload i)))
      | inr older ↦ rw older (
          reconcile_journal-IsConsented e (consume_probe (inhibit_journal a) p payload) t (
            consume_probe-IsConsented (inhibit_journal a) p payload
              (inhibit_journal-IsConsented a)))
    ]

with_probe-IsConsented :
    (e : Encoder) (a : Adapter) (t : Now) (s : LocalStop) (c : Bytes) (o : Option Probe)
    → IsConsented a
    → IsConsented (with_probe e a t s c o)
with_probe-IsConsented e a t s c none i = refuse_snapshot-IsConsented e a t s i
with_probe-IsConsented e a t s c (some p) i = elim (Bool-cases (probe_stands a t p)) [
  | inl stands ↦ rw stands (take_snapshot-IsConsented e a t s p c i)
  | inr stale ↦ rw stale (refuse_snapshot-IsConsented e a t s i)
]

unless_used-IsConsented :
    (e : Encoder) (a : Adapter) (t : Now) (s : LocalStop) (c : Bytes) (o : Option Bytes)
    → IsConsented a
    → IsConsented (unless_used e a t s c o)
unless_used-IsConsented e a t s c none i =
    with_probe-IsConsented e a t s c (lookup s.challenge a.journal.probes) i
unless_used-IsConsented e a t s c (some prior) i = elim (Bool-cases (same_bytes prior c)) [
  | inl same ↦ rw same i
  | inr other ↦
      rw other
        (reconcile_journal-IsConsented e (inhibit_journal a) t (inhibit_journal-IsConsented a))
]

with_canonical-IsConsented :
    (e : Encoder) (a : Adapter) (t : Now) (s : LocalStop) (o : Option Bytes)
    → IsConsented a
    → IsConsented (with_canonical e a t s o)
with_canonical-IsConsented e a t s none i = i
with_canonical-IsConsented e a t s (some c) i =
    unless_used-IsConsented e a t s c (lookup s.challenge a.journal.used) i

pub handle_snapshot-IsConsented :
    (e : Encoder) (a : Adapter) (t : Now) (s : LocalStop)
    → IsConsented a
    → IsConsented (handle_snapshot e a t s)
unfolding handle_snapshot
handle_snapshot-IsConsented e a t s i = with_canonical-IsConsented e a t s (e.canonical s) i
