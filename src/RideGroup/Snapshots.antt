-- ===== src/RideGroup/Snapshots.antt =====
-- The snapshots of the journal that modem-service sends, in protocol_v2_adapter.go.
use uplink_service.Prelude.{
  ℕ, String, Bool, true, false, ◌&&◌, ◌||◌, not, Option, none, some, leb, ltb, ◌==◌, str_eq,
  is_some, if◌then◌else◌,
}
use uplink_service.GoMap.{lookup}
use uplink_service.Connection.State.{Bytes}
use uplink_service.RideGroup.State.{
  LocalStop, Encoder, Purpose, apply_confirmation, offer, Probe, Query, Adapter, Now, online,
  same_text, same_int, same_bytes,
}
use uplink_service.RideGroup.Lease.{
  clear_grant, inhibit_journal, publish_hello, publish_queued_activity,
}
use uplink_service.RideGroup.Probes.{is_open, reconcile_journal, consume_probe}
use uplink_service.RideGroup.Stops.{send_stop, finalize_apply_confirmation}

-- acceptJournalRevisionV2Locked
unfoldable pub accept_revision : Option LocalStop → LocalStop → Bool
accept_revision none s = true
accept_revision (some previous) s =
    if ltb s.journal_revision previous.journal_revision
    then false
    else if s.journal_revision == previous.journal_revision
    then str_eq s.phase previous.phase
      && same_text s.operation_id previous.operation_id
      && same_int s.expected_generation previous.expected_generation
      && same_int s.committed_generation previous.committed_generation
      && (if s.blocked then previous.blocked else not previous.blocked)
    else true

abbrev pub probe_stands : Adapter → Now → Probe → Bool
probe_stands a t p = leb p.issued_at t.time && is_open a t p && online a t

abbrev pub is_idle : LocalStop → Bool
is_idle s = str_eq s.phase "idle" && not s.blocked

abbrev pub refuse_snapshot : Encoder → Adapter → Now → LocalStop → Adapter
refuse_snapshot e a t s = reconcile_journal e (if is_idle s then a else inhibit_journal a) t

-- The assignments behind a snapshot that is accepted.
unfoldable pub admit : Adapter → LocalStop → Adapter
admit a s =
    let admitted = record a {
      journal = record a.journal { state = some s; blocked = s.blocked; ready = is_idle s };
    } in
    if is_idle s then admitted else clear_grant admitted

unfoldable pub permit_offer : Encoder → Adapter → Now → LocalStop → Probe → String → Adapter
permit_offer e a t s p operation_id =
    let permit : Probe = record {
      challenge = s.challenge;
      connection = p.connection;
      issued_at = p.issued_at;
      deadline = p.deadline;
      purpose = offer;
      operation_id = operation_id;
      revision = s.journal_revision;
      fence = none;
      ipc_epoch = p.ipc_epoch;
    } in
    publish_hello e (record a { journal = record a.journal { offer_permit = some permit } }) t
      s.challenge

abbrev pub on_preparing : Encoder → Adapter → Now → LocalStop → Probe → Option String → Adapter
on_preparing e a t s p none = a
on_preparing e a t s p (some id) =
    if is_some s.expected_generation || is_some s.committed_generation
    then a
    else permit_offer e a t s p id

unfoldable pub query_prepared : Encoder → Adapter → Now → LocalStop → Probe → String → ℕ → Adapter
query_prepared e a t s p operation_id fence =
    let q : Query = record {
      operation_id = operation_id;
      revision = s.journal_revision;
      fence = fence;
      connection = a.connection;
      ipc_epoch = a.journal.ipc_epoch;
      deadline = p.deadline;
      query_challenge = s.challenge;
    } in
    (send_stop e (record a { journal = record a.journal { pending_query = some q } }) t operation_id
      s.journal_revision (some fence) s.challenge "query" p.deadline).0

abbrev pub on_prepared :
    Encoder → Adapter → Now → LocalStop → Probe → Option String → Option ℕ → Adapter
on_prepared e a t s p (some id) (some fence) =
    if is_some s.committed_generation then a else query_prepared e a t s p id fence
on_prepared e a t s p _ _ = a

abbrev pub on_uncertain : Encoder → Adapter → Now → LocalStop → Probe → Option String → Adapter
on_uncertain e a t s p none = a
on_uncertain e a t s p (some id) =
    (send_stop e a t id s.journal_revision s.expected_generation s.challenge "query" p.deadline).0

unfoldable pub on_phase : Encoder → Adapter → Now → LocalStop → Probe → Adapter
on_phase e a t s p =
    if str_eq s.phase "idle"
    then if s.blocked then a else publish_queued_activity e a t
    else if str_eq s.phase "preparing"
    then on_preparing e a t s p s.operation_id
    else if str_eq s.phase "prepared"
    then on_prepared e a t s p s.operation_id s.expected_generation
    else if str_eq s.phase "uncertain"
    then on_uncertain e a t s p s.operation_id
    else a

abbrev pub act_on : Encoder → Adapter → Now → LocalStop → Probe → Purpose → Adapter
act_on e a t s p apply_confirmation = finalize_apply_confirmation e a t s p
act_on e a t s p _ = on_phase e a t s p

unfoldable pub take_snapshot : Encoder → Adapter → Now → LocalStop → Probe → Bytes → Adapter
take_snapshot e a t s p canonical =
    if accept_revision a.journal.state s
    then act_on e (admit (consume_probe a p canonical) s) t s p p.purpose
    else reconcile_journal e (consume_probe (inhibit_journal a) p canonical) t

abbrev pub with_probe : Encoder → Adapter → Now → LocalStop → Bytes → Option Probe → Adapter
with_probe e a t s canonical none = refuse_snapshot e a t s
with_probe e a t s canonical (some p) =
    if probe_stands a t p then take_snapshot e a t s p canonical else refuse_snapshot e a t s

abbrev pub unless_used : Encoder → Adapter → Now → LocalStop → Bytes → Option Bytes → Adapter
unless_used e a t s canonical none =
    with_probe e a t s canonical (lookup s.challenge a.journal.probes)
unless_used e a t s canonical (some prior) =
    if same_bytes prior canonical then a else reconcile_journal e (inhibit_journal a) t

abbrev pub with_canonical : Encoder → Adapter → Now → LocalStop → Option Bytes → Adapter
with_canonical e a t s none = a
with_canonical e a t s (some canonical) =
    unless_used e a t s canonical (lookup s.challenge a.journal.used)

-- handleLocalStopSnapshotV2
unfoldable pub handle_snapshot : Encoder → Adapter → Now → LocalStop → Adapter
handle_snapshot e a t s = with_canonical e a t s (e.canonical s)
