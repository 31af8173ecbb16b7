-- ===== src/RideGroup/Probes.antt =====
-- The probes of the journal in protocol_v2_adapter.go.
use uplink_service.Prelude.{
  ℕ, ◌+◌, ◌-◌, String, Bool, true, false, ◌&&◌, not, Option, none, some, List, [], ◌∷◌, ◌++◌, leb,
  ltb, ◌==◌, str_eq, length, is_empty, if◌then◌else◌,
}
use uplink_service.GoMap.{GoMap, insert, erase}
use uplink_service.Connection.State.{Bytes}
use uplink_service.RideGroup.State.{
  local_stop_probe, Encoder, Purpose, reconcile, Probe, Query, Adapter, Now, attempt_lifetime,
  online, keep, control_channel,
}
use uplink_service.RideGroup.Egress.{queue_redis}

abbrev pub is_open : Adapter → Now → Probe → Bool
is_open a t p =
    leb t.time p.deadline && str_eq p.connection a.connection && p.ipc_epoch == a.journal.ipc_epoch

unfoldable pub drop_stale_probes : Adapter → Now → Adapter
drop_stale_probes a t = record a {
  journal = record a.journal { probes = keep (is_open a t) a.journal.probes };
}

unfoldable pub recent_times : ℕ → List ℕ → List ℕ
recent_times cutoff [] = []
recent_times cutoff (issued ∷ times) =
    let rest = recent_times cutoff times in if leb cutoff issued then issued ∷ rest else rest

unfoldable pub drop_old_times : Adapter → Now → Adapter
drop_old_times a t = record a {
  journal = record a.journal {
    probe_times = recent_times (t.time - attempt_lifetime) a.journal.probe_times;
  };
}

abbrev pub min : ℕ → ℕ → ℕ
min m n = if ltb n m then n else m

abbrev pub probe_for : Adapter → Now → String → Purpose → Option Query → Probe
probe_for a t challenge purpose none = record {
  challenge = challenge;
  connection = a.connection;
  issued_at = t.time;
  deadline = t.time + attempt_lifetime;
  purpose = purpose;
  operation_id = "";
  revision = 0;
  fence = none;
  ipc_epoch = a.journal.ipc_epoch;
}
probe_for a t challenge purpose (some q) = record {
  challenge = challenge;
  connection = a.connection;
  issued_at = t.time;
  deadline = min (t.time + attempt_lifetime) q.deadline;
  purpose = purpose;
  operation_id = q.operation_id;
  revision = q.revision;
  fence = some q.fence;
  ipc_epoch = a.journal.ipc_epoch;
}

unfoldable pub add_probe : Adapter → Now → Probe → Adapter
add_probe a t p =
    queue_redis
      (record a {
        journal = record a.journal {
          probes = insert p.challenge p a.journal.probes;
          probe_times = a.journal.probe_times ++ (t.time ∷ []);
        };
      })
      t control_channel (local_stop_probe p.challenge) attempt_lifetime

abbrev issue_from :
    Encoder → Adapter → Now → Purpose → Option Query → Option String → Adapter × Bool
issue_from e a t purpose query none = (a, false)
issue_from e a t purpose query (some challenge) =
    if e.encodes (local_stop_probe challenge)
    then (add_probe a t (probe_for a t challenge purpose query), true)
    else (a, false)

abbrev issue_within_rate : Encoder → Adapter → Now → Purpose → Option Query → Adapter × Bool
issue_within_rate e a t purpose query =
    if leb 10 (length a.journal.probe_times)
    then (a, false)
    else issue_from e a t purpose query t.probe_id

abbrev issue_alone : Encoder → Adapter → Now → Purpose → Option Query → Adapter × Bool
issue_alone e a t purpose query =
    if is_empty a.journal.probes
    then issue_within_rate e (drop_old_times a t) t purpose query
    else (a, false)

-- issueLocalProbeV2Locked; the flag says whether a probe was issued.
unfoldable pub issue_probe : Encoder → Adapter → Now → Purpose → Option Query → Adapter × Bool
issue_probe e a t purpose query =
    if a.has_redis && a.settings_ready && online a t && not (str_eq a.connection "")
    then issue_alone e (drop_stale_probes a t) t purpose query
    else (a, false)

-- maybeIssueReconciliationProbeV2Locked
unfoldable pub reconcile_journal : Encoder → Adapter → Now → Adapter
reconcile_journal e a t =
    if a.settings_ready && online a t then (issue_probe e a t reconcile none).0 else a

-- The loop deletes the first entry in the order of iteration while there are more than ten.
unfoldable pub trim_used : GoMap Bytes → GoMap Bytes
trim_used [] = []
trim_used (entry ∷ rest) =
    let trimmed = trim_used rest in if leb (length (entry ∷ rest)) 10 then entry ∷ rest else trimmed

-- consumeProbeV2Locked
unfoldable pub consume_probe : Adapter → Probe → Bytes → Adapter
consume_probe a p payload = record a {
  journal = record a.journal {
    probes = erase p.challenge a.journal.probes;
    used = trim_used (insert p.challenge payload a.journal.used);
  };
}
