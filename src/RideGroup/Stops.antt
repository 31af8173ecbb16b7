-- ===== src/RideGroup/Stops.antt =====
-- The requests of a local stop in protocol_v2_adapter.go, and the confirmation that an apply needs.
use uplink_service.Prelude.{
  ℕ, ◌+◌, String, Bool, true, false, ◌&&◌, ◌||◌, not, Option, none, some, [], ◌∷◌, ltb, ◌==◌,
  str_eq, length, is_some, if◌then◌else◌,
}
use uplink_service.GoMap.{GoMap, insert}
use uplink_service.RideGroup.State.{
  Message, stop, LocalStop, Encoder, Probe, Attempt, Query, about_stop, Adapter, Now,
  attempt_lifetime, online, same_int, points_to,
}
use uplink_service.RideGroup.Egress.{queue_mqtt, names_operation}
use uplink_service.RideGroup.Probes.{min}

abbrev pub is_live : Now → Attempt → Bool
is_live t x = not x.consumed && ltb t.time x.deadline

abbrev pub any_live : Now → GoMap Attempt → Bool
any_live t [] = false
any_live t ((challenge, x) ∷ rest) = is_live t x || any_live t rest

abbrev pub is_prepared_for : Option LocalStop → Option ℕ → Bool
is_prepared_for none fence = false
is_prepared_for (some s) fence =
    str_eq s.phase "prepared"
    && same_int s.expected_generation fence
    && not (is_some s.committed_generation)

unfoldable pub may_send_stop : Adapter → Now → String → ℕ → Option ℕ → String → Bool
may_send_stop a t operation_id revision expected mode =
    online a t
    && not (str_eq a.connection "")
    && names_operation a.journal.state operation_id revision
    && not (a.journal.ipc_epoch == 0)
    && (if str_eq mode "apply" then is_prepared_for a.journal.state expected else true)

abbrev pub attempt_for : Adapter → Now → String → ℕ → Option ℕ → String → String → ℕ → Attempt
attempt_for a t operation_id revision expected challenge mode deadline = record {
  operation_id = operation_id;
  journal_revision = revision;
  challenge = challenge;
  connection_nonce = a.connection;
  started_at = t.time;
  mode = mode;
  fence = expected;
  deadline = min deadline (t.time + attempt_lifetime);
  ipc_epoch = a.journal.ipc_epoch;
  consumed = false;
}

unfoldable pub put_attempt : Adapter → Attempt → Adapter
put_attempt a x = record a {
  journal = record a.journal { attempts = insert x.challenge x a.journal.attempts };
}

unfoldable pub queue_stop : Adapter → Attempt → Message → Adapter
queue_stop a x msg = queue_mqtt (put_attempt a x) (record {
  client = a.mqtt;
  connection = a.connection;
  message = some msg;
  expires_at = some x.deadline;
  priority = 3;
  subject = about_stop x.challenge;
  order = 0;
})

-- sendStopV2Locked; the flag says whether it sends. No caller gives it the zero time.
unfoldable pub send_stop :
    Encoder → Adapter → Now → String → ℕ → Option ℕ → String → String → ℕ → Adapter × Bool
send_stop e a t operation_id revision expected challenge mode deadline =
    let msg = stop a.connection operation_id expected challenge mode in
    if may_send_stop a t operation_id revision expected mode
      && e.encodes msg
      && not (any_live t a.journal.attempts)
      && ltb (length a.journal.attempts) 10
    then (
      queue_stop a (attempt_for a t operation_id revision expected challenge mode deadline) msg,
      true,
    )
    else (a, false)

unfoldable pub forget_query : Adapter → Adapter
forget_query a = record a { journal = record a.journal { pending_query = none } }

abbrev pub confirms : Adapter → Now → LocalStop → Probe → Query → Bool
confirms a t s p q =
    str_eq p.connection a.connection
    && p.ipc_epoch == a.journal.ipc_epoch
    && ltb t.time p.deadline
    && ltb t.time q.deadline
    && points_to s.operation_id q.operation_id
    && q.revision == s.journal_revision
    && str_eq s.phase "prepared"
    && same_int s.expected_generation (some q.fence)
    && not (is_some s.committed_generation)
    && str_eq q.connection a.connection
    && q.ipc_epoch == a.journal.ipc_epoch

abbrev pub forget_if_sent : Adapter × Bool → Adapter
forget_if_sent (a, true) = forget_query a
forget_if_sent (a, false) = a

abbrev pub finalize_query : Encoder → Adapter → Now → LocalStop → Probe → Option Query → Adapter
finalize_query e a t s p none = forget_query a
finalize_query e a t s p (some q) =
    if confirms a t s p q
    then forget_if_sent
        (send_stop e a t q.operation_id q.revision (some q.fence) p.challenge "apply" q.deadline)
    else forget_query a

-- finalizeApplyConfirmationV2Locked, whose caller knows the purpose of the probe
unfoldable pub finalize_apply_confirmation : Encoder → Adapter → Now → LocalStop → Probe → Adapter
finalize_apply_confirmation e a t s p = finalize_query e a t s p a.journal.pending_query
