-- ===== src/RideGroup/Lease.antt =====
-- The changes of the lease in protocol_v2_adapter.go, with the hello and the activity it publishes.
use uplink_service.Prelude.{
  ◌+◌, ◌*◌, String, Bool, true, false, ◌&&◌, not, Option, none, some, [], str_eq, if◌then◌else◌,
}
use uplink_service.Connection.State.{plus64, second}
use uplink_service.RideGroup.State.{
  Activity, hello, wire_activity, Encoder, about_hello, about_activity, Adapter, Now,
  attempt_lifetime, online,
}
use uplink_service.RideGroup.Egress.{queue_mqtt, drop_pending_position, drop_pending_source}

-- invalidatePositionPublicationsLocked
unfoldable pub invalidate_positions : Adapter → Adapter
invalidate_positions a =
    drop_pending_position
      (record a { source = record a.source { generation = plus64 a.source.generation 1 } })

-- clearGrantV2Locked; the estimator is outside.
unfoldable pub clear_grant : Adapter → Adapter
unfolding invalidate_positions
clear_grant a =
    let dropped = drop_pending_source (invalidate_positions a) in
    record dropped {
      lease = record dropped.lease {
        grant = none;
        grant_active = false;
        grant_at = none;
        grant_ttl = 0;
      };
      source = record dropped.source { last_position_at = none };
    }

-- clearGrantLocked
unfoldable pub clear_all : Adapter → Adapter
clear_all a = clear_grant (invalidate_positions a)

-- invalidateLocalAttemptsV2Locked
unfoldable pub invalidate_attempts : Adapter → Adapter
invalidate_attempts a = record a {
  journal = record a.journal { probes = []; attempts = []; used = []; pending_query = none };
}

-- The assignments that forget the activity and its challenges.
unfoldable pub forget_activity : Adapter → Adapter
forget_activity a = record a {
  lease = record a.lease { activity = none; activity_at = none; challenges = [] };
}

-- inhibitJournalV2Locked
unfoldable pub inhibit_journal : Adapter → Adapter
unfolding invalidate_attempts forget_activity
inhibit_journal a =
    let forgot = invalidate_attempts (forget_activity a) in
    clear_grant (record forgot {
      journal = record forgot.journal {
        ready = false;
        blocked = true;
        offer_permit = none;
        ipc_epoch = plus64 a.journal.ipc_epoch 1;
      };
    })

abbrev can_publish : Adapter → Now → Bool
can_publish a t = online a t && not (str_eq a.connection "")

abbrev send_hello : Encoder → Adapter → Now → Option String → Adapter
send_hello e a t none = a
send_hello e a t (some challenge) =
    if e.encodes (hello a.connection challenge)
    then record (queue_mqtt a (record {
      client = a.mqtt;
      connection = a.connection;
      message = some (hello a.connection challenge);
      expires_at = some (t.time + attempt_lifetime);
      priority = 3;
      subject = about_hello;
      order = 0;
    })) { last_hello_at = some t.time }
    else a

-- publishHelloV2Locked; the empty challenge asks for a new one.
unfoldable pub publish_hello : Encoder → Adapter → Now → String → Adapter
publish_hello e a t challenge =
    if can_publish a t
    then send_hello e a t (if str_eq challenge "" then t.hello_id else some challenge)
    else a

-- publishActivityV2Locked
unfoldable pub publish_activity : Encoder → Adapter → Now → Activity → Adapter
publish_activity e a t x =
    if can_publish a t && e.encodes (wire_activity a.connection x)
    then queue_mqtt a (record {
      client = a.mqtt;
      connection = a.connection;
      message = some (wire_activity a.connection x);
      expires_at = some (t.time + 5 * second);
      priority = 2;
      subject = about_activity x.boot_nonce x.seq x.active;
      order = 0;
    })
    else a

abbrev queue_activity : Encoder → Adapter → Now → Option Activity → Adapter
queue_activity e a t none = a
queue_activity e a t (some x) =
    if a.journal.ready && not a.blocked && not a.journal.blocked
    then publish_activity e a t x
    else a

-- publishQueuedV2ActivityLocked
unfoldable pub publish_queued_activity : Encoder → Adapter → Now → Adapter
publish_queued_activity e a t = queue_activity e a t a.lease.activity
