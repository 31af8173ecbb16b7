-- ===== src/RideGroup/Link.antt =====
-- The link of adapter.go to the server and to Redis: connects, disconnects, the setting that blocks
-- sharing, the failure of Redis, and the ticker that ends leases.
use uplink_service.Prelude.{
  ℕ, String, Bool, true, false, ◌&&◌, ◌||◌, not, Option, none, some, [], leb, ◌==◌, str_eq, is_some,
  if◌then◌else◌,
}
use uplink_service.Connection.State.{plus64}
use uplink_service.RideGroup.State.{
  Encoder, reconcile, Attempt, Adapter, Now, lease_duration, online, same_int, within, keep,
}
use uplink_service.RideGroup.Egress.{stop_worker}
use uplink_service.RideGroup.Lease.{
  clear_grant, clear_all, invalidate_attempts, forget_activity, inhibit_journal, publish_hello,
}
use uplink_service.RideGroup.Probes.{drop_stale_probes, issue_probe, reconcile_journal}
use uplink_service.RideGroup.Source.{retry_no_fix_status}

-- NewAdapter for version 2, given a Redis client
abbrev pub new_adapter : Adapter
new_adapter = record {
  has_redis = true;
  mqtt = none;
  connection = "";
  connecting = false;
  connect_attempt = 0;
  settings_ready = false;
  blocked = false;
  last_hello_at = none;
  journal = record {
    ready = false;
    state = none;
    blocked = false;
    ipc_epoch = 0;
    probes = [];
    attempts = [];
    used = [];
    pending_query = none;
    probe_times = [];
    offer_permit = none;
  };
  lease = record {
    activity = none;
    activity_at = none;
    boot_nonce = "";
    seq = 0;
    challenges = [];
    grant = none;
    grant_at = none;
    grant_ttl = 0;
    grant_active = false;
    last_cleared = none;
    last_authority = none;
  };
  source = record {
    cadence = 2000000000;
    stream_id = "";
    session_id = "";
    epoch = 0;
    generation = 0;
    last_position_at = none;
    source_sequence = 0;
    no_fix_closed = false;
    gps_observed_at = none;
    fix_available_pending = false;
    last_status = none;
    status_generation = 0;
    retry_at = 0;
  };
  peer_streams = [];
  peer_scope = "";
  mqtt_pending = [];
  mqtt_order = 0;
  mqtt_closing = false;
  redis_queue = [];
}

-- resetConnectionLocked
unfoldable pub reset_connection : Adapter → Option ℕ → String → Adapter
unfolding invalidate_attempts forget_activity
reset_connection a client connection =
    let forgot = invalidate_attempts (forget_activity a) in
    clear_all (record forgot {
      mqtt = client;
      connection = connection;
      last_hello_at = none;
      source = record forgot.source { stream_id = ""; session_id = ""; epoch = 0 };
      journal = record forgot.journal {
        offer_permit = none;
        ready = false;
        ipc_epoch = plus64 a.journal.ipc_epoch 1;
        state = none;
        blocked = false;
      };
      lease = record forgot.lease { grant = none; last_cleared = none; last_authority = none };
    })

-- The first part of OnConnected; the flag says whether it goes on to subscribe, with the number of
-- the attempt that it reads back from the state.
unfoldable pub begin_connect : Adapter → Now → ℕ → Adapter × Bool
begin_connect a t client =
    if not t.link_up
      || same_int a.mqtt (some client) && not (str_eq a.connection "")
      || a.connecting
    then (a, false)
    else (record a { connecting = true; connect_attempt = plus64 a.connect_attempt 1 }, true)

unfoldable pub give_up_connect : Adapter → ℕ → Adapter
give_up_connect a attempt =
    if a.connect_attempt == attempt then record a { connecting = false } else a

abbrev pub greet : Encoder → Adapter → Now → Adapter
greet e a t =
    if a.settings_ready
    then (issue_probe e (publish_hello e a t "") t reconcile none).0
    else publish_hello e a t ""

-- The end of OnConnected: none stands for a failed identifier or subscription.
unfoldable pub end_connect : Encoder → Adapter → Now → ℕ → ℕ → Option String → Adapter
end_connect e a t client attempt none = give_up_connect a attempt
end_connect e a t client attempt (some connection) =
    if a.connect_attempt == attempt
    then greet e (reset_connection (record a { connecting = false }) (some client) connection) t
    else a

unfoldable pub leave_attempt : Adapter → Adapter
leave_attempt a = record a { connect_attempt = plus64 a.connect_attempt 1; connecting = false }

-- OnDisconnected
unfoldable pub on_disconnected : Adapter → ℕ → Adapter
on_disconnected a client =
    if same_int a.mqtt (some client)
    then reset_connection (leave_attempt a) none ""
    else if a.connecting
    then leave_attempt a
    else a

-- The steps of refreshBlocked behind the read
abbrev pub announce : Encoder → Adapter → Now → Bool → Adapter
announce e a t was_ready =
    if not was_ready && online a t
    then (issue_probe e (publish_hello e a t "") t reconcile none).0
    else a

unfoldable pub block_journal : Encoder → Adapter → Now → Adapter
block_journal e a t =
    let inhibited = invalidate_attempts (inhibit_journal a) in
    reconcile_journal e
      (record inhibited {
        journal = record inhibited.journal { ipc_epoch = plus64 inhibited.journal.ipc_epoch 1 };
      })
      t

unfoldable pub set_blocked : Encoder → Adapter → Now → Bool → Adapter
set_blocked e a t blocked =
    let announced =
      announce e (record a { blocked = blocked; settings_ready = true }) t a.settings_ready in
    if blocked || a.blocked then block_journal e announced t else announced

-- failClosed
unfoldable pub fail_closed : Adapter → Adapter
fail_closed a =
    let forgot = invalidate_attempts (forget_activity a) in
    clear_all (record forgot {
      settings_ready = false;
      journal = record forgot.journal {
        offer_permit = none;
        ready = false;
        blocked = true;
        state = none;
        ipc_epoch = plus64 a.journal.ipc_epoch 1;
      };
    })

abbrev pub attempt_is_open : Adapter → Now → Attempt → Bool
attempt_is_open a t x =
    leb t.time x.deadline
    && str_eq x.connection_nonce a.connection
    && x.ipc_epoch == a.journal.ipc_epoch

unfoldable pub expire_activity : Adapter → Now → Adapter
expire_activity a t =
    if is_some a.lease.activity && not (within t.time a.lease.activity_at lease_duration)
    then clear_grant (forget_activity a)
    else a

unfoldable pub expire_grant : Adapter → Now → Adapter
expire_grant a t =
    if is_some a.lease.grant && not (within t.time a.lease.grant_at a.lease.grant_ttl)
    then clear_grant a
    else a

unfoldable pub drop_stale_attempts : Adapter → Now → Adapter
drop_stale_attempts a t = record a {
  journal = record a.journal { attempts = keep (attempt_is_open a t) a.journal.attempts };
}

-- expireV2LeaseLocked
unfoldable pub expire_v2_lease : Adapter → Now → Adapter
expire_v2_lease a t =
    drop_stale_attempts (drop_stale_probes (expire_grant (expire_activity a t) t) t) t

-- expireLease
unfoldable pub expire_lease : Encoder → Adapter → Now → Adapter
expire_lease e a t = retry_no_fix_status e (expire_v2_lease a t) t

-- Stop, with the topic of the downlink
unfoldable pub stop_adapter : Adapter → Now → String → Adapter
stop_adapter a t topic =
    let stopped =
      clear_all (record a { connect_attempt = plus64 a.connect_attempt 1; connecting = false }) in
    stop_worker (record stopped { mqtt = none }) a.mqtt (if online a t then topic else "")
