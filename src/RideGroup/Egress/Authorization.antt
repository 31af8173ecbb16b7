-- ===== src/RideGroup/Egress/Authorization.antt =====
-- The last authorization of an MQTT publication, in egress.go.
use uplink_service.Prelude.{
  ℕ, ◌-◌, ◌*◌, String, Bool, true, false, ◌&&◌, ◌||◌, not, Option, none, some, leb, ◌==◌,
  if◌then◌else◌, str_eq, is_some,
}
use uplink_service.GoMap.{lookup}
use uplink_service.Connection.State.{second}
use uplink_service.RideGroup.State.{
  Subject, about_hello, about_activity, about_position, about_stop, about_source, unsubscribes,
  Adapter, Now, Activity, Attempt, SourceStatus, LocalStop, Control, lease_duration, online, within,
  points_to, same_int,
}
use uplink_service.RideGroup.Authority.{grant_current, binds, same_member, journal_is_idle}

abbrev activity_is : Option Activity → String → ℕ → Bool → Bool
activity_is none boot_nonce seq active = false
activity_is (some x) boot_nonce seq active =
    str_eq x.boot_nonce boot_nonce && x.seq == seq && (if active then x.active else not x.active)

-- 0 <= now - at <= 5s
abbrev pub is_recent : ℕ → Option ℕ → Bool
is_recent now none = false
is_recent now (some at) = leb at now && leb (now - at) (5 * second)

abbrev source_binds : String → SourceStatus → Option Control → Option Activity → Bool
source_binds connection s (some c) (some x) =
    points_to c.session_id s.session_id
    && points_to c.member_id s.member_id
    && points_to c.stream_id s.stream_id
    && s.revision == c.revision
    && s.transport_epoch == c.transport_epoch
    && str_eq s.connection_nonce connection
    && points_to x.session_id s.session_id
    && points_to x.member_id s.member_id
source_binds connection s _ _ = false

abbrev source_authorized : Adapter → Now → String → ℕ → Option ℕ → ℕ → Option SourceStatus → Bool
source_authorized a t state seq at generation none = false
source_authorized a t state seq at generation (some s) =
    generation == a.source.status_generation
    && seq == s.seq
    && str_eq state s.state
    && source_binds a.connection s a.lease.grant a.lease.activity
    && (if str_eq s.state "no_fix"
        then a.source.no_fix_closed
        else is_some s.captured_at_ms && is_recent t.time at)

abbrev pub names_operation : Option LocalStop → String → ℕ → Bool
names_operation none operation_id revision = false
names_operation (some s) operation_id revision =
    points_to s.operation_id operation_id && s.journal_revision == revision

abbrev fence_stands : Option LocalStop → Attempt → Bool
fence_stands none x = false
fence_stands (some s) x =
    if str_eq x.mode "apply"
    then str_eq s.phase "prepared"
      && same_int s.expected_generation x.fence
      && not (is_some s.committed_generation)
    else (str_eq s.phase "prepared" || str_eq s.phase "uncertain")
      && same_int s.expected_generation x.fence

abbrev stop_authorized : Adapter → Now → Option Attempt → Bool
stop_authorized a t none = false
stop_authorized a t (some x) =
    not x.consumed
    && str_eq x.connection_nonce a.connection
    && x.ipc_epoch == a.journal.ipc_epoch
    && leb x.started_at t.time
    && leb t.time x.deadline
    && names_operation a.journal.state x.operation_id x.journal_revision
    && fence_stands a.journal.state x

-- mqttPublicationAuthorizedLocked
unfoldable pub authorized : Adapter → Now → Subject → Bool
authorized a t about_hello = a.settings_ready && online a t
authorized a t (about_activity boot_nonce seq active) =
    a.settings_ready
    && not a.blocked
    && journal_is_idle a
    && online a t
    && activity_is a.lease.activity boot_nonce seq active
    && within t.time a.lease.activity_at lease_duration
authorized a t (about_position session member stream revision epoch generation at) =
    grant_current a t
    && not a.source.no_fix_closed
    && generation == a.source.generation
    && same_member a.lease.activity a.lease.grant
    && binds a.lease.grant session member stream revision epoch
    && is_recent t.time (some at)
authorized a t (about_source state seq at generation) =
    grant_current a t && source_authorized a t state seq at generation a.source.last_status
authorized a t (about_stop challenge) = stop_authorized a t (lookup challenge a.journal.attempts)
authorized a t (unsubscribes topic) = true
