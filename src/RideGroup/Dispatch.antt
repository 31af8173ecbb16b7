-- ===== src/RideGroup/Dispatch.antt =====
-- The messages that adapter.go takes from Redis and from the server, and the recovery of Redis.
use uplink_service.Prelude.{
  ℕ, String, Char, code, Bool, true, false, ◌&&◌, ◌||◌, Option, none, some, List, [], ◌∷◌, leb, ltb,
  ◌==◌, str_eq, has_prefix, length, ◌+◌, if◌then◌else◌,
}
use uplink_service.Connection.State.{Bytes}
use uplink_service.RideGroup.State.{
  LocalStop, Activity, Control, PeerPosition, PeerStatus, Encoder, reconcile, Adapter, Now,
}
use uplink_service.RideGroup.Probes.{issue_probe}
use uplink_service.RideGroup.Snapshots.{handle_snapshot}
use uplink_service.RideGroup.Source.{Sample, handle_gps}
use uplink_service.RideGroup.Controls.{accept_activity, handle_control}
use uplink_service.RideGroup.Peers.{handle_peer, handle_peer_status}
use uplink_service.RideGroup.Link.{set_blocked, fail_closed}

-- The parsers of protocol_v2.go and protocol.go; none is an error. A report of the receiver has its
-- time stamp and whether it has a fix.
pub record Decoder : Type 0 where
  pub type_of : Bytes → Option String
  pub local_stop : Bytes → Option LocalStop
  pub activity : Bytes → Option Activity
  pub control : Bytes → Option Control
  pub peer : Bytes → Option PeerPosition
  pub peer_status : Bytes → Option PeerStatus
  pub gps_timestamp : Bytes → Option ℕ
  pub has_fix : Bytes → Bool
  -- the text of a payload
  pub text : Bytes → String

abbrev pub max_envelope_bytes : ℕ
max_envelope_bytes = 1024

abbrev if_parsed {ℓ} : {A : Type ℓ} → (A → Adapter) → Adapter → Option A → Adapter
if_parsed handle a none = a
if_parsed handle a (some v) = handle v

abbrev activity_of_type : Encoder → Decoder → Adapter → Now → Bytes → Option String → Adapter
activity_of_type e d a t payload none = a
activity_of_type e d a t payload (some type) =
    if str_eq type "ride_group_local_stop"
    then if_parsed (handle_snapshot e a t) a (d.local_stop payload)
    else if str_eq type "ride_group_activity"
    then if_parsed (accept_activity e a t) a (d.activity payload)
    else a

-- handleActivityV2
unfoldable pub handle_activity : Encoder → Decoder → Adapter → Now → Bytes → Adapter
handle_activity e d a t payload = activity_of_type e d a t payload (d.type_of payload)

abbrev downlink_of_type : Encoder → Decoder → Adapter → Now → Bytes → Option String → Adapter
downlink_of_type e d a t payload none = a
downlink_of_type e d a t payload (some type) =
    if str_eq type "ride_group_control"
    then if_parsed (handle_control e a t) a (d.control payload)
    else if str_eq type "ride_group_peer"
    then if_parsed (handle_peer a t) a (d.peer payload)
    else if str_eq type "ride_group_peer_status"
    then if_parsed (handle_peer_status a t) a (d.peer_status payload)
    else a

-- handleDownlink on a message that is not nil; its acknowledgement is outside.
unfoldable pub handle_downlink : Encoder → Decoder → Adapter → Now → Bool → Bytes → Adapter
handle_downlink e d a t retained payload =
    if retained || ltb max_envelope_bytes (length payload)
    then a
    else downlink_of_type e d a t payload (d.type_of payload)

-- strings.Contains
unfoldable pub contains : String → String → Bool
contains String.[] part = has_prefix String.[] part
contains (String.◌∷◌ c s) part = has_prefix (String.◌∷◌ c s) part || contains s part

abbrev names_block : String → Bool
names_block payload = contains payload "ride-group.blocked"

-- handleRedisMessage; the flag says whether the setting has to be read again, and the last argument
-- is what the estimator makes of a report.
unfoldable pub handle_redis_message :
    Encoder → Decoder → Adapter → Now → String → Bytes → Option Sample → Adapter × Bool
handle_redis_message e d a t channel payload sample =
    if str_eq channel "ride-group:activity"
    then (handle_activity e d a t payload, false)
    else if str_eq channel "gps:tpv"
    then (handle_gps e a t (d.gps_timestamp payload) (d.has_fix payload) sample, false)
    else if str_eq channel "settings"
    then (a, names_block (d.text payload))
    else (a, false)

-- The simple case folds of the ASCII letters, of the long s and of the Kelvin sign
abbrev fold : Char → ℕ
fold c =
    if leb b'A' (code c) && leb (code c) b'Z'
    then code c + 32
    else if code c == 383
    then b's'
    else if code c == 8490
    then b'k'
    else code c

-- strings.EqualFold for an ASCII text
unfoldable pub equal_fold : String → String → Bool
equal_fold String.[] String.[] = true
equal_fold String.[] (String.◌∷◌ d r) = false
equal_fold (String.◌∷◌ c s) String.[] = false
equal_fold (String.◌∷◌ c s) (String.◌∷◌ d r) = fold c == fold d && equal_fold s r

unfoldable pub is_blocked : String → Bool
is_blocked value = str_eq value "1" || equal_fold value "true" || equal_fold value "yes"

-- What HGet returns for the setting
pub data Reading : Type 0 where
  failed : Reading
  missing : Reading
  has : String → Reading

-- refreshBlocked; the flag says whether it returns no error.
unfoldable pub refresh_blocked : Encoder → Adapter → Now → Reading → Adapter × Bool
refresh_blocked e a t failed = (a, false)
refresh_blocked e a t missing = (set_blocked e a t false, true)
refresh_blocked e a t (has value) = (set_blocked e a t (is_blocked value), true)

abbrev unless_failed : Adapter × Bool → Adapter
unless_failed (a, true) = a
unless_failed (a, false) = fail_closed a

abbrev refresh_if : Encoder → Now → Reading → Adapter × Bool → Adapter
refresh_if e t reading (a, true) = unless_failed (refresh_blocked e a t reading)
refresh_if e t reading (a, false) = a

-- A message in the loop of run once Redis is recovered, with what the setting reads as then
unfoldable pub on_redis_message :
    Encoder → Decoder → Adapter → Now → String → Bytes → Option Sample → Reading → Adapter
on_redis_message e d a t channel payload sample reading =
    refresh_if e t reading (handle_redis_message e d a t channel payload sample)

-- What a subscription delivers: its end, a change of it, or a message.
pub data Event : Type 0 where
  ended : Event
  changed : Event
  message : String → String → Event

-- drainRedisEvents: whether a setting changed; none is an error.
unfoldable pub drain_redis_events : Bool → List Event → Option Bool
drain_redis_events settings_changed [] = some settings_changed
drain_redis_events settings_changed (ended ∷ events) = none
drain_redis_events settings_changed (changed ∷ events) = none
drain_redis_events settings_changed (message channel payload ∷ events) =
    drain_redis_events (str_eq channel "settings" && names_block payload || settings_changed) events

-- What one iteration of completeRedisRecovery meets: the events before and behind the read.
pub record Round : Type 0 where
  pub now : Now
  pub before : List Event
  pub reading : Reading
  pub behind : List Event

-- How an iteration ends: with an error, with another one to come, or with a recovered state.
pub data Recovery : Type 0 where
  broken : Adapter → Recovery
  again : Adapter → Recovery
  recovered : Adapter → Recovery

abbrev behind_read : Encoder → Adapter → Now → Option Bool → Recovery
behind_read e a t none = broken a
behind_read e a t (some true) = again a
behind_read e a t (some false) = recovered (issue_probe e a t reconcile none).0

abbrev read_setting : Encoder → Round → Adapter × Bool → Recovery
read_setting e r (a, false) = broken a
read_setting e r (a, true) = behind_read e a r.now (drain_redis_events false r.behind)

abbrev drained : Encoder → Adapter → Round → Option Bool → Recovery
drained e a r none = broken a
drained e a r (some changes) = read_setting e r (refresh_blocked e a r.now r.reading)

unfoldable pub recovery_round : Encoder → Adapter → Round → Recovery
recovery_round e a r = drained e a r (drain_redis_events false r.before)

-- The iterations for the rounds given, of which the last may ask for another.
unfoldable pub recovery_rounds : Encoder → Recovery → List Round → Recovery
recovery_rounds e (again a) (r ∷ rounds) = recovery_rounds e (recovery_round e a r) rounds
recovery_rounds e state rounds = state

-- completeRedisRecovery
unfoldable pub complete_redis_recovery : Encoder → Adapter → List Round → Recovery
complete_redis_recovery e a rounds =
    recovery_rounds e (again (record a { settings_ready = false })) rounds
