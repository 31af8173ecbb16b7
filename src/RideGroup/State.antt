-- ===== src/RideGroup/State.antt =====
-- The state of Adapter in adapter.go, as version 2 uses it; the messages are passed on.
mod Messages
pub use Messages.*
use uplink_service.Prelude.{
  ℕ, ◌-◌, String, Bool, true, false, ◌&&◌, Option, none, some, List, [], ◌==◌, is_some, leb, ltb,
  str_eq, ◌∷◌, if◌then◌else◌,
}
use uplink_service.GoMap.{GoMap}
use uplink_service.Connection.State.{Bytes}

-- MarshalCanonicalV2: whether it returns no error, and what it returns for a snapshot.
pub record Encoder : Type 0 where
  pub encodes : Message → Bool
  pub canonical : LocalStop → Option Bytes

pub data Purpose : Type 0 where
  reconcile : Purpose
  apply_confirmation : Purpose
  offer : Purpose

-- A localProbeV2, as a probe and as the permit of an offer.
pub record Probe : Type 0 where
  pub challenge : String
  pub connection : String
  pub issued_at : ℕ
  pub deadline : ℕ
  pub purpose : Purpose
  pub operation_id : String
  pub revision : ℕ
  pub fence : Option ℕ
  pub ipc_epoch : ℕ

-- A localStopAttemptV2.
pub record Attempt : Type 0 where
  pub operation_id : String
  pub journal_revision : ℕ
  pub challenge : String
  pub connection_nonce : String
  pub started_at : ℕ
  pub mode : String
  pub fence : Option ℕ
  pub deadline : ℕ
  pub ipc_epoch : ℕ
  pub consumed : Bool

-- A preparedQueryV2.
pub record Query : Type 0 where
  pub operation_id : String
  pub revision : ℕ
  pub fence : ℕ
  pub connection : String
  pub ipc_epoch : ℕ
  pub deadline : ℕ
  pub query_challenge : String

-- The fields of an mqttPublication that its kind uses.
pub data Subject : Type 0 where
  about_hello : Subject
  -- boot nonce, sequence, active
  about_activity : String → ℕ → Bool → Subject
  -- session, member, stream, revision, epoch, generation, time of capture
  about_position : String → String → String → ℕ → ℕ → ℕ → ℕ → Subject
  -- the challenge
  about_stop : String → Subject
  -- state, sequence, time of capture, generation
  about_source : String → ℕ → Option ℕ → ℕ → Subject
  -- the topic
  unsubscribes : String → Subject

pub record Publication : Type 0 where
  pub client : Option ℕ
  pub connection : String
  -- none stands in the publication that unsubscribes
  pub message : Option Message
  pub expires_at : Option ℕ
  pub priority : ℕ
  pub subject : Subject
  pub order : ℕ

pub record RedisPublication : Type 0 where
  pub channel : String
  pub message : Message
  pub expires_at : Option ℕ
  pub queued_at : ℕ

-- A peerReplayState.
pub record PeerReplay : Type 0 where
  pub stream_id : String
  pub epoch : ℕ
  pub seq : ℕ
  pub captured : ℕ
  pub status : String
  pub closed : Bool

pub record Journal : Type 0 where
  pub ready : Bool
  pub state : Option LocalStop
  pub blocked : Bool
  pub ipc_epoch : ℕ
  pub probes : GoMap Probe
  pub attempts : GoMap Attempt
  pub used : GoMap Bytes
  pub pending_query : Option Query
  pub probe_times : List ℕ
  pub offer_permit : Option Probe

pub record Lease : Type 0 where
  pub activity : Option Activity
  -- none is the zero time
  pub activity_at : Option ℕ
  pub boot_nonce : String
  pub seq : ℕ
  pub challenges : GoMap ℕ
  pub grant : Option Control
  pub grant_at : Option ℕ
  pub grant_ttl : ℕ
  pub grant_active : Bool
  pub last_cleared : Option Control
  pub last_authority : Option Control

pub record Source : Type 0 where
  pub cadence : ℕ
  pub stream_id : String
  pub session_id : String
  pub epoch : ℕ
  pub generation : ℕ
  pub last_position_at : Option ℕ
  pub source_sequence : ℕ
  pub no_fix_closed : Bool
  pub gps_observed_at : Option ℕ
  pub fix_available_pending : Bool
  pub last_status : Option SourceStatus
  pub status_generation : ℕ
  pub retry_at : ℕ

pub record Adapter : Type 0 where
  -- whether NewAdapter was given a Redis client
  pub has_redis : Bool
  -- the client by its identity
  pub mqtt : Option ℕ
  pub connection : String
  pub connecting : Bool
  pub connect_attempt : ℕ
  pub settings_ready : Bool
  pub blocked : Bool
  pub last_hello_at : Option ℕ
  pub journal : Journal
  pub lease : Lease
  pub source : Source
  pub peer_streams : GoMap PeerReplay
  pub peer_scope : String
  pub mqtt_pending : GoMap Publication
  pub mqtt_order : ℕ
  pub mqtt_closing : Bool
  pub redis_queue : List RedisPublication

-- What the outside gives to one call: the time in nanoseconds, which is read once, whether the
-- client is connected, and what newUUID returns for a hello and for a probe.
pub record Now : Type 0 where
  pub time : ℕ
  pub link_up : Bool
  pub hello_id : Option String
  pub probe_id : Option String

abbrev pub millisecond : ℕ
millisecond = 1000000

abbrev pub lease_duration : ℕ
lease_duration = 10000000000

abbrev pub attempt_lifetime : ℕ
attempt_lifetime = 10000000000

abbrev pub online : Adapter → Now → Bool
online a t = is_some a.mqtt && t.link_up

-- sameStringPtr and sameIntPtr
abbrev pub same_text : Option String → Option String → Bool
same_text none none = true
same_text none (some s) = false
same_text (some r) none = false
same_text (some r) (some s) = str_eq r s

abbrev pub same_int : Option ℕ → Option ℕ → Bool
same_int none none = true
same_int none (some n) = false
same_int (some m) none = false
same_int (some m) (some n) = m == n

-- 0 <= now - at < d; the zero time is too long ago.
abbrev pub within : ℕ → Option ℕ → ℕ → Bool
within now none d = false
within now (some at) d = leb at now && ltb (now - at) d

abbrev pub phase_is : String → Option LocalStop → Bool
phase_is p none = false
phase_is p (some s) = str_eq s.phase p

abbrev pub is_active : Option Activity → Bool
is_active none = false
is_active (some x) = x.active

-- pointers that are not nil, to equal texts
abbrev pub agree : Option String → Option String → Bool
agree (some r) (some s) = str_eq r s
agree _ _ = false

-- A pointer that is not nil, to this text.
abbrev pub points_to : Option String → String → Bool
points_to none s = false
points_to (some r) s = str_eq r s

abbrev pub same_bytes : Bytes → Bytes → Bool
same_bytes [] [] = true
same_bytes [] (n ∷ t) = false
same_bytes (m ∷ s) [] = false
same_bytes (m ∷ s) (n ∷ t) = m == n && same_bytes s t

-- A loop over a map that deletes the entries that fail the test.
unfoldable pub keep {ℓ} : {V : Type ℓ} → (V → Bool) → GoMap V → GoMap V
keep test [] = []
keep test ((key, value) ∷ m) =
    let rest = keep test m in if test value then (key, value) ∷ rest else rest

abbrev pub control_channel : String
control_channel = "ride-group:control"

abbrev pub peers_channel : String
peers_channel = "ride-group:peers"
