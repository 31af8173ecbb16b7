-- ===== src/RideGroup/State/Messages.antt =====
-- The messages of protocol_v2.go.
use uplink_service.Prelude.{ℕ, String, Bool, Option, List}
use uplink_service.Connection.State.{Bytes}

-- An ActivityV2 that ParseActivityV2 admitted: its local_stop is false.
pub record Activity : Type 0 where
  pub boot_nonce : String
  pub seq : ℕ
  pub active : Bool
  pub session_id : Option String
  pub member_id : Option String
  pub challenge : String

pub record PeerDescriptor : Type 0 where
  pub peer_id : String
  pub label : String
  pub palette_index : ℕ

-- A ControlV2 that ParseControlV2 admitted: its numbers are not negative.
pub record Control : Type 0 where
  pub connection_nonce : String
  pub action : String
  pub session_id : Option String
  pub member_id : Option String
  pub revision : ℕ
  pub transport_epoch : ℕ
  pub stream_id : Option String
  pub challenge : String
  pub server_time_ms : ℕ
  pub lease_ttl_ms : ℕ
  pub cadence_ms : Option ℕ
  pub peers : List PeerDescriptor
  pub consent_generation : ℕ
  pub stop_operation_id : Option String
  pub stop_result : Option String
  pub stop_expected_generation : Option ℕ

-- A LocalStopV2, the snapshot of the journal of local stops.
pub record LocalStop : Type 0 where
  pub operation_id : Option String
  pub journal_revision : ℕ
  pub phase : String
  pub blocked : Bool
  pub expected_generation : Option ℕ
  pub committed_generation : Option ℕ
  pub challenge : String

pub record LocalStopResult : Type 0 where
  pub operation_id : String
  pub journal_revision : ℕ
  pub challenge : String
  pub connection_nonce : String
  pub result : String
  pub expected_generation : Option ℕ
  pub committed_generation : Option ℕ

pub record SourceStatus : Type 0 where
  pub connection_nonce : String
  pub session_id : String
  pub member_id : String
  pub revision : ℕ
  pub transport_epoch : ℕ
  pub stream_id : String
  pub seq : ℕ
  pub state : String
  pub captured_at_ms : Option ℕ

-- The fields of a PeerPositionV2 that the adapter reads, and the others as they were encoded.
pub record PeerPosition : Type 0 where
  pub session_id : String
  pub revision : ℕ
  pub transport_epoch : ℕ
  pub stream_id : String
  pub peer_stream_id : String
  pub peer_transport_epoch : ℕ
  pub seq : ℕ
  pub peer_id : String
  pub captured_at_ms : ℕ
  pub valid_for_ms : ℕ
  pub others : Bytes

pub record PeerStatus : Type 0 where
  pub session_id : String
  pub revision : ℕ
  pub transport_epoch : ℕ
  pub stream_id : String
  pub peer_id : String
  pub peer_stream_id : String
  pub peer_transport_epoch : ℕ
  pub status : String

-- A PositionV2; the numbers of the sample stand as they were encoded.
pub record Position : Type 0 where
  pub session_id : String
  pub revision : ℕ
  pub transport_epoch : ℕ
  pub stream_id : String
  pub seq : ℕ
  pub captured_at_ms : ℕ
  pub sample : Bytes

-- What the adapter sends, to the server or to Redis.
pub data Message : Type 0 where
  -- the connection and the challenge
  hello : String → String → Message
  -- the connection
  wire_activity : String → Activity → Message
  -- the connection, the operation, the expected generation, the challenge and the mode
  stop : String → String → Option ℕ → String → String → Message
  source_status : SourceStatus → Message
  local_stop_probe : String → Message
  local_stop_result : LocalStopResult → Message
  control : Control → Message
  peer : PeerPosition → Message
  peer_status : PeerStatus → Message
  position : Position → Message
