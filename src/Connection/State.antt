-- ===== src/Connection/State.antt =====
-- The state of Manager in internal/connection/manager.go, with the messages of
-- internal/protocol/messages.go that it sends and receives.
use uplink_service.Prelude.{ℕ, ◌+◌, ◌%◌, String, Bool, false, ◌&&◌, Option, none, some, List, []}
use uplink_service.GoMap.{GoMap}

abbrev pub Bytes : Type 0
Bytes = List ℕ

-- A websocket.Conn by its identity.
abbrev pub Socket : Type 0
Socket = ℕ

module _ (D : Type 0) where
  pub record CommandMessage : Type 0 where
    pub request_id : String
    pub command : String
    pub params : GoMap D

  pub record ConfigUpdateMessage : Type 0 where
    pub deltas : GoMap String
    pub restart : Bool

  pub record CommandResponse : Type 0 where
    pub request_id : String
    pub status : String
    pub result : GoMap D
    pub error : String
    pub timestamp : String

  -- The messages to the server; the last argument is the time stamp. A snapshot of a batch is its
  -- data and its time stamp.
  pub data Outgoing : Type 0 where
    auth_message : String → String → String → String → Outgoing
    state_message : GoMap D → String → Outgoing
    change_message : GoMap D → String → Outgoing
    telemetry_delta_message : GoMap D → List String → String → Outgoing
    telemetry_batch_message : List (GoMap D × String) → String → Outgoing
    event_message : String → GoMap D → String → Outgoing
    keepalive_message : String → Outgoing
    response_message : CommandResponse → Outgoing

  pub record AuthResponse : Type 0 where
    pub status : String
    pub error : String

-- encoding/json on these messages; none is an error.
pub record Codec : Type 1 where
  -- the values of type any
  pub Any : Type 0
  pub marshal : Outgoing Any → Option Bytes
  -- the type of a BaseMessage, and that of the header of a live frame
  pub parse_type : Bytes → Option String
  pub parse_header : Bytes → Option String
  pub parse_auth_response : Bytes → Option (AuthResponse Any)
  pub parse_command : Bytes → Option (CommandMessage Any)
  pub parse_config_update : Bytes → Option (ConfigUpdateMessage Any)

-- A liveFrame; `authorize` names the closure, whose answers are given where it is called.
pub record LiveFrame : Type 0 where
  pub payload : Bytes
  pub connection : Option Socket
  pub expires : ℕ
  pub authorize : Option ℕ
  pub order : ℕ

-- A LiveClient by its identity, with the connection it was made for.
pub record LiveClient : Type 0 where
  pub client_id : ℕ
  pub connection : Option Socket

-- The counters are 64-bit integers, given by their residues.
pub record Manager (k : Codec) : Type 0 where
  pub conn : Option Socket
  pub connected : Bool
  pub authenticated : Bool
  pub connect_time : ℕ
  pub last_message : Option ℕ
  pub bytes_sent : ℕ
  pub bytes_received : ℕ
  pub messages_sent : ℕ
  pub messages_recv : ℕ
  pub telemetry_sent : ℕ
  pub commands_recv : ℕ
  pub disconnects : ℕ
  -- in nanoseconds
  pub retry_delay : ℕ
  pub send_chan : List Bytes
  pub cmd_chan : List (CommandMessage k.Any)
  pub config_chan : List (ConfigUpdateMessage k.Any)
  -- whether connectedCh holds its one token
  pub connected_ch : Bool
  pub live_pending : GoMap LiveFrame
  pub live_order : ℕ
  -- whether liveWake holds its one token
  pub live_wake : Bool
  -- liveReceiver and liveReceiverClient, which are set and cleared together
  pub live_receiver : Option LiveClient

abbrev pub second : ℕ
second = 1000000000

abbrev pub initial_retry_delay : ℕ
initial_retry_delay = second

abbrev pub send_cap : ℕ
send_cap = 256

abbrev pub cmd_cap : ℕ
cmd_cap = 256

abbrev pub config_cap : ℕ
config_cap = 16

-- The addition of 64-bit integers.
abbrev pub plus64 : ℕ → ℕ → ℕ
plus64 a b = (a + b) % 18446744073709551616

module _ (k : Codec) where
  unfoldable pub new_manager : Manager k
  new_manager = record {
    conn = none;
    connected = false;
    authenticated = false;
    connect_time = 0;
    last_message = none;
    bytes_sent = 0;
    bytes_received = 0;
    messages_sent = 0;
    messages_recv = 0;
    telemetry_sent = 0;
    commands_recv = 0;
    disconnects = 0;
    retry_delay = initial_retry_delay;
    send_chan = [];
    cmd_chan = [];
    config_chan = [];
    connected_ch = false;
    live_pending = [];
    live_order = 0;
    live_wake = false;
    live_receiver = none;
  }

module _ {k : Codec} where
  abbrev pub is_connected : Manager k → Bool
  is_connected m = m.connected && m.authenticated

  unfoldable pub add_bytes_sent : Manager k → ℕ → Manager k
  add_bytes_sent m n = record m { bytes_sent = plus64 m.bytes_sent n }

  unfoldable pub add_bytes_received : Manager k → ℕ → Manager k
  add_bytes_received m n = record m { bytes_received = plus64 m.bytes_received n }

  unfoldable pub increment_messages_sent : Manager k → Manager k
  increment_messages_sent m = record m { messages_sent = plus64 m.messages_sent 1 }

  unfoldable pub increment_messages_recv : Manager k → Manager k
  increment_messages_recv m = record m { messages_recv = plus64 m.messages_recv 1 }

  unfoldable pub increment_telemetry_sent : Manager k → Manager k
  increment_telemetry_sent m = record m { telemetry_sent = plus64 m.telemetry_sent 1 }

  unfoldable pub increment_commands_recv : Manager k → Manager k
  increment_commands_recv m = record m { commands_recv = plus64 m.commands_recv 1 }

  unfoldable pub update_last_message : Manager k → ℕ → Manager k
  update_last_message m now = record m { last_message = some now }
