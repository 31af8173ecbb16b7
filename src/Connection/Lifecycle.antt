-- ===== src/Connection/Lifecycle.antt =====
-- The life of a connection in internal/connection/manager.go: dialing, authentication, the loops
-- and the reconnect, as a relation between the states of connectionLoop.
use uplink_service.Prelude.{
  ℕ, ◌+◌, ◌*◌, ◌%◌, String, Bool, true, false, Option, none, some, List, ◌∷◌, ◌≡◌, ltb, length,
  if◌then◌else◌, str_eq,
}
use uplink_service.GoMap.{GoMap}
use uplink_service.Connection.State.{
  Bytes, Socket, Codec, Manager, LiveFrame, LiveClient, Outgoing, auth_message, AuthResponse,
  CommandResponse, CommandMessage, ConfigUpdateMessage, add_bytes_sent, add_bytes_received,
  initial_retry_delay, new_manager,
}
use uplink_service.Connection.Sends.{
  SendError, send_state, send_change, send_telemetry_delta, send_telemetry_batch, send_event,
  send_command_response, keepalive_tick,
}
use uplink_service.Connection.Loops.{ReadResult, queue_command, read_step, write_step, drain}
use uplink_service.Connection.Live.{
  subscribe, unsubscribe, queue_live, wake_live, take_live, write_live, reset_live_queue,
}

-- A call of one of the functions that queue a message, with its time stamp.
pub data Send (k : Codec) : Type 0 where
  state : String → GoMap k.Any → Send k
  change : String → GoMap k.Any → Send k
  telemetry_delta : String → GoMap k.Any → List String → Send k
  telemetry_batch : String → List (GoMap k.Any × String) → Send k
  event : String → String → GoMap k.Any → Send k
  command_response : CommandResponse k.Any → Send k
  keepalive : String → Send k

-- What happens behind the write of the auth message.
pub data AuthAnswer : Type 0 where
  auth_write_failed : AuthAnswer
  auth_read_failed : AuthAnswer
  auth_answered : Bytes → AuthAnswer

-- Where connectionLoop stands.
pub data Phase : Type 0 where
  dialing : Phase
  authenticating : Phase
  entering : Phase
  running : Phase
  retrying : Phase

module _ {k : Codec} where
  abbrev pub do_send : Manager k → Send k → Manager k × Option SendError
  do_send m (state now payload) = send_state m now payload
  do_send m (change now changes) = send_change m now changes
  do_send m (telemetry_delta now changes removed) = send_telemetry_delta m now changes removed
  do_send m (telemetry_batch now snapshots) = send_telemetry_batch m now snapshots
  do_send m (event now type payload) = send_event m now type payload
  do_send m (command_response resp) = send_command_response m resp
  do_send m (keepalive now) = keepalive_tick m now

  abbrev pub check_response : Manager k → Option (AuthResponse k.Any) → Manager k × Bool
  check_response m none = (m, false)
  check_response m (some resp) =
      if str_eq resp.status "success" then (record m { authenticated = true }, true) else (m, false)

  abbrev pub auth_exchange : Manager k → Bytes → AuthAnswer → Manager k × Bool
  auth_exchange m payload auth_write_failed = (m, false)
  auth_exchange m payload auth_read_failed = (add_bytes_sent m (length payload), false)
  auth_exchange m payload (auth_answered message) =
      check_response (add_bytes_received (add_bytes_sent m (length payload)) (length message))
        (k.parse_auth_response message)

  abbrev pub auth_send : Manager k → Option Bytes → AuthAnswer → Manager k × Bool
  auth_send m none answer = (m, false)
  auth_send m (some payload) answer = auth_exchange m payload answer

  -- The flag says whether authenticate returns no error.
  unfoldable pub authenticate : Manager k → Outgoing k.Any → AuthAnswer → Manager k × Bool
  authenticate m msg answer = auth_send m (k.marshal msg) answer

  unfoldable pub open_conn : Manager k → Socket → Manager k
  open_conn m s = record m { conn = some s }

  unfoldable pub drop_conn : Manager k → Manager k
  drop_conn m = record m { conn = none }

  unfoldable pub mark_connected : Manager k → ℕ → Manager k
  mark_connected m now = record m {
    connected = true;
    connect_time = now;
    retry_delay = initial_retry_delay;
    connected_ch = true;
  }

  unfoldable pub mark_disconnected : Manager k → Manager k
  unfolding reset_live_queue
  mark_disconnected m =
      let reset = reset_live_queue m in
      record reset {
        connected = false;
        authenticated = false;
        disconnects = (m.disconnects + 1) % 18446744073709551616;
      }

  -- The doubling in float64 is exact for a delay that is a power of two times a second.
  unfoldable pub get_retry_delay : ℕ → Manager k → Manager k × ℕ
  get_retry_delay max_delay m =
      let doubled = m.retry_delay * 2 in
      (
        record m { retry_delay = if ltb max_delay doubled then max_delay else doubled },
        m.retry_delay,
      )

  -- One step of connectionLoop, of the loops that it starts or of a caller; `max_delay` is the
  -- configured maximum.
  pub data Step (max_delay : ℕ) : Phase → Manager k → Phase → Manager k → Type 0 where
    dial_fails : (m : Manager k) → Step max_delay dialing m retrying m
    dials : (m : Manager k) (s : Socket) → Step max_delay dialing m authenticating (open_conn m s)
    auth_fails :
        (m : Manager k) (version identifier token now : String) (answer : AuthAnswer)
        → (authenticate m (auth_message version identifier token now) answer).1 ≡ false
        → Step max_delay authenticating m retrying
            (drop_conn (authenticate m (auth_message version identifier token now) answer).0)
    auth_passes :
        (m : Manager k) (version identifier token now : String) (answer : AuthAnswer)
        → (authenticate m (auth_message version identifier token now) answer).1 ≡ true
        → Step max_delay authenticating m entering
            (authenticate m (auth_message version identifier token now) answer).0
    enters : (m : Manager k) (now : ℕ) → Step max_delay entering m running (mark_connected m now)
    reads :
        (m : Manager k) (now : ℕ) (result : ReadResult)
        → Step max_delay running m running (read_step m now result).0
    -- a command that waited finds the channel as it is now
    places :
        (m : Manager k) (cmd : CommandMessage k.Any)
        → Step max_delay running m running (queue_command m cmd).0
    writes : (m : Manager k) (ok : Bool) → Step max_delay running m running (write_step m ok).0
    drains : (m : Manager k) → Step max_delay running m running (drain m)
    -- the write loop receives from liveWake
    receives_wake :
        (m : Manager k)
        → m.live_wake ≡ true
        → Step max_delay running m running (record m { live_wake = false })
    takes : (m : Manager k) → Step max_delay running m running (take_live m).0
    writes_live :
        (m : Manager k) (allows : ℕ → Bool) (first_now second_now : ℕ) (ok : Bool) (f : LiveFrame)
        → Step max_delay running m running (write_live m allows first_now second_now ok f).0
    closes : (m : Manager k) → Step max_delay running m retrying (drop_conn m)
    waits_out :
        (m : Manager k)
        → Step max_delay retrying m dialing (get_retry_delay max_delay (mark_disconnected m)).0
    sends : (p : Phase) (m : Manager k) (s : Send k) → Step max_delay p m p (do_send m s).0
    -- the insertion of PublishLive, behind its tests
    publishes :
        (p : Phase) (m : Manager k) (c : LiveClient) (type : String) (payload : Bytes)
        (expires authorize : ℕ)
        → Step max_delay p m p (queue_live m c type payload expires authorize)
    -- the select of PublishLive
    wakes : (p : Phase) (m : Manager k) → Step max_delay p m p (wake_live m)
    -- handleLoop receives from the command channel and the config channel, and the main function
    -- from connectedCh
    receives_command :
        (p : Phase) (m : Manager k) (cmd : CommandMessage k.Any)
        (rest : List (CommandMessage k.Any))
        → m.cmd_chan ≡ cmd ∷ rest
        → Step max_delay p m p (record m { cmd_chan = rest })
    receives_config :
        (p : Phase) (m : Manager k) (cfg : ConfigUpdateMessage k.Any)
        (rest : List (ConfigUpdateMessage k.Any))
        → m.config_chan ≡ cfg ∷ rest
        → Step max_delay p m p (record m { config_chan = rest })
    receives_connected :
        (p : Phase) (m : Manager k)
        → m.connected_ch ≡ true
        → Step max_delay p m p (record m { connected_ch = false })
    subscribes : (p : Phase) (m : Manager k) (c : LiveClient) → Step max_delay p m p (subscribe m c)
    unsubscribes :
        (p : Phase) (m : Manager k) (c : LiveClient) → Step max_delay p m p (unsubscribe m c)

  -- The states that the service can reach.
  pub data Reachable (max_delay : ℕ) : Phase → Manager k → Type 0 where
    starts : Reachable max_delay dialing (new_manager k)
    follows :
        (p : Phase) (m : Manager k) (p' : Phase) (m' : Manager k)
        → Reachable max_delay p m
        → Step max_delay p m p' m'
        → Reachable max_delay p' m'
