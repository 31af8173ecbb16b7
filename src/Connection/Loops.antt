-- ===== src/Connection/Loops.antt =====
-- The loops of a connection in internal/connection/manager.go: a message that is read, and a frame
-- that is taken from the send queue.
use uplink_service.Prelude.{
  ℕ, String, Bool, not, ◌||◌, Option, none, some, List, [], ◌∷◌, ◌++◌, ltb, length, is_some,
  if◌then◌else◌, str_eq,
}
use uplink_service.Connection.State.{
  Bytes, Codec, Manager, LiveClient, CommandMessage, ConfigUpdateMessage, add_bytes_sent,
  add_bytes_received, increment_messages_sent, increment_messages_recv, increment_commands_recv,
  update_last_message, cmd_cap, config_cap,
}
use uplink_service.Connection.Live.{deliver_live}

pub data ReadResult : Type 0 where
  read_failed : ReadResult
  received : Bytes → ReadResult

-- How an iteration of readLoop ends: the loop goes on, having handed the frame to the receiver of
-- live frames or not, waits for room in the command channel, or returns.
pub data ReadOutcome (k : Codec) : Type 0 where
  goes_on : ReadOutcome k
  delivers : LiveClient → ReadOutcome k
  waits : CommandMessage k.Any → ReadOutcome k
  returns : ReadOutcome k

-- How the case for sendChan in writeLoop ends: nothing was queued, or a frame was taken, which was
-- dropped, written or lost in a failed write, after which the loop returns.
pub data WriteOutcome : Type 0 where
  idle : WriteOutcome
  skipped : Bytes → WriteOutcome
  wrote : Bytes → WriteOutcome
  write_failed : Bytes → WriteOutcome

abbrev pub is_ride_group_type : String → Bool
is_ride_group_type t =
    str_eq t "ride_group_control" || str_eq t "ride_group_peer" || str_eq t "ride_group_peer_status"

abbrev pub delivery : {k : Codec} → Option LiveClient → ReadOutcome k
delivery none = goes_on
delivery (some c) = delivers c

module _ {k : Codec} where
  abbrev pub queue_command : Manager k → CommandMessage k.Any → Manager k × ReadOutcome k
  queue_command m cmd =
      if ltb (length m.cmd_chan) cmd_cap
      then (record m { cmd_chan = m.cmd_chan ++ cmd ∷ [] }, goes_on)
      else (m, waits cmd)

  abbrev pub handle_command : Manager k → Option (CommandMessage k.Any) → Manager k × ReadOutcome k
  handle_command m none = (m, goes_on)
  handle_command m (some cmd) = queue_command (increment_commands_recv m) cmd

  abbrev pub handle_config_update :
      Manager k → Option (ConfigUpdateMessage k.Any) → Manager k × ReadOutcome k
  handle_config_update m none = (m, goes_on)
  handle_config_update m (some cfg) =
      if ltb (length m.config_chan) config_cap
      then (record m { config_chan = m.config_chan ++ cfg ∷ [] }, goes_on)
      else (m, goes_on)

  abbrev pub dispatch : Manager k → Bytes → Option String → Manager k × ReadOutcome k
  dispatch m message none = (m, goes_on)
  dispatch m message (some type) =
      if is_ride_group_type type
      then (m, delivery (deliver_live m message))
      else if str_eq type "keepalive"
      then (m, goes_on)
      else if str_eq type "command"
      then handle_command m (k.parse_command message)
      else if str_eq type "config_update"
      then handle_config_update m (k.parse_config_update message)
      else (m, goes_on)

  abbrev pub count_received : Manager k → ℕ → Bytes → Manager k
  count_received m now message =
      update_last_message (increment_messages_recv (add_bytes_received m (length message))) now

  abbrev pub read_from : Manager k → ℕ → ReadResult → Manager k × ReadOutcome k
  read_from m now read_failed = (m, returns)
  read_from m now (received message) =
      dispatch (count_received m now message) message (k.parse_type message)

  -- One iteration of readLoop, when the stop signal is not set.
  unfoldable pub read_step : Manager k → ℕ → ReadResult → Manager k × ReadOutcome k
  read_step m now result = if is_some m.conn then read_from m now result else (m, returns)

  abbrev pub write_data : Manager k → Bool → Bytes → Manager k × WriteOutcome
  write_data m writes payload =
      if not (is_some m.conn) || not m.connected
      then (m, skipped payload)
      else if writes
      then (increment_messages_sent (add_bytes_sent m (length payload)), wrote payload)
      else (m, write_failed payload)

  abbrev pub write_from : Manager k → Bool → List Bytes → Manager k × WriteOutcome
  write_from m writes [] = (m, idle)
  write_from m writes (payload ∷ rest) = write_data (record m { send_chan = rest }) writes payload

  -- The case for sendChan; `writes` says whether the write succeeds.
  unfoldable pub write_step : Manager k → Bool → Manager k × WriteOutcome
  write_step m writes = write_from m writes m.send_chan

  -- The end of writeLoop behind the stop signal.
  unfoldable pub drain : Manager k → Manager k
  drain m = record m { send_chan = [] }
