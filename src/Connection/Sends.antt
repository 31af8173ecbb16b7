-- ===== src/Connection/Sends.antt =====
-- The Send functions of internal/connection/manager.go: a message is encoded and queued, or the
-- call returns an error.
use uplink_service.Prelude.{
  String, not, Option, none, some, List, [], ◌∷◌, ◌++◌, ltb, length, if◌then◌else◌,
}
use uplink_service.GoMap.{GoMap}
use uplink_service.Connection.State.{
  Bytes, Codec, Manager, Outgoing, state_message, change_message, telemetry_delta_message,
  telemetry_batch_message, event_message, keepalive_message, response_message, CommandResponse,
  is_connected, increment_telemetry_sent, increment_messages_sent, send_cap,
}

pub data SendError : Type 0 where
  not_connected : SendError
  marshal_failed : SendError
  channel_full : SendError

module _ {k : Codec} where
  -- The select on sendChan: it queues the payload, or finds the channel full.
  abbrev pub queue_data :
      (Manager k → Manager k) → Manager k → Option Bytes → Manager k × Option SendError
  queue_data counted m none = (m, some marshal_failed)
  queue_data counted m (some payload) =
      if ltb (length m.send_chan) send_cap
      then (counted (record m { send_chan = m.send_chan ++ payload ∷ [] }), none)
      else (m, some channel_full)

  -- What every Send function does with its message.
  abbrev pub send_counted :
      (Manager k → Manager k) → Manager k → Outgoing k.Any → Manager k × Option SendError
  send_counted counted m msg =
      if not (is_connected m) then (m, some not_connected) else queue_data counted m (k.marshal msg)

  unfoldable pub send_state : Manager k → String → GoMap k.Any → Manager k × Option SendError
  send_state m now payload = send_counted increment_telemetry_sent m (state_message payload now)

  unfoldable pub send_change : Manager k → String → GoMap k.Any → Manager k × Option SendError
  send_change m now changes = send_counted increment_telemetry_sent m (change_message changes now)

  unfoldable pub send_telemetry_delta :
      Manager k → String → GoMap k.Any → List String → Manager k × Option SendError
  send_telemetry_delta m now changes removed =
      send_counted increment_telemetry_sent m (telemetry_delta_message changes removed now)

  unfoldable pub send_telemetry_batch :
      Manager k → String → List (GoMap k.Any × String) → Manager k × Option SendError
  send_telemetry_batch m now snapshots =
      send_counted increment_telemetry_sent m (telemetry_batch_message snapshots now)

  unfoldable pub send_event :
      Manager k → String → String → GoMap k.Any → Manager k × Option SendError
  send_event m now event_type payload =
      send_counted increment_telemetry_sent m (event_message event_type payload now)

  unfoldable pub send_command_response :
      Manager k → CommandResponse k.Any → Manager k × Option SendError
  send_command_response m resp = send_counted increment_messages_sent m (response_message resp)

  -- One tick of keepaliveLoop, which counts nothing and skips where the others return an error.
  unfoldable pub keepalive_tick : Manager k → String → Manager k × Option SendError
  keepalive_tick m now = send_counted (λ n. n) m (keepalive_message now)
