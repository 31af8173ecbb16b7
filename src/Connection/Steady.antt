-- ===== src/Connection/Steady.antt =====
-- The operations that keep the connection, its flags and the bounds of its channels.
use uplink_service.Prelude.{
  ℕ, ◌≤◌, String, Bool, Option, none, some, List, [], ◌∷◌, ◌≡◌, refl, arith, ap, length,
  length-append, is_some, Bool-cases, inl, inr,
}
use uplink_service.Connection.State.{
  Bytes, Codec, Manager, Outgoing, CommandMessage, ConfigUpdateMessage, LiveClient, LiveFrame,
  is_connected, add_bytes_sent, add_bytes_received, increment_messages_sent,
  increment_messages_recv, increment_telemetry_sent, increment_commands_recv, update_last_message,
}
use uplink_service.Connection.Sends.{
  queue_data, send_counted, send_state, send_change, send_telemetry_delta, send_telemetry_batch,
  send_event, send_command_response, keepalive_tick,
}
use uplink_service.Connection.Loops.{
  ReadResult, received, read_failed, queue_command, handle_command, handle_config_update, dispatch,
  read_step, write_from, write_step,
}
use uplink_service.Connection.Live.{
  unsubscribe, queue_live, take_live, take_chosen, write_live, oldest_from,
}
use uplink_service.Connection.Lifecycle.{
  Send, state, change, telemetry_delta, telemetry_batch, event, command_response, keepalive,
  do_send,
}

module _ {k : Codec} where
  -- No channel holds more than it was made for.
  abbrev pub IsBounded : Manager k → Type 0
  IsBounded m = (length m.send_chan ≤ 256) × (length m.cmd_chan ≤ 256) × (length m.config_chan ≤ 16)

  -- A step that keeps the connection and the flags, and the bounds if they held.
  abbrev pub Keeps : Manager k → Manager k → Type 0
  Keeps m m' =
      (m'.conn ≡ m.conn)
      × (m'.connected ≡ m.connected)
      × (m'.authenticated ≡ m.authenticated)
      × (IsBounded m → IsBounded m')

  pub Keeps-refl : (m : Manager k) → Keeps m m
  Keeps-refl m = (refl, refl, refl, λ h. h)

  queue_data-Keeps :
      (m : Manager k) (o : Option Bytes)
      → Keeps m (queue_data increment_telemetry_sent m o).0
        × Keeps m (queue_data increment_messages_sent m o).0
        × Keeps m (queue_data (λ n. n) m o).0
  unfolding increment_telemetry_sent increment_messages_sent
  queue_data-Keeps m none = (Keeps-refl m, Keeps-refl m, Keeps-refl m)
  queue_data-Keeps m (some payload) = ground (arith, length-append m.send_chan (payload ∷ []))

  send_counted-Keeps :
      (m : Manager k) (msg : Outgoing k.Any)
      → Keeps m (send_counted increment_telemetry_sent m msg).0
        × Keeps m (send_counted increment_messages_sent m msg).0
        × Keeps m (send_counted (λ n. n) m msg).0
  send_counted-Keeps m msg = elim (Bool-cases (is_connected m)) [
    | inl on ↦ rw on (queue_data-Keeps m (k.marshal msg))
    | inr off ↦ rw off (Keeps-refl m, Keeps-refl m, Keeps-refl m)
  ]

  pub do_send-Keeps : (m : Manager k) (s : Send k) → Keeps m (do_send m s).0
  unfolding send_state send_change send_telemetry_delta send_telemetry_batch send_event
      send_command_response keepalive_tick
  do_send-Keeps m (state now payload) = (send_counted-Keeps m _).0
  do_send-Keeps m (change now changes) = (send_counted-Keeps m _).0
  do_send-Keeps m (telemetry_delta now changes removed) = (send_counted-Keeps m _).0
  do_send-Keeps m (telemetry_batch now snapshots) = (send_counted-Keeps m _).0
  do_send-Keeps m (event now type payload) = (send_counted-Keeps m _).0
  do_send-Keeps m (command_response resp) = (send_counted-Keeps m _).1
  do_send-Keeps m (keepalive now) = (send_counted-Keeps m _).2

  handle_command-Keeps :
      (m : Manager k) (o : Option (CommandMessage k.Any)) → Keeps m (handle_command m o).0
  unfolding increment_commands_recv
  handle_command-Keeps m none = Keeps-refl m
  handle_command-Keeps m (some cmd) = ground (arith, length-append m.cmd_chan (cmd ∷ []))

  handle_config-Keeps :
      (m : Manager k) (o : Option (ConfigUpdateMessage k.Any))
      → Keeps m (handle_config_update m o).0
  handle_config-Keeps m none = Keeps-refl m
  handle_config-Keeps m (some cfg) = ground (arith, length-append m.config_chan (cfg ∷ []))

  dispatch-Keeps :
      (m : Manager k) (message : Bytes) (type : Option String) → Keeps m (dispatch m message type).0
  dispatch-Keeps m message none = Keeps-refl m
  dispatch-Keeps m message (some type) = ground (
    arith,
    handle_command-Keeps m (k.parse_command message),
    handle_config-Keeps m (k.parse_config_update message),
  )

  pub read_step-Keeps :
      (m : Manager k) (now : ℕ) (result : ReadResult) → Keeps m (read_step m now result).0
  unfolding read_step update_last_message increment_messages_recv add_bytes_received
  read_step-Keeps m now read_failed = ground arith
  read_step-Keeps m now (received message) = elim (Bool-cases (is_some m.conn)) [
    | inl on ↦ simp on (dispatch-Keeps _ message (k.parse_type message))
    | inr off ↦ simp off (Keeps-refl m)
  ]

  pub queue_command-Keeps :
      (m : Manager k) (cmd : CommandMessage k.Any) → Keeps m (queue_command m cmd).0
  queue_command-Keeps m cmd = ground (arith, length-append m.cmd_chan (cmd ∷ []))

  write_from-Keeps :
      (m : Manager k) (ok : Bool) (chan : List Bytes)
      → m.send_chan ≡ chan
      → Keeps m (write_from m ok chan).0
  unfolding increment_messages_sent add_bytes_sent
  write_from-Keeps m ok [] h = Keeps-refl m
  write_from-Keeps m ok (payload ∷ rest) h = ground (arith, ap length h)

  pub write_step-Keeps : (m : Manager k) (ok : Bool) → Keeps m (write_step m ok).0
  unfolding write_step
  write_step-Keeps m ok = write_from-Keeps m ok m.send_chan refl

  pub queue_live-Keeps :
      (m : Manager k) (c : LiveClient) (type : String) (payload : Bytes) (expires authorize : ℕ)
      → Keeps m (queue_live m c type payload expires authorize)
  unfolding queue_live
  queue_live-Keeps m c type payload expires authorize = Keeps-refl m

  take_chosen-Keeps :
      (m : Manager k) (o : Option (String × LiveFrame)) → Keeps m (take_chosen m o).0
  take_chosen-Keeps m none = Keeps-refl m
  take_chosen-Keeps m (some (key, frame)) = Keeps-refl m

  pub take_live-Keeps : (m : Manager k) → Keeps m (take_live m).0
  unfolding take_live
  take_live-Keeps m = take_chosen-Keeps m (oldest_from none m.live_pending)

  pub write_live-Keeps :
      (m : Manager k) (allows : ℕ → Bool) (first_now second_now : ℕ) (ok : Bool) (f : LiveFrame)
      → Keeps m (write_live m allows first_now second_now ok f).0
  unfolding write_live increment_messages_sent add_bytes_sent
  write_live-Keeps m allows first_now second_now ok f = ground arith

  pub unsubscribe-Keeps : (m : Manager k) (c : LiveClient) → Keeps m (unsubscribe m c)
  unfolding unsubscribe
  unsubscribe-Keeps m c = ground arith
