-- ===== src/Connection/Fifo.antt =====
-- The send queue of the manager over runs of callers and of the write loop.
use uplink_service.Prelude.{
  Bool, Option, none, some, List, [], ◌∷◌, ◌++◌, ◌≡◌, refl, arith, sym, ap, ◌∙◌, length, append-nil,
  append_assoc, Bool-cases, inl, inr, ltb,
}
use uplink_service.Connection.State.{
  Bytes, Codec, Manager, Outgoing, state_message, change_message, telemetry_delta_message,
  telemetry_batch_message, event_message, keepalive_message, response_message, is_connected,
  send_cap, increment_messages_sent, increment_telemetry_sent, add_bytes_sent,
}
use uplink_service.Connection.Sends.{
  SendError, queue_data, send_counted, send_state, send_change, send_telemetry_delta,
  send_telemetry_batch, send_event, send_command_response, keepalive_tick,
}
use uplink_service.Connection.Loops.{
  WriteOutcome, idle, skipped, wrote, write_failed, write_from, write_step, drain,
}
use uplink_service.Connection.Lifecycle.{
  Send, state, change, telemetry_delta, telemetry_batch, event, command_response, keepalive,
  do_send,
}

module _ {k : Codec} where
  -- The message that a call queues.
  abbrev pub message_of : Send k → Outgoing k.Any
  message_of (state now payload) = state_message payload now
  message_of (change now changes) = change_message changes now
  message_of (telemetry_delta now changes removed) = telemetry_delta_message changes removed now
  message_of (telemetry_batch now snapshots) = telemetry_batch_message snapshots now
  message_of (event now type payload) = event_message type payload now
  message_of (command_response resp) = response_message resp
  message_of (keepalive now) = keepalive_message now

abbrev pub accepted_frames : Option SendError → Option Bytes → List Bytes
accepted_frames (some error) frame = []
accepted_frames none none = []
accepted_frames none (some frame) = frame ∷ []

abbrev pub taken_frames : WriteOutcome → List Bytes
taken_frames idle = []
taken_frames (skipped frame) = frame ∷ []
taken_frames (wrote frame) = frame ∷ []
taken_frames (write_failed frame) = frame ∷ []

abbrev pub written_frames : WriteOutcome → List Bytes
written_frames idle = []
written_frames (skipped frame) = []
written_frames (wrote frame) = frame ∷ []
written_frames (write_failed frame) = []

-- An action on the send queue: a call, an iteration of the write loop, or its end.
pub data Action (k : Codec) : Type 0 where
  sends : Send k → Action k
  writes : Bool → Action k
  drains : Action k

module _ {k : Codec} where
  abbrev pub act : Manager k → Action k → Manager k
  act m (sends s) = (do_send m s).0
  act m (writes ok) = (write_step m ok).0
  act m drains = drain m

  -- The frames that an action puts into the queue, takes out of it, and writes to the socket.
  abbrev pub accepted_by : Manager k → Action k → List Bytes
  accepted_by m (sends s) = accepted_frames (do_send m s).1 (k.marshal (message_of s))
  accepted_by m (writes ok) = []
  accepted_by m drains = []

  abbrev pub taken_by : Manager k → Action k → List Bytes
  taken_by m (sends s) = []
  taken_by m (writes ok) = taken_frames (write_step m ok).1
  taken_by m drains = m.send_chan

  abbrev pub written_by : Manager k → Action k → List Bytes
  written_by m (sends s) = []
  written_by m (writes ok) = written_frames (write_step m ok).1
  written_by m drains = []

  abbrev pub run : Manager k → List (Action k) → Manager k
  run m [] = m
  run m (a ∷ actions) = run (act m a) actions

  abbrev pub accepted : Manager k → List (Action k) → List Bytes
  accepted m [] = []
  accepted m (a ∷ actions) = accepted_by m a ++ accepted (act m a) actions

  abbrev pub taken : Manager k → List (Action k) → List Bytes
  taken m [] = []
  taken m (a ∷ actions) = taken_by m a ++ taken (act m a) actions

  abbrev pub written : Manager k → List (Action k) → List Bytes
  written m [] = []
  written m (a ∷ actions) = written_by m a ++ written (act m a) actions

  -- A call queues the frame that it accepts at the end.
  abbrev Queues : Manager k → Option Bytes → Manager k × Option SendError → Type 0
  Queues m frame r = m.send_chan ++ accepted_frames r.1 frame ≡ r.0.send_chan

  queue_data-Queues :
      (counted : Manager k → Manager k) (m : Manager k) (o : Option Bytes)
      → ((n : Manager k) → (counted n).send_chan ≡ n.send_chan)
      → Queues m o (queue_data counted m o)
  queue_data-Queues counted m none h = append-nil m.send_chan
  queue_data-Queues counted m (some frame) h =
      elim (Bool-cases (ltb (length m.send_chan) send_cap)) [
        | inl room ↦ rw room (sym (h (record m { send_chan = m.send_chan ++ frame ∷ [] })))
        | inr full ↦ rw full (append-nil m.send_chan)
      ]

  send_counted-Queues :
      (counted : Manager k → Manager k) (m : Manager k) (msg : Outgoing k.Any)
      → ((n : Manager k) → (counted n).send_chan ≡ n.send_chan)
      → Queues m (k.marshal msg) (send_counted counted m msg)
  send_counted-Queues counted m msg h = elim (Bool-cases (is_connected m)) [
    | inl on ↦ rw on (queue_data-Queues counted m (k.marshal msg) h)
    | inr off ↦ rw off (append-nil m.send_chan)
  ]

  do_send-Queues : (m : Manager k) (s : Send k) → Queues m (k.marshal (message_of s)) (do_send m s)
  unfolding send_state send_change send_telemetry_delta send_telemetry_batch send_event
      send_command_response keepalive_tick increment_telemetry_sent increment_messages_sent
  do_send-Queues m (state now payload) =
      send_counted-Queues increment_telemetry_sent m (state_message payload now) (λ n. refl)
  do_send-Queues m (change now changes) =
      send_counted-Queues increment_telemetry_sent m (change_message changes now) (λ n. refl)
  do_send-Queues m (telemetry_delta now changes removed) =
      send_counted-Queues increment_telemetry_sent m (telemetry_delta_message changes removed now)
        (λ n. refl)
  do_send-Queues m (telemetry_batch now snapshots) =
      send_counted-Queues increment_telemetry_sent m (telemetry_batch_message snapshots now)
        (λ n. refl)
  do_send-Queues m (event now type payload) =
      send_counted-Queues increment_telemetry_sent m (event_message type payload now) (λ n. refl)
  do_send-Queues m (command_response resp) =
      send_counted-Queues increment_messages_sent m (response_message resp) (λ n. refl)
  do_send-Queues m (keepalive now) =
      send_counted-Queues (λ n. n) m (keepalive_message now) (λ n. refl)

  write_from-takes :
      (m : Manager k) (ok : Bool) (chan : List Bytes)
      → m.send_chan ≡ chan
      → chan ≡ taken_frames (write_from m ok chan).1 ++ (write_from m ok chan).0.send_chan
  unfolding increment_messages_sent add_bytes_sent
  write_from-takes m ok [] h = sym h
  write_from-takes m ok (frame ∷ rest) h = ground arith

  act_moves :
      (m : Manager k) (a : Action k)
      → m.send_chan ++ accepted_by m a ≡ taken_by m a ++ (act m a).send_chan
  unfolding write_step drain
  act_moves m (sends s) = do_send-Queues m s
  act_moves m (writes ok) = append-nil m.send_chan ∙ write_from-takes m ok m.send_chan refl
  act_moves m drains = refl

  -- Over any run of calls, writes and drains, from any state: the frames that leave the queue are
  -- those that stood in it followed by those that the calls accepted, in that order, and what has
  -- not left is still queued. A call with an error adds no frame.
  pub queue_is_fifo :
      (m : Manager k) (actions : List (Action k))
      → m.send_chan ++ accepted m actions ≡ taken m actions ++ (run m actions).send_chan
  queue_is_fifo m [] = append-nil m.send_chan
  queue_is_fifo m (a ∷ actions) =
      sym (append_assoc m.send_chan (accepted_by m a) (accepted (act m a) actions))
      ∙ ap (λ xs. xs ++ accepted (act m a) actions) (act_moves m a)
      ∙ append_assoc (taken_by m a) (act m a).send_chan (accepted (act m a) actions)
      ∙ ap (λ xs. taken_by m a ++ xs) (queue_is_fifo (act m a) actions)
      ∙ sym (append_assoc (taken_by m a) (taken (act m a) actions) (run m (a ∷ actions)).send_chan)
