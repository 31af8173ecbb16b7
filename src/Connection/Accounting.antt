-- ===== src/Connection/Accounting.antt =====
-- What the counters of the manager count.
use uplink_service.Prelude.{
  ℕ, ◌+◌, ◌%◌, Bool, Option, none, some, List, [], ◌∷◌, ◌++◌, ◌≡◌, arith, length, length-append,
  Bool-cases, inl, inr, ltb,
}
use uplink_service.Connection.State.{
  Bytes, Codec, Manager, Outgoing, state_message, change_message, telemetry_delta_message,
  telemetry_batch_message, event_message, keepalive_message, response_message, is_connected,
  send_cap, increment_messages_sent, increment_telemetry_sent, add_bytes_sent,
}
use uplink_service.Connection.Sends.{
  SendError, queue_data, send_counted, send_state, send_change, send_telemetry_delta,
  send_telemetry_batch, send_event, send_command_response, keepalive_tick,
}
use uplink_service.Connection.Loops.{write_from, write_data, write_step, drain}
use uplink_service.Connection.Lifecycle.{
  Send, state, change, telemetry_delta, telemetry_batch, event, command_response, keepalive,
}
use uplink_service.Connection.Fifo.{
  Action, sends, writes, drains, act, run, accepted_frames, written, written_by, written_frames,
}

-- Equality of the residues that a 64-bit counter can hold.
infix 40 ◌≈◌
abbrev pub ◌≈◌ : ℕ → ℕ → Type 0
a ≈ b = a % 18446744073709551616 ≡ b % 18446744073709551616

abbrev pub total : List Bytes → ℕ
total [] = 0
total (frame ∷ frames) = length frame + total frames

total-append : (xs ys : List Bytes) → total (xs ++ ys) ≡ total xs + total ys
total-append [] ys = omega arith
total-append (x ∷ xs) ys = omega (arith, total-append xs ys)

module _ {k : Codec} where
  -- The command responses, and the telemetry messages, that an action queues.
  abbrev pub responses_by : Manager k → Action k → ℕ
  responses_by m (sends (command_response resp)) =
      length (accepted_frames (send_command_response m resp).1 (k.marshal (response_message resp)))
  responses_by m a = 0

  abbrev pub responses : Manager k → List (Action k) → ℕ
  responses m [] = 0
  responses m (a ∷ actions) = responses_by m a + responses (act m a) actions

  -- What queueing does to the counters when it counts a message, telemetry or nothing.
  abbrev Counts :
      Manager k → Option Bytes → ((Manager k → Manager k) → Manager k × Option SendError) → Type 0
  Counts m o queue =
      ((queue increment_messages_sent).0.messages_sent
        ≈ m.messages_sent + length (accepted_frames (queue increment_messages_sent).1 o))
      × ((queue increment_telemetry_sent).0.messages_sent ≡ m.messages_sent)
      × ((queue (λ n. n)).0.messages_sent ≡ m.messages_sent)
      × ((queue increment_messages_sent).0.bytes_sent ≡ m.bytes_sent)
      × ((queue increment_telemetry_sent).0.bytes_sent ≡ m.bytes_sent)
      × ((queue (λ n. n)).0.bytes_sent ≡ m.bytes_sent)

  queue_data-Counts :
      (m : Manager k) (o : Option Bytes) → Counts m o (λ counted. queue_data counted m o)
  unfolding increment_messages_sent increment_telemetry_sent
  queue_data-Counts m none = ground arith
  queue_data-Counts m (some frame) = elim (Bool-cases (ltb (length m.send_chan) send_cap)) [
    | inl room ↦ rw room (ground arith)
    | inr full ↦ rw full (ground arith)
  ]

  send_counted-Counts :
      (m : Manager k) (msg : Outgoing k.Any)
      → Counts m (k.marshal msg) (λ counted. send_counted counted m msg)
  send_counted-Counts m msg = elim (Bool-cases (is_connected m)) [
    | inl on ↦ rw on (queue_data-Counts m (k.marshal msg))
    | inr off ↦ rw off (ground arith)
  ]

  -- What an action does to the two counters.
  abbrev Adds : Manager k → Action k → Type 0
  Adds m a =
      ((act m a).messages_sent ≈ m.messages_sent + (length (written_by m a) + responses_by m a))
      × ((act m a).bytes_sent ≈ m.bytes_sent + total (written_by m a))

  do_send-Adds : (m : Manager k) (s : Send k) → Adds m (sends s)
  unfolding send_state send_change send_telemetry_delta send_telemetry_batch send_event
      send_command_response keepalive_tick
  do_send-Adds m (state now payload) =
      let c = send_counted-Counts m (state_message payload now) in omega (arith, c.1, c.4)
  do_send-Adds m (change now changes) =
      let c = send_counted-Counts m (change_message changes now) in omega (arith, c.1, c.4)
  do_send-Adds m (telemetry_delta now changes removed) =
      let c = send_counted-Counts m (telemetry_delta_message changes removed now) in
      omega (arith, c.1, c.4)
  do_send-Adds m (telemetry_batch now snapshots) =
      let c = send_counted-Counts m (telemetry_batch_message snapshots now) in
      omega (arith, c.1, c.4)
  do_send-Adds m (event now type payload) =
      let c = send_counted-Counts m (event_message type payload now) in omega (arith, c.1, c.4)
  do_send-Adds m (command_response resp) =
      let c = send_counted-Counts m (response_message resp) in omega (arith, c.0, c.3)
  do_send-Adds m (keepalive now) =
      let c = send_counted-Counts m (keepalive_message now) in omega (arith, c.2, c.5)

  write_data-adds :
      (m : Manager k) (ok : Bool) (frame : Bytes)
      → ((write_data m ok frame).0.messages_sent
          ≈ m.messages_sent + length (written_frames (write_data m ok frame).1))
        × ((write_data m ok frame).0.bytes_sent
            ≈ m.bytes_sent + total (written_frames (write_data m ok frame).1))
  unfolding increment_messages_sent add_bytes_sent
  write_data-adds m ok frame = ground arith

  write_from-adds :
      (m : Manager k) (ok : Bool) (chan : List Bytes)
      → ((write_from m ok chan).0.messages_sent
          ≈ m.messages_sent + length (written_frames (write_from m ok chan).1))
        × ((write_from m ok chan).0.bytes_sent
            ≈ m.bytes_sent + total (written_frames (write_from m ok chan).1))
  write_from-adds m ok [] = ground arith
  write_from-adds m ok (frame ∷ rest) = write_data-adds (record m { send_chan = rest }) ok frame

  act-Adds : (m : Manager k) (a : Action k) → Adds m a
  unfolding write_step drain
  act-Adds m (sends s) = do_send-Adds m s
  act-Adds m (writes ok) = let w = write_from-adds m ok m.send_chan in (omega (arith, w.0), w.1)
  act-Adds m drains = ground arith

  -- Over any run of calls, writes and drains, up to the wrap-around of a 64-bit integer: bytes_sent
  -- grows by the length of the frames that were written, and messages_sent by the number of these
  -- frames and once more by the number of the command responses that were queued.
  pub counters-run :
      (m : Manager k) (actions : List (Action k))
      → ((run m actions).messages_sent
          ≈ m.messages_sent + (length (written m actions) + responses m actions))
        × ((run m actions).bytes_sent ≈ m.bytes_sent + total (written m actions))
  counters-run m [] = ground arith
  counters-run m (a ∷ actions) =
      let rest = counters-run (act m a) actions in
      let first = act-Adds m a in
      (
        omega (arith, rest.0, first.0, length-append (written_by m a) (written (act m a) actions)),
        omega (arith, rest.1, first.1, total-append (written_by m a) (written (act m a) actions)),
      )
