-- ===== src/Tests/Connecting.antt =====
-- Runs of the connection and of its queues.
use uplink_service.Prelude.{
  ℕ, ◌+◌, ◌≤◌, ◌<◌, true, false, ◌||◌, Option, none, some, List, [], ◌∷◌, ◌++◌, ◌≡◌, refl, ◌⊎◌,
  length, is_some,
}
use uplink_service.GoMap.{lookup, insert}
use uplink_service.Connection.State.{
  Codec, Manager, LiveFrame, LiveClient, new_manager, auth_message, is_connected, add_bytes_sent,
  add_bytes_received, increment_messages_sent,
}
use uplink_service.Connection.Live.{
  publish_live, publish_locked, wake_live, queue_live, client_is_connected, take_live, write_live,
  same_socket, authorized,
}
use uplink_service.Connection.Lifecycle.{
  state, command_response, open_conn, mark_connected, authenticate, auth_answered, dialing,
  authenticating, entering, running, dials, auth_passes, enters, Reachable, starts, follows,
}
use uplink_service.Connection.Steady.{IsBounded}
use uplink_service.Connection.Phases.{IsInPhase, Reachable-IsSound}
use uplink_service.Connection.Fifo.{
  Action, sends, writes, run, accepted, taken, written, queue_is_fifo,
}
use uplink_service.Connection.Accounting.{◌≈◌, responses, total, counters-run}
use uplink_service.Connection.Backoff.{delay_after, backoff, delay_after-backoff}
use uplink_service.Connection.LiveOrder.{Takes, take_live_cases}
use uplink_service.Connection.LiveWake.{pending_is_awake, WakeReachable, IsAwake}
use uplink_service.Connection.LiveWake
use uplink_service.Connection.LiveGuards.{Queued, publish_live-Queued, write_live_guards}

abbrev authority : Option ℕ
authority = some 9

-- Every message is two bytes, and every text that comes in is a position or a success.
abbrev codec : Codec
codec = record {
  Any = ℕ;
  marshal = λ msg. some (1 ∷ 2 ∷ []);
  parse_type = λ bytes. some "ride_group_position";
  parse_header = λ bytes. some "ride_group_position";
  parse_auth_response = λ bytes. some (record { status = "success"; error = "" });
  parse_command = λ bytes. none;
  parse_config_update = λ bytes. none;
}

abbrev dialed : Manager codec
unfolding new_manager open_conn
dialed = open_conn (new_manager codec) 7

abbrev online : Manager codec
unfolding mark_connected authenticate
online =
    mark_connected
      (authenticate dialed (auth_message "1" "scooter" "token" "now") (auth_answered (3 ∷ []))).0 50

online-Reachable : Reachable 300 running online
unfolding authenticate add_bytes_sent open_conn dialed mark_connected online
online-Reachable =
    follows entering _ running online
      (follows authenticating dialed entering _
        (follows dialing (new_manager codec) authenticating dialed starts
          (dials (new_manager codec) 7))
        (auth_passes dialed "1" "scooter" "token" "now" (auth_answered (3 ∷ [])) refl))
      (enters _ 50)

Reachable-IsSound_example : IsInPhase running online × IsBounded online
Reachable-IsSound_example = Reachable-IsSound 300 running online online-Reachable

abbrev actions : List (Action codec)
actions =
    sends (state "now" [])
    ∷ sends (
        command_response (record {
          request_id = "r";
          status = "success";
          result = [];
          error = "";
          timestamp = "now";
        }))
    ∷ writes true
    ∷ []

queue_is_fifo_example :
    online.send_chan ++ accepted online actions
    ≡ taken online actions ++ (run online actions).send_chan
queue_is_fifo_example = queue_is_fifo online actions

counters-run_example :
    ((run online actions).messages_sent
      ≈ online.messages_sent + (length (written online actions) + responses online actions))
    × ((run online actions).bytes_sent ≈ online.bytes_sent + total (written online actions))
counters-run_example = counters-run online actions

delay_after-backoff_example :
    delay_after 300000000000 4 (mark_connected online 60) ≡ backoff 300000000000 4
delay_after-backoff_example = delay_after-backoff 300000000000 4 online 60

abbrev client : LiveClient
client = record { client_id = 1; connection = some 7 }

abbrev published : Manager codec
unfolding publish_live queue_live
published = (publish_live online client (5 ∷ []) 100 none authority).0

take_live_cases_example :
    ((published.live_pending ≡ []) × (take_live published ≡ (published, none))) ⊎ Takes published
unfolding publish_live queue_live client_is_connected online published add_bytes_received
    add_bytes_sent dialed lookup open_conn mark_connected authenticate new_manager insert
    publish_locked wake_live
take_live_cases_example = take_live_cases published (refl, tt)

publish_live-Queued_example :
    (1 ≤ 1)
    × (1 ≤ 1024)
    × (is_some authority ≡ true)
    × (client_is_connected online client ≡ true)
    × Queued online (publish_live online client (5 ∷ []) 100 none authority).0 client (5 ∷ []) 100
unfolding publish_live client_is_connected online add_bytes_received add_bytes_sent dialed
    publish_locked
publish_live-Queued_example = publish_live-Queued online client (5 ∷ []) 100 none authority refl

abbrev frame : LiveFrame
frame = record {
  payload = 5 ∷ [];
  connection = some 7;
  expires = 200;
  authorize = authority;
  order = 1;
}

write_live_guards_example :
    (((write_live online (λ a. true) 100 150 true frame).1 ≡ false)
      × ((write_live online (λ a. true) 100 150 true frame).0 ≡ online))
    ⊎ (((write_live online (λ a. true) 100 150 true frame).1 ≡ true)
        × (100 < 200)
        × (150 < 200)
        × (authorized (λ a. true) authority ≡ true)
        × (is_connected online ≡ true)
        × (is_some online.conn ≡ true)
        × (same_socket online.conn (some 7) ≡ true)
        × ((write_live online (λ a. true) 100 150 true frame).0
            ≡ increment_messages_sent (add_bytes_sent online 1)))
write_live_guards_example = write_live_guards online (λ a. true) 100 150 true frame

-- Two publishers have inserted their frames, and one of them has sent the token.
abbrev inserted : Manager codec
inserted = queue_live online client "ride_group_position" (5 ∷ []) 200 9

abbrev inserted_twice : Manager codec
inserted_twice = queue_live inserted client "ride_group_stop" (6 ∷ []) 200 9

inserted-WakeReachable : WakeReachable (wake_live inserted_twice) false 1
unfolding mark_connected authenticate add_bytes_received add_bytes_sent online dialed open_conn
    new_manager
inserted-WakeReachable =
    LiveWake.follows inserted_twice false 2 (wake_live inserted_twice) false 1
      (LiveWake.follows inserted false 1 inserted_twice false 2
        (LiveWake.follows online false 0 inserted false 1
          (LiveWake.follows (new_manager codec) false 0 online false 0 LiveWake.starts
            (LiveWake.elsewhere (new_manager codec) online false 0 refl refl))
          (LiveWake.inserts online false 0 client "ride_group_position" (5 ∷ []) 200 9))
        (LiveWake.inserts inserted false 1 client "ride_group_stop" (6 ∷ []) 200 9))
      (LiveWake.wakes inserted_twice false 1)

pending_is_awake_example : ((wake_live inserted_twice).live_wake || false || true) ≡ true
unfolding queue_live wake_live insert online add_bytes_received add_bytes_sent dialed
pending_is_awake_example =
    pending_is_awake (wake_live inserted_twice) false 1 inserted-WakeReachable refl
