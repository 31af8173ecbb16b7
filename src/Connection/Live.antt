-- ===== src/Connection/Live.antt =====
-- internal/connection/live.go: the queue of live frames, which holds one frame of each type, and
-- the receiver of the live frames of the server.
use uplink_service.Prelude.{
  ℕ, ◌+◌, String, Bool, true, false, not, ◌&&◌, ◌||◌, Option, none, some, [], ◌∷◌, ltb, leb, length,
  is_empty, is_some, if◌then◌else◌, str_eq, ◌==◌,
}
use uplink_service.GoMap.{GoMap, insert, erase}
use uplink_service.Connection.State.{
  Bytes, Socket, Codec, Manager, LiveFrame, LiveClient, is_connected, add_bytes_sent,
  increment_messages_sent, plus64, second,
}

abbrev pub same_socket : Option Socket → Option Socket → Bool
same_socket none none = true
same_socket none (some s) = false
same_socket (some s) none = false
same_socket (some s) (some t) = s == t

-- The types of frames that PublishLive admits.
abbrev pub is_live_type : String → Bool
is_live_type t =
    str_eq t "ride_group_hello"
    || str_eq t "ride_group_activity"
    || str_eq t "ride_group_position"
    || str_eq t "ride_group_source_status"
    || str_eq t "ride_group_stop"

pub data LiveError : Type 0 where
  unavailable : LiveError
  invalid_frame : LiveError
  invalid_type : LiveError
  expired : LiveError

-- The zero time is none.
abbrev pub capped_expiry : ℕ → Option ℕ → ℕ
capped_expiry now none = now + second
capped_expiry now (some expires) = if ltb (now + second) expires then now + second else expires

-- The loop of takeLive over the pending frames, in the order in which the map is iterated; none is
-- the empty key.
unfoldable pub oldest_from :
    Option (String × LiveFrame) → GoMap LiveFrame → Option (String × LiveFrame)
oldest_from best [] = best
oldest_from none ((key, frame) ∷ rest) = oldest_from (some (key, frame)) rest
oldest_from (some (bk, best)) ((key, frame) ∷ rest) =
    oldest_from (if ltb frame.order best.order then some (key, frame) else some (bk, best)) rest

abbrev pub is_receiver : LiveClient → Option LiveClient → Bool
is_receiver c none = false
is_receiver c (some r) = r.client_id == c.client_id

abbrev pub authorized : (ℕ → Bool) → Option ℕ → Bool
authorized allows none = false
authorized allows (some a) = allows a

module _ {k : Codec} where
  unfoldable pub client_is_connected : Manager k → LiveClient → Bool
  client_is_connected m c =
      is_some c.connection && same_socket m.conn c.connection && m.connected && m.authenticated

  unfoldable pub subscribe : Manager k → LiveClient → Manager k
  subscribe m c = record m { live_receiver = some c }

  unfoldable pub unsubscribe : Manager k → LiveClient → Manager k
  unsubscribe m c = if is_receiver c m.live_receiver then record m { live_receiver = none } else m

  abbrev pub new_frame : Manager k → LiveClient → Bytes → ℕ → ℕ → LiveFrame
  new_frame m c payload expires authorize = record {
    payload = payload;
    connection = c.connection;
    expires = expires;
    authorize = some authorize;
    order = plus64 m.live_order 1;
  }

  unfoldable pub queue_live : Manager k → LiveClient → String → Bytes → ℕ → ℕ → Manager k
  queue_live m c type payload expires authorize = record m {
    live_order = plus64 m.live_order 1;
    live_pending = insert type (new_frame m c payload expires authorize) m.live_pending;
  }

  -- The select that puts the token into liveWake, if there is none.
  unfoldable pub wake_live : Manager k → Manager k
  wake_live m = record m { live_wake = true }

  abbrev pub publish_typed :
      Manager k
      → LiveClient
      → Bytes
      → ℕ
      → Option ℕ
      → ℕ
      → Option String
      → Manager k × Option LiveError
  publish_typed m c payload now expires authorize none = (m, some invalid_frame)
  publish_typed m c payload now expires authorize (some type) =
      if not (is_live_type type)
      then (m, some invalid_type)
      else if leb (capped_expiry now expires) now
      then (m, some expired)
      else (queue_live m c type payload (capped_expiry now expires) authorize, none)

  -- PublishLive up to the unlocking of liveMu; a nil authorize is none.
  unfoldable pub publish_locked :
      Manager k → LiveClient → Bytes → ℕ → Option ℕ → Option ℕ → Manager k × Option LiveError
  publish_locked m c payload now expires none = (m, some unavailable)
  publish_locked m c payload now expires (some authorize) =
      if is_empty payload || ltb 1024 (length payload) || not (client_is_connected m c)
      then (m, some unavailable)
      else publish_typed m c payload now expires authorize (k.parse_header payload)

  abbrev pub then_wakes : Manager k × Option LiveError → Manager k × Option LiveError
  then_wakes (m, none) = (wake_live m, none)
  then_wakes (m, some e) = (m, some e)

  -- PublishLive when nothing comes between the lock and the select.
  unfoldable pub publish_live :
      Manager k → LiveClient → Bytes → ℕ → Option ℕ → Option ℕ → Manager k × Option LiveError
  publish_live m c payload now expires authorize =
      then_wakes (publish_locked m c payload now expires authorize)

  -- The client to which the receiver hands the frame.
  abbrev pub deliver_to : Manager k → Option LiveClient → Option LiveClient
  deliver_to m none = none
  deliver_to m (some c) = if client_is_connected m c then some c else none

  unfoldable pub deliver_live : Manager k → Bytes → Option LiveClient
  deliver_live m payload = if ltb 1024 (length payload) then none else deliver_to m m.live_receiver

  abbrev pub take_chosen : Manager k → Option (String × LiveFrame) → Manager k × Option LiveFrame
  take_chosen m none = (m, none)
  take_chosen m (some (key, frame)) =
      let rest = erase key m.live_pending in
      (
        record m { live_pending = rest; live_wake = if is_empty rest then m.live_wake else true },
        some frame,
      )

  unfoldable pub take_live : Manager k → Manager k × Option LiveFrame
  take_live m = take_chosen m (oldest_from none m.live_pending)

  unfoldable pub reset_live_queue : Manager k → Manager k
  reset_live_queue m = record m { live_pending = [] }

  -- writeLive at the times of its two tests: the state, whether the frame went out, and whether the
  -- loop goes on. A failed write closes the socket, which the read loop then reports.
  unfoldable pub write_live :
      Manager k → (ℕ → Bool) → ℕ → ℕ → Bool → LiveFrame → Manager k × Bool × Bool
  write_live m allows first_now second_now writes frame =
      if leb frame.expires first_now || not (authorized allows frame.authorize)
      then (m, false, true)
      else if not (is_some m.conn)
          || not (is_connected m)
          || not (same_socket m.conn frame.connection)
          || leb frame.expires second_now
      then (m, false, true)
      else if writes
      then (increment_messages_sent (add_bytes_sent m (length frame.payload)), true, true)
      else (m, false, false)
