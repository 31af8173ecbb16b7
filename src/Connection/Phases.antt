-- ===== src/Connection/Phases.antt =====
-- What holds of every state that the connection can reach.
use uplink_service.Prelude.{
  length, ap, ℕ, Bool, true, false, Option, none, some, ◌≡◌, refl, arith, is_some, Bool-cases, inl,
  inr, ◌⊎◌, str_eq,
}
use uplink_service.Connection.State.{
  Bytes, Codec, Manager, Outgoing, auth_message, AuthResponse, new_manager, add_bytes_sent,
  add_bytes_received,
}
use uplink_service.Connection.Loops.{queue_command, read_step, write_step, drain}
use uplink_service.Connection.Live.{
  subscribe, unsubscribe, queue_live, wake_live, take_live, write_live, reset_live_queue,
}
use uplink_service.Connection.Lifecycle.{
  AuthAnswer, auth_write_failed, auth_read_failed, auth_answered, Phase, dialing, authenticating,
  entering, running, retrying, do_send, check_response, auth_send, authenticate, open_conn,
  drop_conn, mark_connected, mark_disconnected, get_retry_delay, Step, dial_fails, dials,
  auth_fails, auth_passes, enters, reads, places, writes, drains, takes, writes_live, closes,
  waits_out, sends, publishes, wakes, receives_wake, receives_command, receives_config,
  receives_connected, subscribes, unsubscribes, Reachable, starts, follows,
}
use uplink_service.Connection.Steady.{
  IsBounded, Keeps, Keeps-refl, do_send-Keeps, read_step-Keeps, queue_command-Keeps,
  write_step-Keeps, queue_live-Keeps, take_live-Keeps, write_live-Keeps, unsubscribe-Keeps,
}

module _ {k : Codec} where
  -- What the flags and the connection are in each phase of connectionLoop.
  abbrev pub IsInPhase : Phase → Manager k → Type 0
  IsInPhase dialing m = (m.conn ≡ none) × (m.connected ≡ false) × (m.authenticated ≡ false)
  IsInPhase authenticating m =
      (is_some m.conn ≡ true) × (m.connected ≡ false) × (m.authenticated ≡ false)
  IsInPhase entering m = (is_some m.conn ≡ true) × (m.connected ≡ false) × (m.authenticated ≡ true)
  IsInPhase running m = (is_some m.conn ≡ true) × (m.connected ≡ true) × (m.authenticated ≡ true)
  IsInPhase retrying m = (m.conn ≡ none) × (m.connected ≡ m.authenticated)

  Keeps-IsInPhase : (p : Phase) (m m' : Manager k) → Keeps m m' → IsInPhase p m → IsInPhase p m'
  Keeps-IsInPhase dialing m m' h i = ground arith
  Keeps-IsInPhase authenticating m m' h i = ground arith
  Keeps-IsInPhase entering m m' h i = ground arith
  Keeps-IsInPhase running m m' h i = ground arith
  Keeps-IsInPhase retrying m m' h i = ground arith

  -- A failed exchange leaves the connection and the flags; a successful one sets the last flag.
  abbrev AuthCases : Manager k → Manager k × Bool → Type 0
  AuthCases m r =
      ((r.1 ≡ false) × Keeps m r.0)
      ⊎ ((r.1 ≡ true)
          × (r.0.authenticated ≡ true)
          × (r.0.conn ≡ m.conn)
          × (r.0.connected ≡ m.connected)
          × (IsBounded m → IsBounded r.0))

  check_response_cases :
      (m : Manager k) (o : Option (AuthResponse k.Any)) → AuthCases m (check_response m o)
  check_response_cases m none = inl (refl, Keeps-refl m)
  check_response_cases m (some resp) = elim (Bool-cases (str_eq resp.status "success")) [
    | inl good ↦ simp good (inr (refl, refl, refl, refl, λ h. h))
    | inr bad ↦ simp bad (inl (refl, Keeps-refl m))
  ]

  auth_send_cases :
      (m : Manager k) (o : Option Bytes) (answer : AuthAnswer) → AuthCases m (auth_send m o answer)
  unfolding add_bytes_sent add_bytes_received
  auth_send_cases m none answer = inl (refl, Keeps-refl m)
  auth_send_cases m (some payload) auth_write_failed = inl (refl, Keeps-refl m)
  auth_send_cases m (some payload) auth_read_failed = inl (refl, Keeps-refl m)
  auth_send_cases m (some payload) (auth_answered message) =
      check_response_cases _ (k.parse_auth_response message)

  authenticate_cases :
      (m : Manager k) (msg : Outgoing k.Any) (answer : AuthAnswer)
      → AuthCases m (authenticate m msg answer)
  unfolding authenticate
  authenticate_cases m msg answer = auth_send_cases m (k.marshal msg) answer

  abbrev pub IsSound : Phase → Manager k → Type 0
  IsSound p m = IsInPhase p m × IsBounded m

  Keeps-IsSound : (p : Phase) (m m' : Manager k) → IsSound p m → Keeps m m' → IsSound p m'
  Keeps-IsSound p m m' s h = (Keeps-IsInPhase p m m' h s.0, ground arith)

  auth_fails-IsSound :
      (m : Manager k) (r : Manager k × Bool)
      → IsSound authenticating m
      → AuthCases m r
      → r.1 ≡ false
      → IsSound retrying (drop_conn r.0)
  unfolding drop_conn
  auth_fails-IsSound m r s (inl c) h = ground arith
  auth_fails-IsSound m r s (inr c) h = absurd (ground arith)

  auth_passes-IsSound :
      (m : Manager k) (r : Manager k × Bool)
      → IsSound authenticating m
      → AuthCases m r
      → r.1 ≡ true
      → IsSound entering r.0
  auth_passes-IsSound m r s (inl c) h = absurd (ground arith)
  auth_passes-IsSound m r s (inr c) h = ground arith

  Step-IsSound :
      (max_delay : ℕ) (p : Phase) (m : Manager k) (p' : Phase) (m' : Manager k)
      → Step max_delay p m p' m'
      → IsSound p m
      → IsSound p' m'
  unfolding open_conn drop_conn mark_connected mark_disconnected get_retry_delay drain subscribe
      wake_live reset_live_queue
  Step-IsSound max_delay _ m _ _ (dial_fails _) s = ground arith
  Step-IsSound max_delay _ m _ _ (dials _ conn) s = ground arith
  Step-IsSound max_delay _ m _ _ (auth_fails _ version identifier token now answer h) s =
      (let msg = auth_message version identifier token now in
        auth_fails-IsSound m (authenticate m msg answer) s (authenticate_cases m msg answer) h)
  Step-IsSound max_delay _ m _ _ (auth_passes _ version identifier token now answer h) s =
      (let msg = auth_message version identifier token now in
        auth_passes-IsSound m (authenticate m msg answer) s (authenticate_cases m msg answer) h)
  Step-IsSound max_delay _ m _ _ (enters _ now) s = ground arith
  Step-IsSound max_delay _ m _ _ (reads _ now result) s =
      Keeps-IsSound running m (read_step m now result).0 s (read_step-Keeps m now result)
  Step-IsSound max_delay _ m _ _ (places _ cmd) s =
      Keeps-IsSound running m (queue_command m cmd).0 s (queue_command-Keeps m cmd)
  Step-IsSound max_delay _ m _ _ (writes _ ok) s =
      Keeps-IsSound running m (write_step m ok).0 s (write_step-Keeps m ok)
  Step-IsSound max_delay _ m _ _ (drains _) s = ground arith
  Step-IsSound max_delay _ m _ _ (receives_wake _ h) s = s
  Step-IsSound max_delay p m _ _ (wakes _ _) s = Keeps-IsSound p m (wake_live m) s (Keeps-refl m)
  Step-IsSound max_delay p m _ _ (receives_command _ _ cmd rest h) s =
      Keeps-IsSound p m (record m { cmd_chan = rest }) s (ground (arith, ap length h))
  Step-IsSound max_delay p m _ _ (receives_config _ _ cfg rest h) s =
      Keeps-IsSound p m (record m { config_chan = rest }) s (ground (arith, ap length h))
  Step-IsSound max_delay p m _ _ (receives_connected _ _ h) s =
      Keeps-IsSound p m (record m { connected_ch = false }) s (Keeps-refl m)
  Step-IsSound max_delay _ m _ _ (takes _) s =
      Keeps-IsSound running m (take_live m).0 s (take_live-Keeps m)
  Step-IsSound max_delay _ m _ _ (writes_live _ allows first_now second_now ok f) s =
      Keeps-IsSound running m (write_live m allows first_now second_now ok f).0 s
        (write_live-Keeps m allows first_now second_now ok f)
  Step-IsSound max_delay _ m _ _ (closes _) s = ground arith
  Step-IsSound max_delay _ m _ _ (waits_out _) s = ground arith
  Step-IsSound max_delay p m _ _ (sends _ _ x) s =
      Keeps-IsSound p m (do_send m x).0 s (do_send-Keeps m x)
  Step-IsSound max_delay p m _ _ (publishes _ _ c type payload expires authorize) s =
      Keeps-IsSound p m (queue_live m c type payload expires authorize) s
        (queue_live-Keeps m c type payload expires authorize)
  Step-IsSound max_delay p m _ _ (subscribes _ _ c) s =
      Keeps-IsSound p m (subscribe m c) s (Keeps-refl m)
  Step-IsSound max_delay p m _ _ (unsubscribes _ _ c) s =
      Keeps-IsSound p m (unsubscribe m c) s (unsubscribe-Keeps m c)

  -- In every state that can be reached, for every configured maximum of the delay, the flags and the
  -- socket are those of the phase: there is a socket exactly from dialing to closing, the service
  -- counts as authenticated only behind a successful exchange and as connected only behind that;
  -- and no channel holds more than its capacity.
  pub Reachable-IsSound :
      (max_delay : ℕ) (p : Phase) (m : Manager k)
      → Reachable max_delay p m
      → IsInPhase p m × IsBounded m
  unfolding new_manager
  Reachable-IsSound max_delay _ _ starts = ground arith
  Reachable-IsSound max_delay _ _ (follows p m p' m' r step) =
      Step-IsSound max_delay p m p' m' step (Reachable-IsSound max_delay p m r)
