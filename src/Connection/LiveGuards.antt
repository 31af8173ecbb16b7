-- ===== src/Connection/LiveGuards.antt =====
-- What must hold before a live frame is queued, and before it is written.
use uplink_service.Prelude.{
  sym, ◌∙◌, ℕ, ◌+◌, ◌≤◌, ◌<◌, String, Bool, true, false, not, ◌||◌, Option, none, some, ◌≡◌, refl,
  arith, length, is_empty, is_some, Bool-cases, inl, inr, ◌⊎◌, [], ◌∷◌, ltb, leb, str_eq,
  str_eq_self,
}
use uplink_service.GoMap.{lookup, lookup-insert}
use uplink_service.Connection.State.{
  Bytes, Codec, Manager, LiveFrame, LiveClient, is_connected, add_bytes_sent,
  increment_messages_sent,
}
use uplink_service.Connection.Live.{
  publish_live, publish_locked, then_wakes, wake_live, LiveError, publish_typed, queue_live,
  new_frame, client_is_connected, is_live_type, capped_expiry, write_live, same_socket, authorized,
}

capped_expiry-bound : (now : ℕ) (e : Option ℕ) → capped_expiry now e ≤ now + 1000000000
capped_expiry-bound now none = omega arith
capped_expiry-bound now (some e) = ground arith

module _ {k : Codec} where
  -- A frame that PublishLive queued: its type, and what stands in the queue for it.
  pub record Queued (m m' : Manager k) (c : LiveClient) (payload : Bytes) (now : ℕ) : Type 0 where
    pub type : String
    pub frame : LiveFrame
    pub parsed : k.parse_header payload ≡ some type
    pub live_type : is_live_type type ≡ true
    pub held : lookup type m'.live_pending ≡ some frame
    pub same_payload : frame.payload ≡ payload
    pub same_connection : frame.connection ≡ c.connection
    pub expires_later : now < frame.expires
    pub expires_soon : frame.expires ≤ now + 1000000000
    pub others :
        (j : String) → str_eq type j ≡ false → lookup j m'.live_pending ≡ lookup j m.live_pending

  queue_live-Queued :
      (m : Manager k) (c : LiveClient) (payload : Bytes) (now : ℕ) (expires : Option ℕ)
      (authorize : ℕ) (type : String)
      → k.parse_header payload ≡ some type
      → is_live_type type ≡ true
      → leb (capped_expiry now expires) now ≡ false
      → Queued m (queue_live m c type payload (capped_expiry now expires) authorize) c payload now
  unfolding queue_live
  queue_live-Queued m c payload now expires authorize type parsed live soon = record {
    type = type;
    frame = new_frame m c payload (capped_expiry now expires) authorize;
    parsed = parsed;
    live_type = live;
    held =
        rw
          (lookup-insert type type (new_frame m c payload (capped_expiry now expires) authorize)
            m.live_pending)
          (rw (str_eq_self type) refl);
    same_payload = refl;
    same_connection = refl;
    expires_later = ground arith;
    expires_soon = capped_expiry-bound now expires;
    others = λ j other.
        rw
          (lookup-insert type j (new_frame m c payload (capped_expiry now expires) authorize)
            m.live_pending)
          (rw other refl);
  }

  publish_typed-Queued :
      (m : Manager k) (c : LiveClient) (payload : Bytes) (now : ℕ) (expires : Option ℕ)
      (authorize : ℕ) (o : Option String)
      → k.parse_header payload ≡ o
      → (publish_typed m c payload now expires authorize o).1 ≡ none
      → Queued m (publish_typed m c payload now expires authorize o).0 c payload now
  publish_typed-Queued m c payload now expires authorize none parsed h = absurd (cc)
  publish_typed-Queued m c payload now expires authorize (some type) parsed h =
      elim (Bool-cases (is_live_type type)) [
        | inr other ↦ absurd (ground arith)
        | inl live ↦ elim (Bool-cases (leb (capped_expiry now expires) now)) [
          | inl late ↦ absurd (ground arith)
          | inr soon ↦
              rw live (
                rw soon (queue_live-Queued m c payload now expires authorize type parsed live soon))
        ]
      ]

  publish_locked-Queued :
      (m : Manager k) (c : LiveClient) (payload : Bytes) (now : ℕ) (expires authorize : Option ℕ)
      → (publish_locked m c payload now expires authorize).1 ≡ none
      → (1 ≤ length payload)
        × (length payload ≤ 1024)
        × (is_some authorize ≡ true)
        × (client_is_connected m c ≡ true)
        × Queued m (publish_locked m c payload now expires authorize).0 c payload now
  unfolding publish_locked
  publish_locked-Queued m c payload now expires none h = absurd (cc)
  publish_locked-Queued m c payload now expires (some a) h =
      elim (Bool-cases
        (is_empty payload || ltb 1024 (length payload) || not (client_is_connected m c))) [
          | inl barred ↦ absurd (ground arith)
          | inr open_to ↦ (
            nonempty payload (ground arith),
            ground arith,
            refl,
            ground arith,
            rw open_to (
                publish_typed-Queued m c payload now expires a (k.parse_header payload) refl
                  (ground arith)),
          )
        ]
    where
      nonempty : (xs : Bytes) → is_empty xs ≡ false → 1 ≤ length xs
      nonempty [] e = absurd (cc)
      nonempty (x ∷ xs) e = omega arith

  -- Waking the write loop leaves the pending frames.
  then_wakes-Queued :
      (m : Manager k) (r : Manager k × Option LiveError) (c : LiveClient) (payload : Bytes)
      (now : ℕ)
      → Queued m r.0 c payload now
      → Queued m (then_wakes r).0 c payload now
  unfolding wake_live
  then_wakes-Queued m (m', some e) c payload now q = q
  then_wakes-Queued m (m', none) c payload now q = record {
    type = q.type;
    frame = q.frame;
    parsed = q.parsed;
    live_type = q.live_type;
    held = q.held;
    same_payload = q.same_payload;
    same_connection = q.same_connection;
    expires_later = q.expires_later;
    expires_soon = q.expires_soon;
    others = q.others;
  }

  then_wakes-error : (r : Manager k × Option LiveError) → (then_wakes r).1 ≡ r.1
  then_wakes-error (m, none) = refl
  then_wakes-error (m, some e) = refl

  -- A call of PublishLive without an error had a frame of 1 to 1024 bytes with one of the five
  -- types, an authorization and a client of the current, authenticated connection. Its frame then
  -- stands in the queue in place of an older one of its type, with an expiry of at most a second;
  -- the frames of the other types are as before.
  pub publish_live-Queued :
      (m : Manager k) (c : LiveClient) (payload : Bytes) (now : ℕ) (expires authorize : Option ℕ)
      → (publish_live m c payload now expires authorize).1 ≡ none
      → (1 ≤ length payload)
        × (length payload ≤ 1024)
        × (is_some authorize ≡ true)
        × (client_is_connected m c ≡ true)
        × Queued m (publish_live m c payload now expires authorize).0 c payload now
  unfolding publish_live
  publish_live-Queued m c payload now expires authorize h =
      let r = publish_locked m c payload now expires authorize in
      let (nonempty, short, allowed, up, queued) =
        publish_locked-Queued m c payload now expires authorize (sym (then_wakes-error r) ∙ h) in
      (nonempty, short, allowed, up, then_wakes-Queued m r c payload now queued)

  -- A live frame goes out only if both tests of the time come before its expiry, its authorization
  -- holds, and the socket is the one that it was queued for, on an authenticated connection; only
  -- then does the manager change, and it counts the frame and its bytes.
  pub write_live_guards :
      (m : Manager k) (allows : ℕ → Bool) (first_now second_now : ℕ) (ok : Bool) (f : LiveFrame)
      → (((write_live m allows first_now second_now ok f).1 ≡ false)
          × ((write_live m allows first_now second_now ok f).0 ≡ m))
        ⊎ (((write_live m allows first_now second_now ok f).1 ≡ true)
            × (first_now < f.expires)
            × (second_now < f.expires)
            × (authorized allows f.authorize ≡ true)
            × (is_connected m ≡ true)
            × (is_some m.conn ≡ true)
            × (same_socket m.conn f.connection ≡ true)
            × ((write_live m allows first_now second_now ok f).0
                ≡ increment_messages_sent (add_bytes_sent m (length f.payload))))
  unfolding write_live
  write_live_guards m allows first_now second_now ok f = ground arith
