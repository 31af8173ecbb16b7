-- ===== src/Telemetry/Publisher/Sync.antt =====
-- The receiver's view follows what the publisher believes it has sent.
use uplink_service.Prelude.{
  ◌∙◌, sym, String, Bool, true, false, Option, none, some, ◌≡◌, refl, arith, is_empty, ◌&&◌,
  Bool-cases, inl, inr,
}
use uplink_service.GoMap.{GoMap, lookup, IsMap}
use uplink_service.Telemetry.Env.{Env, Snapshot}
use uplink_service.Telemetry.Delta.{flatten_state, diff_flat}
use uplink_service.Telemetry.Delta.Diff.{HasDot, merged, merged-diff_flat, empty-diff_flat}
use uplink_service.Telemetry.Delta.Flatten.{
  flatten_state-IsMap, state_leaf, IsState, lookup-flatten_state,
}
use uplink_service.Telemetry.Publisher.{
  Publisher, Sink, Message, state_message, delta_message, publish_smoothed, publish_full,
  publish_delta, or_nil, is_nil, needs_full, state_of,
}

module _ (e : Env) where
  -- The receiver: a state replaces its view, a delta is merged into it.
  abbrev pub received : Option (Message e) → (String → Option String) → String → Option String
  received none view k = view k
  received (some (state_message s)) view k = state_leaf e k s
  received (some (delta_message changes removed)) view k = merged changes removed view k

  -- The view agrees with a map at every dotted path.
  abbrev Agrees : (String → Option String) → GoMap String → Type 0
  Agrees view m = (k : String) → HasDot k → view k ≡ lookup k m

  -- If the publisher has a baseline, the receiver's view agrees with it.
  abbrev pub InSync : Option (GoMap String) → (String → Option String) → Type 0
  InSync none view = Unit {0}
  InSync (some m) view = IsMap m × Agrees view m

  full-InSync :
      (p : Publisher e) (sink : Sink) (s : Snapshot e) (vehicle : String)
      (view : String → Option String)
      → IsState e s
      → InSync p.last_sent_flat view
      → let r = publish_full e p sink s (flatten_state e s) vehicle in
        InSync r.0.last_sent_flat (received r.1.sent view)
  unfolding publish_full
  full-InSync p sink s vehicle view u i = elim (Bool-cases sink.accepts) [
    | inl y ↦ rw y (flatten_state-IsMap e s, λ k d. sym (lookup-flatten_state e s k u d))
    | inr n ↦ rw n i
  ]

  delta_sent :
      (p : Publisher e) (sink : Sink) (flat old : GoMap String) (vehicle : String)
      (view : String → Option String)
      → or_nil e p.last_sent_flat ≡ old
      → InSync p.last_sent_flat view
      → Agrees view old
      → IsMap flat
      → let r = publish_delta e p sink flat vehicle in
        InSync r.0.last_sent_flat (received r.1.sent view)
  unfolding publish_delta
  delta_sent p sink flat old vehicle view b i a u =
      rw (b, publish_delta)
        (elim (Bool-cases (is_empty (diff_flat old flat).0 && is_empty (diff_flat old flat).1)) [
          | inl nothing ↦ rw nothing i
          | inr something ↦ rw something (elim (Bool-cases sink.accepts) [
            | inl y ↦ rw y (u, λ k d. merged-diff_flat old flat view k u d (a k d))
            | inr n ↦ rw n i
          ])
        ])

  baseline-Agrees :
      (b : Option (GoMap String)) (view : String → Option String)
      → is_nil e b ≡ false
      → InSync b view
      → Agrees view (or_nil e b)
  baseline-Agrees none view h i = absurd (cc)
  baseline-Agrees (some m) view h i = i.1

  has_baseline :
      (p : Publisher e) (force_full : Bool) (vehicle : String)
      → needs_full e p force_full vehicle ≡ false
      → is_nil e p.last_sent_flat ≡ false
  unfolding needs_full
  has_baseline p force_full vehicle h = ground arith

  -- One publish keeps the receiver's view in step with the baseline, whatever the sink answers.
  pub publish_smoothed-InSync :
      (p : Publisher e) (sink : Sink) (now : String) (s : Snapshot e) (force_full : Bool)
      (view : String → Option String)
      → IsState e s
      → InSync p.last_sent_flat view
      → let r = publish_smoothed e p sink now s force_full in
        InSync r.0.last_sent_flat (received r.1.sent view)
  unfolding publish_smoothed
  publish_smoothed-InSync p sink now s force_full view u i = elim (Bool-cases sink.connected) [
    | inr off ↦ rw off tt
    | inl on ↦ rw on (elim (Bool-cases (needs_full e p force_full (state_of e s))) [
      | inl full ↦ rw full (full-InSync p sink s (state_of e s) view u i)
      | inr delta ↦ rw delta (
          delta_sent p sink (flatten_state e s) (or_nil e p.last_sent_flat) (state_of e s) view refl
            i
            (baseline-Agrees p.last_sent_flat view (has_baseline p force_full (state_of e s) delta)
              i)
            (flatten_state-IsMap e s))
    ])
  ]

  full_exact :
      (p : Publisher e) (sink : Sink) (s : Snapshot e) (vehicle : String)
      (view : String → Option String) (k : String)
      → sink.accepts ≡ true
      → received (publish_full e p sink s (flatten_state e s) vehicle).1.sent view k
        ≡ state_leaf e k s
  unfolding publish_full
  full_exact p sink s vehicle view k y = rw y refl

  delta_exact :
      (p : Publisher e) (sink : Sink) (s : Snapshot e) (vehicle : String)
      (view : String → Option String) (k : String)
      → IsState e s
      → sink.accepts ≡ true
      → view k ≡ lookup k (or_nil e p.last_sent_flat)
      → HasDot k
      → received (publish_delta e p sink (flatten_state e s) vehicle).1.sent view k
        ≡ state_leaf e k s
  unfolding publish_delta
  delta_exact p sink s vehicle view k u y a d =
      let old = or_nil e p.last_sent_flat in
      let flat = flatten_state e s in
      elim (Bool-cases (is_empty (diff_flat old flat).0 && is_empty (diff_flat old flat).1)) [
        | inl nothing ↦ rw nothing (
            empty-diff_flat old flat view k nothing (flatten_state-IsMap e s) d a
            ∙ lookup-flatten_state e s k u d)
        | inr something ↦
            rw (something, y)
              (merged-diff_flat old flat view k (flatten_state-IsMap e s) d a
                ∙ lookup-flatten_state e s k u d)
      ]

  pub publish_smoothed_exact :
      (p : Publisher e) (sink : Sink) (now : String) (s : Snapshot e) (force_full : Bool)
      (view : String → Option String) (k : String)
      → IsState e s
      → InSync p.last_sent_flat view
      → sink.connected ≡ true
      → sink.accepts ≡ true
      → HasDot k
      → received (publish_smoothed e p sink now s force_full).1.sent view k ≡ state_leaf e k s
  unfolding publish_smoothed
  publish_smoothed_exact p sink now s force_full view k u i on y d =
      rw on (elim (Bool-cases (needs_full e p force_full (state_of e s))) [
        | inl full ↦ rw full (full_exact p sink s (state_of e s) view k y)
        | inr delta ↦ rw delta (
            delta_exact p sink s (state_of e s) view k u y
              (baseline-Agrees p.last_sent_flat view
                (has_baseline p force_full (state_of e s) delta) i k d)
              d)
      ])
