-- ===== src/Telemetry/Publisher/Resync.antt =====
-- Runs of the publisher: the receiver stays in step, and full states are never far apart.
use uplink_service.Prelude.{
  ℕ, suc, ◌<◌, String, Bool, true, false, ◌&&◌, Option, none, some, List, [], ◌∷◌, ◌≡◌, refl, arith,
  sym, subst, Bool-cases, inl, inr, is_empty,
}
use uplink_service.GoMap.{GoMap}
use uplink_service.Telemetry.Env.{Env, Snapshot}
use uplink_service.Telemetry.Delta.{flatten_state, diff_flat}
use uplink_service.Telemetry.Delta.Diff.{HasDot}
use uplink_service.Telemetry.Delta.Flatten.{IsState, state_leaf}
use uplink_service.Telemetry.Publisher.{
  Publisher, Sink, Message, state_message, delta_message, publish, publish_smoothed, publish_full,
  publish_delta, needs_full, reset_baseline, smooth_parked_gps, state_of, or_nil,
}
use uplink_service.Telemetry.Publisher.Sync.{
  received, InSync, publish_smoothed-InSync, publish_smoothed_exact,
}
use uplink_service.Telemetry.Publisher.Parked.{
  smooth_parked_gps-IsState, smooth_parked_gps-baseline,
}

module _ (e : Env) where
  -- A publish that the sink accepts brings the receiver to the reported state at every dotted
  -- path, also when nothing had to be sent.
  pub publish_exact :
      (p : Publisher e) (sink : Sink) (now : String) (s : Snapshot e) (force_full : Bool)
      (view : String → Option String) (k : String)
      → IsState e s
      → InSync e p.last_sent_flat view
      → sink.connected ≡ true
      → sink.accepts ≡ true
      → HasDot k
      → received e (publish e p sink now s force_full).1.sent view k
        ≡ state_leaf e k (smooth_parked_gps e p s).1
  unfolding publish
  publish_exact p sink now s force_full view k u i on y d =
      let (q, reported) = smooth_parked_gps e p s in
      publish_smoothed_exact e q sink now reported force_full view k
        (smooth_parked_gps-IsState e p s u)
        (subst (λ b. InSync e b view) (sym (smooth_parked_gps-baseline e p s).0) i) on y d

  pub publish-InSync :
      (p : Publisher e) (sink : Sink) (now : String) (s : Snapshot e) (force_full : Bool)
      (view : String → Option String)
      → IsState e s
      → InSync e p.last_sent_flat view
      → let r = publish e p sink now s force_full in
        InSync e r.0.last_sent_flat (received e r.1.sent view)
  unfolding publish
  publish-InSync p sink now s force_full view u i =
      let (q, reported) = smooth_parked_gps e p s in
      publish_smoothed-InSync e q sink now reported force_full view
        (smooth_parked_gps-IsState e p s u)
        (subst (λ b. InSync e b view) (sym (smooth_parked_gps-baseline e p s).0) i)

  -- The calls that reach a publisher: Publish with the sink's answers, and ResetBaseline, which
  -- a reconnect makes.
  pub data Call : Type 0 where
    publishes : Sink → String → Snapshot e → Bool → Call
    resets : Call

  abbrev pub IsCall : Call → Type 0
  IsCall (publishes sink now s force_full) = IsState e s
  IsCall resets = Unit {0}

  abbrev pub AllCalls : List Call → Type 0
  AllCalls [] = Unit {0}
  AllCalls (c ∷ cs) = IsCall c × AllCalls cs

  unfoldable pub step : Publisher e → Call → Publisher e × Option (Message e)
  step p (publishes sink now s force_full) =
      let (q, o) = publish e p sink now s force_full in (q, o.sent)
  step p resets = (reset_baseline e p, none)

  -- The publisher and the receiver's view after a run.
  unfoldable pub run :
      Publisher e → (String → Option String) → List Call → Publisher e × (String → Option String)
  run p view [] = (p, view)
  run p view (c ∷ cs) = let (q, m) = step p c in run q (received e m view) cs

  step-InSync :
      (p : Publisher e) (c : Call) (view : String → Option String)
      → IsCall c
      → InSync e p.last_sent_flat view
      → InSync e (step p c).0.last_sent_flat (received e (step p c).1 view)
  unfolding step reset_baseline
  step-InSync p (publishes sink now s force_full) view u i =
      publish-InSync p sink now s force_full view u i
  step-InSync p resets view u i = tt

  -- After any run of calls the receiver's view agrees with the publisher's baseline, if it has one.
  pub run-InSync :
      (p : Publisher e) (view : String → Option String) (cs : List Call)
      → AllCalls cs
      → InSync e p.last_sent_flat view
      → InSync e (run p view cs).0.last_sent_flat (run p view cs).1
  unfolding run
  run-InSync p view [] u i = i
  run-InSync p view (c ∷ cs) u i =
      run-InSync (step p c).0 (received e (step p c).1 view) cs u.1 (step-InSync p c view u.0 i)

  abbrev cons_message : Option (Message e) → List (Message e) → List (Message e)
  cons_message none ms = ms
  cons_message (some m) ms = m ∷ ms

  -- The messages that a run hands over, in order.
  unfoldable pub messages : Publisher e → List Call → List (Message e)
  messages p [] = []
  messages p (c ∷ cs) = cons_message (step p c).1 (messages (step p c).0 cs)

  -- At most twenty deltas stand between two full states, when n stand before the list.
  abbrev pub IsSpaced : ℕ → List (Message e) → Type 0
  IsSpaced n [] = Unit {0}
  IsSpaced n (state_message s ∷ ms) = IsSpaced 0 ms
  IsSpaced n (delta_message c r ∷ ms) = (n < 20) × IsSpaced (suc n) ms

  -- What one call adds: the counter of the deltas follows the message.
  abbrev Counts : ℕ → Option (Message e) → ℕ → Type 0
  Counts n none n' = n' ≡ n
  Counts n (some (state_message s)) n' = n' ≡ 0
  Counts n (some (delta_message c r)) n' = (n < 20) × (n' ≡ suc n)

  full-Counts :
      (p : Publisher e) (sink : Sink) (s : Snapshot e) (flat : GoMap String) (vehicle : String)
      → let r = publish_full e p sink s flat vehicle in
        Counts p.flushes_since_full r.1.sent r.0.flushes_since_full
  unfolding publish_full
  full-Counts p sink s flat vehicle = elim (Bool-cases sink.accepts) [
    | inl y ↦ rw y refl
    | inr n ↦ rw n refl
  ]

  delta-Counts :
      (p : Publisher e) (sink : Sink) (flat : GoMap String) (vehicle : String)
      → p.flushes_since_full < 20
      → let r = publish_delta e p sink flat vehicle in
        Counts p.flushes_since_full r.1.sent r.0.flushes_since_full
  unfolding publish_delta
  delta-Counts p sink flat vehicle few =
      let old = or_nil e p.last_sent_flat in
      elim (Bool-cases (is_empty (diff_flat old flat).0 && is_empty (diff_flat old flat).1)) [
        | inl nothing ↦ rw nothing refl
        | inr something ↦
            rw something
              (elim (Bool-cases sink.accepts) [ inl y ↦ rw y (few, refl) | inr n ↦ rw n refl ])
      ]

  few_deltas :
      (p : Publisher e) (force_full : Bool) (vehicle : String)
      → needs_full e p force_full vehicle ≡ false
      → p.flushes_since_full < 20
  unfolding needs_full
  few_deltas p force_full vehicle h = ground arith

  smoothed-Counts :
      (p : Publisher e) (sink : Sink) (now : String) (s : Snapshot e) (force_full : Bool)
      → let r = publish_smoothed e p sink now s force_full in
        Counts p.flushes_since_full r.1.sent r.0.flushes_since_full
  unfolding publish_smoothed
  smoothed-Counts p sink now s force_full = elim (Bool-cases sink.connected) [
    | inr off ↦ rw off refl
    | inl on ↦ rw on (elim (Bool-cases (needs_full e p force_full (state_of e s))) [
      | inl full ↦ rw full (full-Counts p sink s (flatten_state e s) (state_of e s))
      | inr delta ↦ rw delta (
          delta-Counts p sink (flatten_state e s) (state_of e s)
            (few_deltas p force_full (state_of e s) delta))
    ])
  ]

  step-Counts :
      (p : Publisher e) (c : Call)
      → Counts p.flushes_since_full (step p c).1 (step p c).0.flushes_since_full
  unfolding step reset_baseline publish
  step-Counts p resets = refl
  step-Counts p (publishes sink now s force_full) =
      let (q, reported) = smooth_parked_gps e p s in
      let r = publish_smoothed e q sink now reported force_full in
      subst (λ n. Counts n r.1.sent r.0.flushes_since_full) (smooth_parked_gps-baseline e p s).1
        (smoothed-Counts q sink now reported force_full)

  Counts-IsSpaced :
      (n n' : ℕ) (m : Option (Message e)) (ms : List (Message e))
      → Counts n m n'
      → IsSpaced n' ms
      → IsSpaced n (cons_message m ms)
  Counts-IsSpaced n n' none ms c h = subst (λ k. IsSpaced k ms) c h
  Counts-IsSpaced n n' (some (state_message s)) ms c h = subst (λ k. IsSpaced k ms) c h
  Counts-IsSpaced n n' (some (delta_message d r)) ms c h = (c.0, subst (λ k. IsSpaced k ms) c.1 h)

  -- In every run, of any calls and any answers of the sink, full states are at most twenty deltas
  -- apart.
  pub messages-IsSpaced :
      (p : Publisher e) (cs : List Call) → IsSpaced p.flushes_since_full (messages p cs)
  unfolding messages
  messages-IsSpaced p [] = tt
  messages-IsSpaced p (c ∷ cs) =
      Counts-IsSpaced p.flushes_since_full (step p c).0.flushes_since_full (step p c).1
        (messages (step p c).0 cs) (step-Counts p c) (messages-IsSpaced (step p c).0 cs)
