-- ===== src/Telemetry/Buffer.antt =====
-- internal/telemetry/buffer.go: the snapshots of an offline period, kept until one batch with all of
-- them was accepted.
pub mod Subsample
pub mod Bounded
pub mod Drain
use uplink_service.Prelude.{
  ℕ, suc, ◌+◌, ◌/◌, String, Bool, true, false, not, ◌||◌, ◌&&◌, Option, none, some, List, [], ◌∷◌,
  ◌++◌, str_eq, if◌then◌else◌, ltb, leb, is_empty, length, ◌≡◌, ◌≢◌,
}
use uplink_service.Timeutil.{Clock, Moment, is_relative, reproject}

pub record BufferedSnapshot (D : Type 0) : Type 0 where
  pub snapshot : D
  pub timestamp : String
  pub session : String

-- protocol.TelemetrySnapshot
pub record TelemetrySnapshot (D : Type 0) : Type 0 where
  pub snapshot : D
  pub timestamp : String

-- A configured size that is negative acts like zero.
pub record BufferConfig : Type 0 where
  pub enabled : Bool
  pub max_size : ℕ
  pub persist_path : String

-- The contents of the Redis key and of the file at persist_path, if there are any.
pub record Store : Type 0 where
  pub redis : Option String
  pub disk : Option String

pub record Buffer (D : Type 0) : Type 0 where
  pub cfg : BufferConfig
  pub has_client : Bool
  pub items : List (BufferedSnapshot D)
  pub store : Store

-- Which of the effects outside the process succeed during one call.
pub record Outside : Type 0 where
  pub redis_sets : Bool
  pub redis_gets : Bool
  pub disk_writes : Bool
  pub disk_reads : Bool

-- encoding/json on the item list: what is encoded is read back, and no encoding is empty.
pub record Codec (D : Type 0) : Type 0 where
  pub marshal : List (BufferedSnapshot D) → Option String
  pub unmarshal : String → Option (List (BufferedSnapshot D))
  pub unmarshal-marshal :
      (items : List (BufferedSnapshot D)) (s : String)
      → marshal items ≡ some s
      → unmarshal s ≡ some items
  pub marshal-ne-empty :
      (items : List (BufferedSnapshot D)) (s : String) → marshal items ≡ some s → s ≢ ""

-- The loop of subsample over the entries between the first and the last: every other one, from the
-- first of them.
unfoldable pub every_other {ℓ} : {A : Type ℓ} → List A → List A
every_other [] = []
every_other (x ∷ []) = []
every_other (x ∷ y ∷ []) = x ∷ []
every_other (x ∷ y ∷ z ∷ rest) = x ∷ every_other (z ∷ rest)

abbrev pub last_of {ℓ} : {A : Type ℓ} → A → List A → A
last_of x [] = x
last_of x (y ∷ ys) = last_of y ys

unfoldable pub subsample {ℓ} : {A : Type ℓ} → List A → List A
unfolding every_other
subsample [] = []
subsample (x ∷ []) = x ∷ []
subsample (x ∷ y ∷ []) = x ∷ y ∷ []
subsample (x ∷ y ∷ z ∷ rest) = x ∷ every_other (y ∷ z ∷ rest) ++ last_of z rest ∷ []

module _ {D : Type 0} (codec : Codec D) where
  abbrev pub written : Bool → Option String → String → Option String
  written true old s = some s
  written false old s = old

  unfoldable pub persist_text : Outside → Buffer D → Option String → Buffer D
  persist_text out b none = b
  persist_text out b (some s) = record b {
    store = record {
      redis = written (b.has_client && out.redis_sets) b.store.redis s;
      disk = written (not (str_eq b.cfg.persist_path "") && out.disk_writes) b.store.disk s;
    };
  }

  unfoldable pub persist_locked : Outside → Buffer D → Buffer D
  unfolding persist_text
  persist_locked out b = persist_text out b (codec.marshal b.items)

  -- b.items = items, with the subsampling of an overfull buffer in Add.
  unfoldable pub capped : ℕ → List (BufferedSnapshot D) → List (BufferedSnapshot D)
  capped max_size items =
      if ltb 0 max_size && ltb max_size (length items) then subsample items else items

  unfoldable pub add : Outside → Clock → Buffer D → D → String → Buffer D
  add out clock b snapshot timestamp =
      let item : BufferedSnapshot D = record {
        snapshot = snapshot;
        timestamp = timestamp;
        session = clock.session_id;
      } in
      if not b.cfg.enabled
      then b
      else persist_locked out (record b { items = capped b.cfg.max_size (b.items ++ item ∷ []) })

  -- The calls that reach a buffer, with what the outside answers to each.
  pub data Call : Type 1 where
    adds : Outside → Clock → D → String → Call
    flushes : Outside → Clock → Moment → Bool → Bool → Call

  abbrev pub stamp : Clock → Moment → String → String
  stamp clock m ts =
      if clock.valid then (if (reproject m ts).1 then (reproject m ts).0 else ts) else ts

  -- One round of the loop in Flush; none is `continue`.
  unfoldable pub flush_item : Clock → Moment → BufferedSnapshot D → Option (TelemetrySnapshot D)
  flush_item clock m it =
      if is_relative it.timestamp
      then (if not (str_eq it.session clock.session_id)
          then none
          else some (record { snapshot = it.snapshot; timestamp = stamp clock m it.timestamp }))
      else some (record { snapshot = it.snapshot; timestamp = it.timestamp })

  abbrev pub add_item :
      Option (TelemetrySnapshot D) → List (TelemetrySnapshot D) → List (TelemetrySnapshot D)
  add_item none xs = xs
  add_item (some x) xs = x ∷ xs

  unfoldable pub batch : Clock → Moment → List (BufferedSnapshot D) → List (TelemetrySnapshot D)
  batch clock m [] = []
  batch clock m (it ∷ items) = add_item (flush_item clock m it) (batch clock m items)

  unfoldable pub cleared : Outside → Buffer D → Buffer D
  cleared out b = persist_locked out (record b { items = [] })

  -- The second result is the batch that the sink accepted.
  unfoldable pub flush :
      Outside
      → Clock
      → Moment
      → Bool
      → Bool
      → Buffer D
      → Buffer D × Option (List (TelemetrySnapshot D))
  flush out clock m connected accepts b =
      let snapshots = batch clock m b.items in
      if not b.cfg.enabled
      then (b, none)
      else if is_empty b.items || not connected
      then (b, none)
      else if is_empty snapshots
      then (cleared out b, none)
      else if not accepts
      then (b, none)
      else (cleared out b, some snapshots)

  -- Unmarshalling that fails leaves the items alone.
  unfoldable pub unmarshal_into : Buffer D → String → Buffer D × Bool
  unmarshal_into b s = elim (codec.unmarshal s) [
    | none ↦ (b, false)
    | some items ↦ (record b { items = items }, true)
  ]

  abbrev pub readable : Bool → Option String → Option String
  readable true o = o
  readable false o = none

  unfoldable pub load_disk : Outside → Buffer D → Buffer D
  unfolding unmarshal_into
  load_disk out b =
      elim (readable (not (str_eq b.cfg.persist_path "") && out.disk_reads) b.store.disk) [
        | none ↦ b
        | some s ↦ (unmarshal_into b s).0
      ]

  abbrev pub load_redis : Outside → Buffer D → Option String → Buffer D
  load_redis out b none = load_disk out b
  load_redis out b (some s) =
      if str_eq s ""
      then load_disk out b
      else if (unmarshal_into b s).1
      then (unmarshal_into b s).0
      else load_disk out b

  unfoldable pub load : Outside → Buffer D → Buffer D
  unfolding load_disk
  load out b = load_redis out b (readable (b.has_client && out.redis_gets) b.store.redis)

  -- NewBuffer: a process that starts over the given stores.
  unfoldable pub new_buffer : Outside → BufferConfig → Bool → Store → Buffer D
  unfolding load
  new_buffer out cfg has_client store =
      load out (record { cfg = cfg; has_client = has_client; items = []; store = store })

  unfoldable pub step : Buffer D → Call → Buffer D
  step b (adds out clock snapshot timestamp) = add out clock b snapshot timestamp
  step b (flushes out clock m connected accepts) = (flush out clock m connected accepts b).0

  unfoldable pub run : Buffer D → List Call → Buffer D
  run b [] = b
  run b (c ∷ cs) = run (step b c) cs
