-- ===== src/Telemetry/Publisher.antt =====
-- The publisher of internal/telemetry/delta.go: a full state or a delta against the last state
-- that was handed to the connection, with parked positions smoothed.
pub mod Sync
pub mod Resync
pub mod Parked
use uplink_service.Prelude.{
  ℕ, suc, String, Bool, true, false, not, ◌||◌, ◌&&◌, Option, none, some, List, [], ◌∷◌, str_eq,
  if◌then◌else◌, ltb, leb, is_empty,
}
use uplink_service.GoMap.{GoMap, lookup, insert}
use uplink_service.Telemetry.Env.{Env, FieldValue, text, other, Section, fields, scalar, Snapshot}
use uplink_service.Telemetry.Delta.{flatten_state, diff_flat, nest_flat}

abbrev pub full_resync_every : ℕ
full_resync_every = 20

-- geo.HaversineMeters
unfoldable pub haversine_meters : (e : Env) → e.Float → e.Float → e.Float → e.Float → e.Float
haversine_meters e lat1 lng1 lat2 lng2 =
    let rlat1 = over (times lat1 pi) (literal 180) in
    let rlat2 = over (times lat2 pi) (literal 180) in
    let dlat = over (times (minus lat2 lat1) pi) (literal 180) in
    let dlng = over (times (minus lng2 lng1) pi) (literal 180) in
    let sin_lat = sin (over dlat (literal 2)) in
    let sin_lng = sin (over dlng (literal 2)) in
    let a =
      plus (times sin_lat sin_lat)
        (times (times (times (cos rlat1) (cos rlat2)) sin_lng) sin_lng) in
    let c = times (literal 2) (atan2 (sqrt a) (sqrt (minus (literal 1) a))) in
    times (literal 6371000) c
  where
    open e use {plus, minus, times, over, sin, cos, sqrt, atan2, pi, literal}

-- What the publisher hands to the connection.
pub data Message (e : Env) : Type 0 where
  state_message : Snapshot e → Message e
  delta_message : GoMap (GoMap String) → List String → Message e

pub record Publisher (e : Env) : Type 0 where
  -- whether NewPublisher was given a buffer
  pub has_buffer : Bool
  pub last_sent_flat : Option (GoMap String)
  pub last_vehicle_state : String
  pub flushes_since_full : ℕ
  pub last_gps_lat : e.Float
  pub last_gps_lng : e.Float
  pub last_gps_valid : Bool

-- What the sink answers during one call: IsConnected, and whether a send returns no error.
pub record Sink : Type 0 where
  pub connected : Bool
  pub accepts : Bool

-- What one call did: the message that was accepted, the snapshot that was buffered with its time,
-- and whether the call returned an error.
pub record Outcome (e : Env) : Type 0 where
  pub sent : Option (Message e)
  pub buffered : Option (Snapshot e × String)
  pub failed : Bool

module _ (e : Env) where
  unfoldable pub reset_baseline : Publisher e → Publisher e
  reset_baseline p = record p { last_sent_flat = none }

  abbrev pub field_text : Option (FieldValue e) → Option String
  field_text none = none
  field_text (some (text s)) = some s
  field_text (some (other x)) = none

  -- parseFloatField
  abbrev pub parse_text : Option String → Option e.Float
  parse_text none = none
  parse_text (some s) = e.parse_float s

  unfoldable pub parse_float_field : GoMap (FieldValue e) → String → Option e.Float
  parse_float_field m field = parse_text (field_text (lookup field m))

  abbrev pub section_fields : Option (Section e) → Option (GoMap (FieldValue e))
  section_fields none = none
  section_fields (some (scalar v)) = none
  section_fields (some (fields fs)) = some fs

  abbrev pub vehicle_text : Option (GoMap (FieldValue e)) → String
  vehicle_text none = ""
  vehicle_text (some fs) = elim (field_text (lookup "state" fs)) [ none ↦ "" | some s ↦ s ]

  unfoldable pub state_of : Snapshot e → String
  state_of snapshot = vehicle_text (section_fields (lookup "vehicle" snapshot))

  abbrev pub parked_smoothing_meters : e.Float
  parked_smoothing_meters = e.literal 5

  unfoldable pub near_last : Publisher e → e.Float → e.Float → Bool
  near_last p lat lng =
      e.lt_float (haversine_meters e p.last_gps_lat p.last_gps_lng lat lng) parked_smoothing_meters

  abbrev pub hold_position : Publisher e → GoMap (FieldValue e) → GoMap (FieldValue e)
  hold_position p gps =
      insert "longitude" (text (e.format_float p.last_gps_lng))
        (insert "latitude" (text (e.format_float p.last_gps_lat)) gps)

  -- smoothParkedGPS writes into the snapshot's gps map, so it returns the snapshot too.
  abbrev pub smooth_at :
      Publisher e
      → Snapshot e
      → GoMap (FieldValue e)
      → Option e.Float
      → Option e.Float
      → Publisher e × Snapshot e
  smooth_at p snapshot gps none lng = (p, snapshot)
  smooth_at p snapshot gps (some lat) none = (p, snapshot)
  smooth_at p snapshot gps (some lat) (some lng) =
      if not (str_eq (state_of snapshot) "ready-to-drive")
        && p.last_gps_valid
        && near_last p lat lng
      then (p, insert "gps" (fields (hold_position p gps)) snapshot)
      else (record p { last_gps_lat = lat; last_gps_lng = lng; last_gps_valid = true }, snapshot)

  abbrev pub smooth_section :
      Publisher e → Snapshot e → Option (GoMap (FieldValue e)) → Publisher e × Snapshot e
  smooth_section p snapshot none = (p, snapshot)
  smooth_section p snapshot (some gps) =
      smooth_at p snapshot gps (parse_float_field gps "latitude")
        (parse_float_field gps "longitude")

  unfoldable pub smooth_parked_gps : Publisher e → Snapshot e → Publisher e × Snapshot e
  smooth_parked_gps p snapshot = smooth_section p snapshot (section_fields (lookup "gps" snapshot))

  abbrev pub quiet : Outcome e
  quiet = record { sent = none; buffered = none; failed = false }

  abbrev pub refused : Outcome e
  refused = record { sent = none; buffered = none; failed = true }

  abbrev pub delivered : Message e → Outcome e
  delivered m = record { sent = some m; buffered = none; failed = false }

  abbrev pub is_nil : Option (GoMap String) → Bool
  is_nil none = true
  is_nil (some m) = false

  unfoldable pub needs_full : Publisher e → Bool → String → Bool
  needs_full p force_full vehicle_state =
      force_full
      || is_nil p.last_sent_flat
      || not (str_eq vehicle_state p.last_vehicle_state)
      || leb full_resync_every p.flushes_since_full

  abbrev pub or_nil : Option (GoMap String) → GoMap String
  or_nil none = []
  or_nil (some m) = m

  unfoldable pub publish_full :
      Publisher e → Sink → Snapshot e → GoMap String → String → Publisher e × Outcome e
  publish_full p sink snapshot flat vehicle_state =
      if sink.accepts
      then (
        record p {
          last_sent_flat = some flat;
          last_vehicle_state = vehicle_state;
          flushes_since_full = 0;
        },
        delivered (state_message snapshot),
      )
      else (p, refused)

  unfoldable pub publish_delta :
      Publisher e → Sink → GoMap String → String → Publisher e × Outcome e
  publish_delta p sink flat vehicle_state =
      let (changed, removed) = diff_flat (or_nil p.last_sent_flat) flat in
      if is_empty changed && is_empty removed
      then (p, quiet)
      else if sink.accepts
      then (
        record p {
          last_sent_flat = some flat;
          last_vehicle_state = vehicle_state;
          flushes_since_full = suc p.flushes_since_full;
        },
        delivered (delta_message (nest_flat changed) removed),
      )
      else (p, refused)

  -- The part of Publish behind the smoothing; `now` is the clock's time stamp.
  unfoldable pub publish_smoothed :
      Publisher e → Sink → String → Snapshot e → Bool → Publisher e × Outcome e
  unfolding publish_full publish_delta
  publish_smoothed p sink now snapshot force_full =
      let flat = flatten_state e snapshot in
      let vehicle_state = state_of snapshot in
      if not sink.connected
      then (
        record p { last_sent_flat = none },
        record {
          sent = none;
          buffered = if p.has_buffer then some (snapshot, now) else none;
          failed = false;
        },
      )
      else if needs_full p force_full vehicle_state
      then publish_full p sink snapshot flat vehicle_state
      else publish_delta p sink flat vehicle_state

  unfoldable pub publish : Publisher e → Sink → String → Snapshot e → Bool → Publisher e × Outcome e
  publish p sink now snapshot force_full =
      let (smoothed, reported) = smooth_parked_gps p snapshot in
      publish_smoothed smoothed sink now reported force_full

  abbrev pub new_publisher : Bool → Publisher e
  new_publisher has_buffer = record {
    has_buffer = has_buffer;
    last_sent_flat = none;
    last_vehicle_state = "";
    flushes_since_full = 0;
    last_gps_lat = e.literal 0;
    last_gps_lng = e.literal 0;
    last_gps_valid = false;
  }
