-- ===== src/Telemetry/Env.antt =====
-- What the telemetry code takes from Go's runtime: the float64 type with strconv and math, and
-- fmt.Sprint of the dynamic values that are neither texts nor maps.
use uplink_service.Prelude.{ℕ, String, Bool, Option}
use uplink_service.GoMap.{GoMap}

pub record Env : Type 1 where
  pub Float : Type 0
  -- the dynamic values (type any) that are neither a string nor a map
  pub Other : Type 0
  pub sprint_other : Other → String
  pub parse_float : String → Option Float
  pub format_float : Float → String
  pub lt_float : Float → Float → Bool
  pub plus : Float → Float → Float
  pub minus : Float → Float → Float
  pub times : Float → Float → Float
  pub over : Float → Float → Float
  pub sin : Float → Float
  pub cos : Float → Float
  pub sqrt : Float → Float
  pub atan2 : Float → Float → Float
  pub pi : Float
  pub literal : ℕ → Float
  pub one_half : Float
  -- float64(int64(f))
  pub truncate : Float → Float

-- A field's value in a snapshot, of type any: a string or not.
pub data FieldValue (e : Env) : Type 0 where
  text : String → FieldValue e
  other : e.Other → FieldValue e

-- A value of a snapshot's top level: a map of fields or not.
pub data Section (e : Env) : Type 0 where
  fields : GoMap (FieldValue e) → Section e
  scalar : FieldValue e → Section e

abbrev pub Snapshot : Env → Type 0
Snapshot e = GoMap (Section e)
