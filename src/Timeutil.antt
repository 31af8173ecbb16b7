-- ===== src/Timeutil.antt =====
-- internal/timeutil/clock.go: time stamps of a vehicle whose clock is not trusted until NTP answers.
pub mod Reprojection
use uplink_service.Prelude.{
  String, Bool, true, false, Option, none, some, ◌≡◌, refl, if◌then◌else◌, has_prefix, after_prefix,
  append, has_prefix-append, after_prefix-append,
}
use uplink_service.Prelude.Int.{ℤ, ◌+ℤ◌, negated64}

abbrev pub invalid_prefix : String
invalid_prefix = "INVALID_RELATIVE:"

pub record Clock : Type 0 where
  pub valid : Bool
  pub session_id : String

-- One moment of the process, with what Go's packages time and strconv compute there: time.Now() in
-- nanoseconds since 1970, time.Since(anchor).Seconds(), the subtraction of float64, the conversion
-- time.Duration(x * float64(time.Second)), an instant in RFC 3339, the format %.3f and
-- strconv.ParseFloat.
pub record Moment : Type 1 where
  pub Float : Type 0
  pub wall_now : ℤ
  pub since_anchor : Float
  pub minus : Float → Float → Float
  pub to_duration : Float → ℤ
  pub rfc3339 : ℤ → String
  pub format_seconds : Float → String
  pub parse_float : String → Option Float

unfoldable pub mark_valid : Clock → Clock
mark_valid c = record c { valid = true }

unfoldable pub now : Clock → Moment → String
now c m =
    if c.valid
    then m.rfc3339 m.wall_now
    else append invalid_prefix (m.format_seconds m.since_anchor)

unfoldable pub is_relative : String → Bool
is_relative ts = has_prefix ts invalid_prefix

abbrev pub wall_at : (m : Moment) → m.Float → ℤ
wall_at m offset = m.wall_now +ℤ negated64 (m.to_duration (m.minus m.since_anchor offset))

abbrev pub projected : (m : Moment) → String → Option m.Float → String × Bool
projected m ts none = (ts, false)
projected m ts (some offset) = (m.rfc3339 (wall_at m offset), true)

abbrev pub reproject_offset : Moment → String → Option String → String × Bool
reproject_offset m ts none = (ts, false)
reproject_offset m ts (some s) = projected m ts (m.parse_float s)

-- The offset is read against the anchor of this process.
unfoldable pub reproject : Moment → String → String × Bool
reproject m ts =
    if has_prefix ts invalid_prefix
    then reproject_offset m ts (after_prefix ts invalid_prefix)
    else (ts, true)

-- The answer of ntp.Query and of its Validate.
pub data NtpAnswer : Type 0 where
  query_failed : NtpAnswer
  rejected : NtpAnswer
  validated : NtpAnswer

-- SyncOnce, with the answer that a server gave; the result says whether an error is returned.
unfoldable pub sync_once : Clock → NtpAnswer → Clock × Bool
unfolding mark_valid
sync_once c query_failed = (c, true)
sync_once c rejected = (c, true)
sync_once c validated = (mark_valid c, false)
