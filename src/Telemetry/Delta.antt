-- ===== src/Telemetry/Delta.antt =====
-- The pure part of internal/telemetry/delta.go: flat views of a snapshot, their difference, and
-- the nested form in which a difference travels.
pub mod Diff
pub mod Flatten
use uplink_service.Prelude.{
  String, Char, Bool, true, false, not, ◌||◌, Option, none, some, List, [], ◌∷◌, str_eq,
  if◌then◌else◌, is_some, or_else, cut_at, join_at,
}
use uplink_service.GoMap.{GoMap, lookup, insert}
use uplink_service.Telemetry.Env.{Env, FieldValue, text, other, Section, fields, scalar, Snapshot}

abbrev pub dot : Char
dot = "."

module _ (e : Env) where
  -- fmt.Sprint
  abbrev pub sprint : FieldValue e → String
  sprint (text s) = s
  sprint (other x) = e.sprint_other x

  unfoldable pub flatten_fields : String → GoMap (FieldValue e) → GoMap String → GoMap String
  flatten_fields hash [] out = out
  flatten_fields hash ((f, val) ∷ rest) out =
      flatten_fields hash rest (insert (join_at dot hash f) (sprint val) out)

  unfoldable pub flatten_section : String → Section e → GoMap String → GoMap String
  unfolding flatten_fields
  flatten_section hash (fields fs) out = flatten_fields hash fs out
  flatten_section hash (scalar v) out = out

  unfoldable pub flatten_from : Snapshot e → GoMap String → GoMap String
  unfolding flatten_section
  flatten_from [] out = out
  flatten_from ((hash, v) ∷ rest) out = flatten_from rest (flatten_section hash v out)

  unfoldable pub flatten_state : Snapshot e → GoMap String
  unfolding flatten_from
  flatten_state state = flatten_from state []

abbrev pub differs : Option String → String → Bool
differs none v = true
differs (some ov) v = not (str_eq ov v)

-- The first loop of diffFlat.
unfoldable pub changed_from : GoMap String → GoMap String → GoMap String → GoMap String
changed_from old [] changed = changed
changed_from old ((k, v) ∷ rest) changed =
    changed_from old rest (if differs (lookup k old) v then insert k v changed else changed)

-- The second loop of diffFlat.
unfoldable pub removed_from : GoMap String → GoMap String → List String
removed_from current [] = []
removed_from current ((k, v) ∷ rest) =
    let tail = removed_from current rest in if is_some (lookup k current) then tail else k ∷ tail

unfoldable pub diff_flat : GoMap String → GoMap String → GoMap String × List String
unfolding changed_from removed_from
diff_flat old current = (changed_from old current [], removed_from current old)

abbrev pub nest_at : Option (String × String) → String → GoMap (GoMap String) → GoMap (GoMap String)
nest_at none val out = out
nest_at (some (hash, field)) val out =
    insert hash (insert field val (or_else (lookup hash out) [])) out

unfoldable pub nest_path : String → String → GoMap (GoMap String) → GoMap (GoMap String)
nest_path path val out = nest_at (cut_at dot path) val out

unfoldable pub nest_from : GoMap String → GoMap (GoMap String) → GoMap (GoMap String)
unfolding nest_path
nest_from [] out = out
nest_from ((path, val) ∷ rest) out = nest_from rest (nest_path path val out)

unfoldable pub nest_flat : GoMap String → GoMap (GoMap String)
unfolding nest_from
nest_flat flat = nest_from flat []
