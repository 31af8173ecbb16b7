-- ===== src/Commands/Updates.antt =====
-- internal/commands/update_handlers.go: the boards that an update check is queued on.
use uplink_service.Prelude.{
  String, Bool, true, false, not, ◌&&◌, ◌||◌, Option, none, some, List, [], ◌∷◌, ◌++◌, map, length,
  ◌==◌, is_empty, if◌then◌else◌, str_eq, append,
}
use uplink_service.GoMap.{GoMap, lookup}

-- fmt.Sprint on an element of a list parameter.
pub record Printer : Type 1 where
  pub Item : Type 0
  pub sprint : Item → String

-- A parameter of type any: []any, []string, a string or another value.
pub data Param (p : Printer) : Type 0 where
  items : List p.Item → Param p
  texts : List String → Param p
  text : String → Param p
  other : Param p

pub data Resolved : Type 0 where
  invalid_target : String → Resolved
  targets : List String → Resolved

-- The map seen of the source has the keys of valid.
abbrev pub contains : String → List String → Bool
contains t [] = false
contains t (x ∷ xs) = str_eq x t || contains t xs

-- The loop of resolveUpdateTargets.
unfoldable pub valid_from : List String → List String → Resolved
valid_from valid [] = targets valid
valid_from valid (t ∷ ts) =
    let kept = valid_from valid ts in
    let longer = valid_from (valid ++ t ∷ []) ts in
    if not (str_eq t "mdb") && not (str_eq t "dbc")
    then invalid_target t
    else if contains t valid
    then kept
    else longer

abbrev pub both_boards : List String
both_boards = "mdb" ∷ "dbc" ∷ []

abbrev pub orchestrated : Bool → Resolved → Resolved
orchestrated orchestrate_dbc (invalid_target t) = invalid_target t
orchestrated orchestrate_dbc (targets valid) =
    if orchestrate_dbc && (length valid == 2) then targets ("mdb" ∷ []) else targets valid

unfoldable pub resolve_update_targets : List String → Bool → Resolved
unfolding valid_from
resolve_update_targets requested orchestrate_dbc =
    orchestrated orchestrate_dbc
      (valid_from [] (if is_empty requested then both_boards else requested))

module _ (p : Printer) where
  abbrev pub single_target : Option (Param p) → List String
  single_target (some (text t)) = if not (str_eq t "") then t ∷ [] else []
  single_target o = []

  abbrev pub requested_by : Option (Param p) → Option (Param p) → List String
  requested_by (some (items vs)) target = map p.sprint vs
  requested_by (some (texts ts)) target = ts
  requested_by o target = single_target target

  unfoldable pub requested_targets : GoMap (Param p) → List String
  requested_targets params = requested_by (lookup "targets" params) (lookup "target" params)

-- What HGet answers for settings[updates.mdb.orchestrate-dbc]; none is an error.
unfoldable pub dbc_orchestration_enabled : Option String → Bool
dbc_orchestration_enabled none = true
dbc_orchestration_enabled (some val) = str_eq val "" || str_eq val "true"

-- The requests that reach their queue, and whether one failed; `sends` says which queue accepts.
unfoldable pub queue_checks : (String → Bool) → List String → List String × Bool
queue_checks sends [] = ([], false)
queue_checks sends (t ∷ ts) =
    let (queued, failed) = queue_checks sends ts in
    if sends (append "scooter:update:" t)
    then (append "scooter:update:" t ∷ queued, failed)
    else ([], true)

pub data Checked : Type 0 where
  rejected : String → Checked
  -- the queues that got check-now, in order, and whether a send failed
  checked : List String → List String → Bool → Checked

abbrev pub check_resolved : (String → Bool) → Resolved → Checked
check_resolved sends (invalid_target t) = rejected t
check_resolved sends (targets ts) =
    let (queued, failed) = queue_checks sends ts in checked ts queued failed

unfoldable pub update_check :
    (p : Printer) → (String → Bool) → Option String → GoMap (Param p) → Checked
update_check p sends setting params =
    check_resolved sends
      (resolve_update_targets (requested_targets p params) (dbc_orchestration_enabled setting))
