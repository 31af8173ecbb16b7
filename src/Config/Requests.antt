-- ===== src/Config/Requests.antt =====
-- ApplyDeltas of internal/config/reflect.go and internal/commands/config_handlers.go.
use uplink_service.Prelude.{
  Char, code, String, Option, none, some, List, [], ◌∷◌, ◌==◌, str_eq, if◌then◌else◌, or_else,
}
use uplink_service.GoMap.{GoMap}
use uplink_service.Config.Fields.{
  Value, Scalars, Outcome, done, fails, panics, get_field, set_field, delete_field,
}

abbrev cons_head : Char → List String → List String
cons_head c [] = []
cons_head c (head ∷ rest) = String.◌∷◌ c head ∷ rest

-- strings.Split with a dot
unfoldable pub split_path : String → List String
split_path String.[] = String.[] ∷ []
split_path (String.◌∷◌ c s) =
    let parts = split_path s in if code c == b'.' then String.[] ∷ parts else cons_head c parts

abbrev or_kept : Value → Outcome Value → Value
or_kept c (done d) = d
or_kept c fails = c
or_kept c panics = c

abbrev stated : Option String → String
stated name = or_else name ""

-- What configGet answers with: the field and its value, or the text of the file.
pub data Answer : Type 0 where
  one_field : String → Value → Answer
  whole_file : String → Answer

abbrev answer_field : String → Outcome Value → Outcome Answer
answer_field name (done v) = done (one_field name v)
answer_field name fails = fails
answer_field name panics = panics

abbrev answer_file : Option String → Outcome Answer
answer_file none = fails
answer_file (some raw) = done (whole_file raw)

-- configGet, given the parameter where it is a text, and what RawYAML returns
unfoldable pub config_get : Value → Option String → Option String → Outcome Answer
config_get c name raw =
    if str_eq (stated name) ""
    then answer_file raw
    else answer_field (stated name) (get_field c (split_path (stated name)))

-- configSet, given what fmt.Sprint makes of the value
unfoldable pub config_set : Scalars → Value → Option String → String → Outcome Value
config_set k c name value =
    if str_eq (stated name) "" then fails else set_field k c (split_path (stated name)) value

-- configDel
unfoldable pub config_del : Value → Option String → Outcome Value
config_del c name =
    if str_eq (stated name) "" then fails else delete_field c (split_path (stated name))

-- ApplyDeltas on the deltas in the order of iteration: an error leaves the rest to be applied.
unfoldable pub apply_deltas : Scalars → Value → GoMap String → Value
apply_deltas k c [] = c
apply_deltas k c ((path, s) ∷ deltas) =
    apply_deltas k (or_kept c (set_field k c (split_path path) s)) deltas
