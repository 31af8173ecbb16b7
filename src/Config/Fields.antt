-- ===== src/Config/Fields.antt =====
-- The paths of internal/config/reflect.go over the values that reflection sees.
use uplink_service.Prelude.{
  ℕ, ◌+◌, Char, code, String, Bool, true, false, ◌&&◌, not, Option, none, some, List, [], ◌∷◌, leb,
  ◌==◌, str_eq, if◌then◌else◌, cut_at,
}
use uplink_service.Prelude.Int.{ℤ, pos}

-- A struct field: its Go name, its yaml tag, and whether the name is exported.
pub record Field : Type 0 where
  pub name : String
  pub tag : String
  pub exported : Bool

mutual
  -- A value by its kind. A pointer knows the zero value that it points to when it is made.
  pub data Value : Type 0 where
    text : String → Value
    flag : Bool → Value
    number : ℤ → Value
    -- a float as its text
    real : String → Value
    null : Value → Value
    pointer : Value → Value → Value
    struct : Fields → Value
    -- a map with string keys
    dict : Entries → Value
    -- a kind without fields and scalars, with its name
    other : String → Value

  pub data Fields : Type 0 where
    end : Fields
    field : Field → Value → Fields → Fields

  pub data Entries : Type 0 where
    last : Entries
    entry : String → Value → Entries → Entries

-- strings.ToLower on an ASCII letter
abbrev lower : Char → ℕ
lower c = if leb b'A' (code c) && leb (code c) b'Z' then code c + 32 else code c

-- The text is what strings.ToLower makes of the name.
unfoldable pub is_lower_of : String → String → Bool
is_lower_of String.[] String.[] = true
is_lower_of String.[] (String.◌∷◌ d r) = false
is_lower_of (String.◌∷◌ c s) String.[] = false
is_lower_of (String.◌∷◌ c s) (String.◌∷◌ d r) = lower c == code d && is_lower_of s r

abbrev comma : Char
comma = ","

abbrev first_part : String → Option (String × String) → String
first_part tag none = tag
first_part tag (some (head, rest)) = head

abbrev is_named : String → Field → String → Bool
is_named tag f name =
    if str_eq tag ""
    then is_lower_of f.name name && not (str_eq name "-")
    else str_eq tag name && not (str_eq tag "-")

-- Whether fieldByYAML stops at this field
unfoldable pub matches : Field → String → Bool
matches f name = is_named (first_part f.tag (cut_at comma f.tag)) f name

-- A reflect.Value: the value, whether it can be set, and whether Interface returns it.
pub record Found : Type 0 where
  pub value : Value
  pub addressable : Bool
  pub readable : Bool

-- fieldByYAML; a field can be set if the struct is addressable and every name was exported.
unfoldable pub field_by_yaml : Bool → Bool → Fields → String → Option Found
field_by_yaml addressable readable end name = none
field_by_yaml addressable readable (field f v fields) name =
    let rest = field_by_yaml addressable readable fields name in
    if matches f name
    then some (record { value = v; addressable = addressable; readable = readable && f.exported })
    else rest

-- MapIndex, whose result is not addressable
unfoldable pub map_index : Bool → Entries → String → Option Found
map_index readable last key = none
map_index readable (entry k v entries) key =
    let rest = map_index readable entries key in
    if str_eq k key
    then some (record { value = v; addressable = false; readable = readable })
    else rest

-- One iteration of resolvePath: what a pointer points to can be addressed.
unfoldable pub descend : Bool → Bool → Value → String → Option Found
descend addressable readable (text s) seg = none
descend addressable readable (flag b) seg = none
descend addressable readable (number n) seg = none
descend addressable readable (real s) seg = none
descend addressable readable (null zero) seg = none
descend addressable readable (pointer zero v) seg = descend true readable v seg
descend addressable readable (struct fields) seg = field_by_yaml addressable readable fields seg
descend addressable readable (dict entries) seg = map_index readable entries seg
descend addressable readable (other kind) seg = none

abbrev pub and_then {ℓ κ} : {A : Type ℓ} {B : Type κ} → Option A → (A → Option B) → Option B
and_then none f = none
and_then (some a) f = f a

-- resolvePath; none is an error.
unfoldable pub resolve_path : Found → List String → Option Found
resolve_path v [] = some v
resolve_path v (seg ∷ segs) =
    and_then (descend v.addressable v.readable v.value seg) (λ w. resolve_path w segs)

-- CanSet
abbrev pub can_set : Found → Bool
can_set v = v.addressable && v.readable

-- The parsers of strconv
pub record Scalars : Type 0 where
  pub parse_bool : String → Option Bool
  pub parse_int : String → Option ℤ
  pub parse_float : String → Option String

-- assignScalar: the value that is stored; none is an error. No field of the configuration is of an
-- unsigned kind.
unfoldable pub assign_scalar : Scalars → Value → String → Option Value
assign_scalar k (text old) s = some (text s)
assign_scalar k (flag old) s = and_then (k.parse_bool s) (λ b. some (flag b))
assign_scalar k (number old) s = and_then (k.parse_int s) (λ n. some (number n))
assign_scalar k (real old) s = and_then (k.parse_float s) (λ r. some (real r))
assign_scalar k (null zero) s = and_then (assign_scalar k zero s) (λ v. some (pointer zero v))
assign_scalar k (pointer zero old) s =
    and_then (assign_scalar k zero s) (λ v. some (pointer zero v))
assign_scalar k (struct fields) s = none
assign_scalar k (dict entries) s = none
assign_scalar k (other kind) s = none

-- The store behind a reflect.Value that can be set: the same structs with another value at the path.
unfoldable pub put_field : Fields → String → (Value → Value) → Fields
put_field end name change = end
put_field (field f v fields) name change =
    let rest = put_field fields name change in
    if matches f name then field f (change v) fields else field f v rest

unfoldable pub put_entry : Entries → String → (Value → Value) → Entries
put_entry last key change = last
put_entry (entry k v entries) key change =
    let rest = put_entry entries key change in
    if str_eq k key then entry k (change v) entries else entry k v rest

unfoldable pub put_step : Value → String → (Value → Value) → Value
put_step (pointer zero v) seg change = pointer zero (put_step v seg change)
put_step (struct fields) seg change = struct (put_field fields seg change)
put_step (dict entries) seg change = dict (put_entry entries seg change)
put_step v seg change = v

unfoldable pub put : Value → List String → Value → Value
put v [] new = new
put v (seg ∷ segs) new = put_step v seg (λ w. put w segs new)

-- reflect.Zero of the type of a value; a nil map is an empty one.
mutual
  pub zero_of : Value → Value
  zero_of (text s) = text ""
  zero_of (flag b) = flag false
  zero_of (number n) = number (pos 0)
  zero_of (real s) = real "0"
  zero_of (null zero) = null zero
  zero_of (pointer zero v) = null zero
  zero_of (struct fields) = struct (zero_fields fields)
  zero_of (dict entries) = dict last
  zero_of (other kind) = other kind

  zero_fields : Fields → Fields
  zero_fields end = end
  zero_fields (field f v fields) = field f (zero_of v) (zero_fields fields)

-- reflect.ValueOf(c).Elem()
abbrev pub root : Value → Found
root c = record { value = c; addressable = true; readable = true }

-- How a call ends
pub data Outcome {ℓ} (A : Type ℓ) : Type ℓ where
  done : A → Outcome A
  fails : Outcome A
  panics : Outcome A

abbrev interface_of : Option Found → Outcome Value
interface_of none = fails
interface_of (some v) = if v.readable then done v.value else panics

-- GetField, behind splitPath
unfoldable pub get_field : Value → List String → Outcome Value
get_field c path = interface_of (resolve_path (root c) path)

abbrev stored : Value → List String → Option Value → Outcome Value
stored c path none = fails
stored c path (some v) = done (put c path v)

abbrev pub set_found : Scalars → Value → List String → String → Option Found → Outcome Value
set_found k c path s none = fails
set_found k c path s (some v) =
    if can_set v then stored c path (assign_scalar k v.value s) else fails

-- SetField: the configuration that it leaves
unfoldable pub set_field : Scalars → Value → List String → String → Outcome Value
set_field k c path s = set_found k c path s (resolve_path (root c) path)

abbrev zeroed : Value → List String → Option Found → Outcome Value
zeroed c path none = fails
zeroed c path (some v) = if can_set v then done (put c path (zero_of v.value)) else fails

-- DeleteField
unfoldable pub delete_field : Value → List String → Outcome Value
delete_field c path = zeroed c path (resolve_path (root c) path)
