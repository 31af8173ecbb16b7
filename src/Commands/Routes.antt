-- ===== src/Commands/Routes.antt =====
-- navigate in internal/commands/scooter.go: the stops of a request, and the call to the route plan.
use uplink_service.Prelude.{
  Char, code, String, Bool, true, false, not, ◌&&◌, ◌||◌, Option, none, some, List, [], ◌∷◌, ◌==◌,
  is_some, is_empty, if◌then◌else◌, str_eq, has_prefix, after_prefix, or_else,
}
use uplink_service.GoMap.{GoMap, lookup}

-- float64, and strconv.ParseFloat of a text without its outer white space.
pub record Numbers : Type 1 where
  pub Float : Type 0
  pub parse_trimmed : String → Option Float

-- A parameter of type any as the code tells it apart: nil, a number, a string, or another value.
pub data Scalar (n : Numbers) : Type 0 where
  nil : Scalar n
  number : n.Float → Scalar n
  text : String → Scalar n
  other : Scalar n

pub data Waypoint (n : Numbers) : Type 0 where
  object : GoMap (Scalar n) → Waypoint n
  no_object : Waypoint n

pub data Param (n : Numbers) : Type 0 where
  scalar : Scalar n → Param n
  array : List (Waypoint n) → Param n

pub record RouteStop (n : Numbers) : Type 0 where
  pub lat : n.Float
  pub lon : n.Float
  pub label : String

-- strings.Split at a colon.
abbrev pub cons_first : Char → List String → List String
cons_first c [] = String.◌∷◌ c String.[] ∷ []
cons_first c (x ∷ xs) = String.◌∷◌ c x ∷ xs

unfoldable pub split_colon : String → List String
split_colon String.[] = String.[] ∷ []
split_colon (String.◌∷◌ c s) =
    let rest = split_colon s in if code c == b':' then String.[] ∷ rest else cons_first c rest

abbrev pub holds_group : String → List String → Bool
holds_group g [] = false
holds_group g (x ∷ xs) = str_eq x g || holds_group g xs

unfoldable pub has_navigation_route_capability : String → Bool
unfolding split_colon
has_navigation_route_capability capabilities =
    if not (has_prefix capabilities "cap:ext:")
    then false
    else holds_group "nav=2"
        (split_colon (or_else (after_prefix capabilities "cap:ext:") capabilities))

abbrev pub advertises : Option String → Bool
advertises none = false
advertises (some capabilities) = has_navigation_route_capability capabilities

pub data NavigateCall (n : Numbers) : Type 0 where
  clear_plan : NavigateCall n
  replace_plan : List (RouteStop n) → NavigateCall n
  invalid_waypoints : NavigateCall n
  no_capability : NavigateCall n
  incomplete_position : NavigateCall n

module _ {n : Numbers} where
  abbrev pub as_number : Option (Scalar n) → Option n.Float
  as_number (some (number f)) = some f
  as_number (some (text s)) = n.parse_trimmed s
  as_number o = none

  unfoldable pub first_number : GoMap (Scalar n) → List String → Option n.Float
  first_number m [] = none
  first_number m (key ∷ keys) =
      let rest = first_number m keys in
      elim (as_number (lookup key m)) [ none ↦ rest | some f ↦ some f ]

  abbrev pub as_text : Option (Scalar n) → String
  as_text (some (text s)) = s
  as_text o = ""

  abbrev pub label_of : GoMap (Scalar n) → String
  label_of m =
      if str_eq (as_text (lookup "label" m)) ""
      then as_text (lookup "name" m)
      else as_text (lookup "label" m)

  abbrev pub stop_at : Option n.Float → Option n.Float → String → Option (RouteStop n)
  stop_at (some la) (some lo) label = some (record { lat = la; lon = lo; label = label })
  stop_at la lo label = none

  -- One turn of the loop of buildWaypoints.
  abbrev pub stop_of : Waypoint n → Option (RouteStop n)
  stop_of no_object = none
  stop_of (object m) =
      stop_at (first_number m ("latitude" ∷ "lat" ∷ [])) (first_number m ("longitude" ∷ "lon" ∷ []))
        (label_of m)

  abbrev pub add_stop : Option (RouteStop n) → List (RouteStop n) → List (RouteStop n)
  add_stop none stops = stops
  add_stop (some s) stops = s ∷ stops

  unfoldable pub stops_of : List (Waypoint n) → List (RouteStop n)
  stops_of [] = []
  stops_of (w ∷ ws) = add_stop (stop_of w) (stops_of ws)

  -- buildWaypoints; no stops stand for its false.
  abbrev pub build_waypoints : Option (Param n) → List (RouteStop n)
  build_waypoints (some (array ws)) = stops_of ws
  build_waypoints o = []

  abbrev pub as_scalar : Option (Param n) → Scalar n
  as_scalar none = nil
  as_scalar (some (scalar s)) = s
  as_scalar (some (array ws)) = other

  abbrev pub is_nil : Scalar n → Bool
  is_nil nil = true
  is_nil s = false

  abbrev pub replace_single : Option (RouteStop n) → NavigateCall n
  replace_single none = incomplete_position
  replace_single (some s) = replace_plan (s ∷ [])

  -- The call without waypoints, by the latitude, the longitude and the address.
  abbrev pub navigate_single : Scalar n → Scalar n → String → NavigateCall n
  navigate_single lat lon addr =
      if is_nil lat && is_nil lon && str_eq addr ""
      then clear_plan
      else replace_single (stop_at (as_number (some lat)) (as_number (some lon)) addr)

  abbrev pub navigate_stops :
      Option String → Bool → List (RouteStop n) → Scalar n → Scalar n → String → NavigateCall n
  navigate_stops capabilities supplied stops lat lon addr =
      if supplied && is_empty stops
      then invalid_waypoints
      else if not (is_empty stops)
      then (if advertises capabilities then replace_plan stops else no_capability)
      else navigate_single lat lon addr

  -- `capabilities` is what HGet answers; none is an error.
  unfoldable pub navigate : Option String → GoMap (Param n) → NavigateCall n
  navigate capabilities params =
      navigate_stops capabilities (is_some (lookup "waypoints" params))
        (build_waypoints (lookup "waypoints" params)) (as_scalar (lookup "latitude" params))
        (as_scalar (lookup "longitude" params))
        (as_text (some (as_scalar (lookup "address" params))))
