-- ===== src/Commands/Plans.antt =====
-- When a navigate command replaces the route plan, clears it, or is refused.
use uplink_service.Prelude.{
  String, true, false, ◌&&◌, Option, none, some, List, [], ◌∷◌, ◌≡◌, refl, arith, ◌⊎◌, inl, inr,
  is_some, is_empty, str_eq, eq_iff, Bool-cases,
}
use uplink_service.GoMap.{GoMap, lookup}
use uplink_service.Commands.Routes.{
  Numbers, Scalar, Waypoint, Param, scalar, array, NavigateCall, clear_plan, replace_plan,
  invalid_waypoints, no_capability, incomplete_position, stops_of, as_number, as_text, as_scalar,
  is_nil, stop_at, replace_single, navigate_single, navigate_stops, advertises, navigate,
  build_waypoints,
}

is_empty-nil {ℓ} : {A : Type ℓ} (xs : List A) → is_empty xs ≡ true → xs ≡ []
is_empty-nil [] h = refl
is_empty-nil (x ∷ xs) h = absurd (cc)

module _ {n : Numbers} where
  -- What must hold of the capabilities and the parameters for each outcome: its first argument is
  -- the waypoints parameter, then latitude, longitude and address.
  abbrev pub IsJustified :
      Option String → Option (Param n) → Scalar n → Scalar n → String → NavigateCall n → Type 0
  IsJustified capabilities waypoints lat lon addr clear_plan =
      (waypoints ≡ none) × (is_nil lat ≡ true) × (is_nil lon ≡ true) × (addr ≡ "")
  IsJustified capabilities waypoints lat lon addr (replace_plan stops) =
      ((waypoints ≡ none)
        × (la : n.Float) × (lo : n.Float) × (as_number (some lat) ≡ some la)
        × (as_number (some lon) ≡ some lo)
        × (stops ≡ record { lat = la; lon = lo; label = addr } ∷ []))
      ⊎ ((ws : List (Waypoint n)) × (waypoints ≡ some (array ws))
          × (stops ≡ stops_of ws)
          × (is_empty stops ≡ false)
          × (advertises capabilities ≡ true))
  IsJustified capabilities waypoints lat lon addr invalid_waypoints =
      (is_some waypoints ≡ true) × (build_waypoints waypoints ≡ [])
  IsJustified capabilities waypoints lat lon addr no_capability =
      (is_empty (build_waypoints waypoints) ≡ false) × (advertises capabilities ≡ false)
  IsJustified capabilities waypoints lat lon addr incomplete_position =
      (waypoints ≡ none) × ((as_number (some lat) ≡ none) ⊎ (as_number (some lon) ≡ none))

  single-IsJustified :
      (capabilities : Option String) (lat lon : Scalar n) (addr : String) (la lo : Option n.Float)
      → as_number (some lat) ≡ la
      → as_number (some lon) ≡ lo
      → IsJustified capabilities none lat lon addr (replace_single (stop_at la lo addr))
  single-IsJustified capabilities lat lon addr none lo ea eo = (refl, inl ea)
  single-IsJustified capabilities lat lon addr (some la) none ea eo = (refl, inr eo)
  single-IsJustified capabilities lat lon addr (some la) (some lo) ea eo =
      inl (refl, la, lo, ea, eo, refl)

  navigate_single-IsJustified :
      (capabilities : Option String) (lat lon : Scalar n) (addr : String)
      → IsJustified capabilities none lat lon addr (navigate_single lat lon addr)
  navigate_single-IsJustified capabilities lat lon addr =
      elim (Bool-cases (is_nil lat && is_nil lon && str_eq addr "")) [
        | inl bare ↦ rw bare (refl, ground arith, ground arith, (eq_iff addr "").0 (ground arith))
        | inr given ↦ rw given (
            single-IsJustified capabilities lat lon addr (as_number (some lat))
              (as_number (some lon)) refl refl)
      ]

  list-IsJustified :
      (capabilities : Option String) (ws : List (Waypoint n)) (lat lon : Scalar n) (addr : String)
      → IsJustified capabilities
          (some (array ws))
          lat
          lon
          addr
          (navigate_stops capabilities true (stops_of ws) lat lon addr)
  list-IsJustified capabilities ws lat lon addr = elim (Bool-cases (is_empty (stops_of ws))) [
    | inl bare ↦ rw bare (refl, is_empty-nil (stops_of ws) bare)
    | inr stops ↦ elim (Bool-cases (advertises capabilities)) [
      | inl able ↦ rw stops (rw able (inr (ws, refl, refl, stops, able)))
      | inr unable ↦ rw stops (rw unable (stops, unable))
    ]
  ]

  stops-IsJustified :
      (capabilities : Option String) (waypoints : Option (Param n)) (lat lon : Scalar n)
      (addr : String)
      → IsJustified capabilities waypoints lat lon addr
          (navigate_stops capabilities (is_some waypoints) (build_waypoints waypoints) lat lon addr)
  stops-IsJustified capabilities none lat lon addr =
      navigate_single-IsJustified capabilities lat lon addr
  stops-IsJustified capabilities (some (scalar s)) lat lon addr = (refl, refl)
  stops-IsJustified capabilities (some (array ws)) lat lon addr =
      list-IsJustified capabilities ws lat lon addr

  -- A navigate command clears the plan only without waypoints, latitude, longitude and address. It
  -- replaces the plan by the one stop of its latitude and longitude where it has no waypoints, and
  -- by the readable entries of a list of waypoints only if there is one and the capabilities
  -- advertise routes. It is refused for waypoints without a readable entry, without that
  -- capability, and for a position of which a part is missing or no number.
  pub navigate-IsJustified :
      (capabilities : Option String) (params : GoMap (Param n))
      → IsJustified capabilities
          (lookup "waypoints" params)
          (as_scalar (lookup "latitude" params))
          (as_scalar (lookup "longitude" params))
          (as_text (some (as_scalar (lookup "address" params))))
          (navigate capabilities params)
  unfolding navigate
  navigate-IsJustified capabilities params =
      stops-IsJustified capabilities (lookup "waypoints" params)
        (as_scalar (lookup "latitude" params)) (as_scalar (lookup "longitude" params))
        (as_text (some (as_scalar (lookup "address" params))))
