-- ===== src/Telemetry/Events/Baseline.antt =====
-- Which handlers the baseline of InitializeBaseline reaches: those whose key is section:field.
use uplink_service.Prelude.{String, false, none, [], ◌∷◌, ◌≡◌, refl, str_eq, append, ◌∙◌}
use uplink_service.GoMap.{GoMap, lookup, insert, lookup-insert, lookup-nil}
use uplink_service.Telemetry.Env.{Env, FieldValue, text, other, fields, scalar, Snapshot}
use uplink_service.Telemetry.Events.{
  LastState, handle, power_state, handlebar_lock, seatbox_lock, initialize_fields,
  initialize_baseline,
}

module _ (e : Env) where
  -- No field of the section has this key, in the form section:field.
  abbrev pub AvoidsIn : String → String → GoMap (FieldValue e) → Type 0
  AvoidsIn key hash [] = Unit {0}
  AvoidsIn key hash ((field, v) ∷ fs) =
      (str_eq (append hash (append ":" field)) key ≡ false) × AvoidsIn key hash fs

  -- No field of the state has this key.
  abbrev pub Avoids : String → Snapshot e → Type 0
  Avoids key [] = Unit {0}
  Avoids key ((hash, fields fs) ∷ s) = AvoidsIn key hash fs × Avoids key s
  Avoids key ((hash, scalar v) ∷ s) = Avoids key s

  lookup-initialize_fields :
      (key hash : String) (fs : GoMap (FieldValue e)) (st : LastState)
      → AvoidsIn key hash fs
      → lookup key (initialize_fields e hash fs st) ≡ lookup key st
  unfolding initialize_fields
  lookup-initialize_fields key hash [] st a = refl
  lookup-initialize_fields key hash ((field, text s) ∷ fs) st a =
      let k = append hash (append ":" field) in
      lookup-initialize_fields key hash fs (insert k s st) a.1
      ∙ (lookup-insert k key s st ∙ rw a.0 refl)
  lookup-initialize_fields key hash ((field, other x) ∷ fs) st a =
      lookup-initialize_fields key hash fs st a.1

  lookup-initialize_baseline :
      (key : String) (s : Snapshot e) (st : LastState)
      → Avoids key s
      → lookup key (initialize_baseline e s st) ≡ lookup key st
  unfolding initialize_baseline
  lookup-initialize_baseline key [] st a = refl
  lookup-initialize_baseline key ((hash, fields fs) ∷ s) st a =
      lookup-initialize_baseline key s (initialize_fields e hash fs st) a.1
      ∙ lookup-initialize_fields key hash fs st a.0
  lookup-initialize_baseline key ((hash, scalar v) ∷ s) st a = lookup-initialize_baseline key s st a

  -- The handlers of the power state and of the two locks keep their values under power:state,
  -- vehicle:handlebar and vehicle:seatbox. Over a state without a field "state" of a section
  -- "power" and fields "handlebar" and "seatbox" of "vehicle", or any other that makes one of these
  -- keys, the first report after InitializeBaseline to each of them makes no event, whatever its
  -- value and the fields of the state are.
  pub baseline_misses :
      (s : Snapshot e) (value : String)
      → Avoids "power:state" s
      → Avoids "vehicle:handlebar" s
      → Avoids "vehicle:seatbox" s
      → ((handle power_state (initialize_baseline e s []) value).1 ≡ none)
        × ((handle handlebar_lock (initialize_baseline e s []) value).1 ≡ none)
        × ((handle seatbox_lock (initialize_baseline e s []) value).1 ≡ none)
  unfolding handle
  baseline_misses s value p h b = (
    rw (lookup-initialize_baseline "power:state" s [] p, lookup-nil {V = String} "power:state")
        refl,
    rw
        (
          lookup-initialize_baseline "vehicle:handlebar" s [] h,
          lookup-nil {V = String} "vehicle:handlebar",
        )
        refl,
    rw
        (
          lookup-initialize_baseline "vehicle:seatbox" s [] b,
          lookup-nil {V = String} "vehicle:seatbox",
        )
        refl,
  )
