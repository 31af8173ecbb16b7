-- ===== src/Telemetry/Publisher/Parked.antt =====
-- smoothParkedGPS: what it reports, what it remembers, and that it leaves a state well formed.
use uplink_service.Prelude.{
  String, Bool, true, false, not, ◌&&◌, Option, none, some, [], ◌∷◌, ◌≡◌, refl, arith, str_eq,
  eq_iff, cut_at, if◌then◌else◌, Bool-cases, inl, inr, ◌⊎◌, subst, ◌∙◌,
}
use uplink_service.GoMap.{GoMap, lookup, insert, lookup-insert, IsMap, insert-IsMap}
use uplink_service.Telemetry.Env.{Env, FieldValue, Section, Snapshot, fields, scalar, text}
use uplink_service.Telemetry.Delta.{dot}
use uplink_service.Telemetry.Delta.Flatten.{IsState, IsSection}
use uplink_service.Telemetry.Publisher.{
  Publisher, smooth_parked_gps, smooth_section, smooth_at, hold_position, near_last, state_of,
  parse_float_field, section_fields, haversine_meters,
}

some-injective {ℓ} : {A : Type ℓ} (a b : A) → some a ≡ some b → a ≡ b
some-injective a b h = cc

module _ (e : Env) where
  insert-IsState :
      (h : String) (v : Section e) (s : Snapshot e)
      → cut_at dot h ≡ none
      → IsSection e v
      → IsState e s
      → IsState e (insert h v s)
  unfolding insert lookup
  insert-IsState h v [] free w u = (free, w, refl, tt)
  insert-IsState h v ((j, x) ∷ s) free w u = elim (Bool-cases (str_eq j h)) [
    | inl same ↦ rw same (free, w, ground (arith, eq_iff j h), u.3)
    | inr other ↦ rw other (
      u.0,
      u.1,
      ground (arith, lookup-insert h j v s, eq_iff j h, eq_iff h j),
      insert-IsState h v s free w u.3,
    )
  ]

  section_ok :
      (v : Section e) (fs : GoMap (FieldValue e))
      → IsSection e v
      → section_fields e (some v) ≡ some fs
      → IsMap fs
  section_ok (scalar v) fs w h = absurd (cc)
  section_ok (fields fs') fs w h = subst IsMap (some-injective fs' fs h) w

  section-IsMap :
      (h : String) (s : Snapshot e) (fs : GoMap (FieldValue e))
      → IsState e s
      → section_fields e (lookup h s) ≡ some fs
      → IsMap fs
  unfolding lookup
  section-IsMap h [] fs u found = absurd (cc)
  section-IsMap h ((j, v) ∷ s) fs u found = elim (Bool-cases (str_eq j h)) [
    | inl same ↦ section_ok v fs u.1 (rw same at found)
    | inr other ↦ section-IsMap h s fs u.3 (rw other at found)
  ]

  hold_position-IsMap :
      (p : Publisher e) (gps : GoMap (FieldValue e)) → IsMap gps → IsMap (hold_position e p gps)
  hold_position-IsMap p gps u =
      insert-IsMap "longitude" (text (e.format_float p.last_gps_lng))
        (insert "latitude" (text (e.format_float p.last_gps_lat)) gps)
        (insert-IsMap "latitude" (text (e.format_float p.last_gps_lat)) gps u)

  gps_has_no_dot : cut_at dot "gps" ≡ none
  unfolding cut_at
  gps_has_no_dot = refl

  smooth_at-IsState :
      (p : Publisher e) (s : Snapshot e) (gps : GoMap (FieldValue e)) (lat lng : Option e.Float)
      → IsMap gps
      → IsState e s
      → IsState e (smooth_at e p s gps lat lng).1
  smooth_at-IsState p s gps none lng w u = u
  smooth_at-IsState p s gps (some lat) none w u = u
  smooth_at-IsState p s gps (some lat) (some lng) w u =
      elim (Bool-cases (
        not (str_eq (state_of e s) "ready-to-drive")
        && p.last_gps_valid
        && near_last e p lat lng)) [
          | inl held ↦ rw held (
              insert-IsState "gps" (fields (hold_position e p gps)) s gps_has_no_dot
                (hold_position-IsMap p gps w) u)
          | inr passed ↦ rw passed u
        ]

  smooth_section-IsState :
      (p : Publisher e) (s : Snapshot e) (gps : Option (GoMap (FieldValue e)))
      → section_fields e (lookup "gps" s) ≡ gps
      → IsState e s
      → IsState e (smooth_section e p s gps).1
  smooth_section-IsState p s none h u = u
  smooth_section-IsState p s (some gps) h u =
      smooth_at-IsState p s gps _ _ (section-IsMap "gps" s gps u h) u

  pub smooth_parked_gps-IsState :
      (p : Publisher e) (s : Snapshot e) → IsState e s → IsState e (smooth_parked_gps e p s).1
  unfolding smooth_parked_gps
  smooth_parked_gps-IsState p s u =
      smooth_section-IsState p s (section_fields e (lookup "gps" s)) refl u

  smooth_at-baseline :
      (p : Publisher e) (s : Snapshot e) (gps : GoMap (FieldValue e)) (lat lng : Option e.Float)
      → ((smooth_at e p s gps lat lng).0.last_sent_flat ≡ p.last_sent_flat)
        × ((smooth_at e p s gps lat lng).0.flushes_since_full ≡ p.flushes_since_full)
  smooth_at-baseline p s gps none lng = (refl, refl)
  smooth_at-baseline p s gps (some lat) none = (refl, refl)
  smooth_at-baseline p s gps (some lat) (some lng) =
      elim (Bool-cases (
        not (str_eq (state_of e s) "ready-to-drive")
        && p.last_gps_valid
        && near_last e p lat lng)) [
          | inl held ↦ rw held (refl, refl)
          | inr passed ↦ rw passed (refl, refl)
        ]

  smooth_section-baseline :
      (p : Publisher e) (s : Snapshot e) (gps : Option (GoMap (FieldValue e)))
      → ((smooth_section e p s gps).0.last_sent_flat ≡ p.last_sent_flat)
        × ((smooth_section e p s gps).0.flushes_since_full ≡ p.flushes_since_full)
  smooth_section-baseline p s none = (refl, refl)
  smooth_section-baseline p s (some gps) = smooth_at-baseline p s gps _ _

  pub smooth_parked_gps-baseline :
      (p : Publisher e) (s : Snapshot e)
      → ((smooth_parked_gps e p s).0.last_sent_flat ≡ p.last_sent_flat)
        × ((smooth_parked_gps e p s).0.flushes_since_full ≡ p.flushes_since_full)
  unfolding smooth_parked_gps
  smooth_parked_gps-baseline p s = smooth_section-baseline p s (section_fields e (lookup "gps" s))

  abbrev pub driving : Snapshot e → Bool
  driving s = str_eq (state_of e s) "ready-to-drive"

  -- The fix is less than five metres from the publisher's anchor.
  abbrev pub is_near : Publisher e → e.Float → e.Float → Bool
  is_near p lat lng =
      e.lt_float (haversine_meters e p.last_gps_lat p.last_gps_lng lat lng) (e.literal 5)

  -- The snapshot `out` is `s` with the publisher's anchor as latitude and longitude of its section
  -- gps, which has the other fields of `gps`.
  pub record ReportsAnchor (p : Publisher e) (s : Snapshot e) (gps : GoMap (FieldValue e))
      (out : Snapshot e) : Type 0 where
    pub reported : GoMap (FieldValue e)
    pub fields_of_gps :
        (f : String)
        → lookup f reported ≡ (
            if str_eq "latitude" f
            then some (text (e.format_float p.last_gps_lat))
            else if str_eq "longitude" f
            then some (text (e.format_float p.last_gps_lng))
            else lookup f gps)
    pub sections :
        (h : String)
        → lookup h out ≡ (if str_eq "gps" h then some (fields reported) else lookup h s)

  hold_position-ReportsAnchor :
      (p : Publisher e) (s : Snapshot e) (gps : GoMap (FieldValue e))
      → ReportsAnchor p s gps (insert "gps" (fields (hold_position e p gps)) s)
  hold_position-ReportsAnchor p s gps =
      let lat = text (e.format_float p.last_gps_lat) in
      let lng = text (e.format_float p.last_gps_lng) in
      let first = insert "latitude" lat gps in
      record {
        reported = hold_position e p gps;
        fields_of_gps = λ f. elim (Bool-cases (str_eq "latitude" f)) [
          | inl same ↦ rw same (
              subst (λ g. lookup g (insert "longitude" lng first) ≡ some lat)
                ((eq_iff "latitude" f).0 same)
                (lookup-insert "longitude" "latitude" lng first
                  ∙ lookup-insert "latitude" "latitude" lat gps))
          | inr other ↦ rw other (
              lookup-insert "longitude" f lng first
              ∙ rw (lookup-insert "latitude" f lat gps) (rw other refl))
        ];
        sections = λ h. lookup-insert "gps" h (fields (hold_position e p gps)) s;
      }

  smooth_cases :
      (p : Publisher e) (s : Snapshot e) (gps : GoMap (FieldValue e)) (lat lng : e.Float)
      → let r = smooth_at e p s gps (some lat) (some lng) in
        ((driving s ≡ false)
          × (p.last_gps_valid ≡ true)
          × (is_near p lat lng ≡ true)
          × (r.0 ≡ p)
          × ReportsAnchor p s gps r.1)
        ⊎ (((driving s ≡ true) ⊎ (p.last_gps_valid ≡ false) ⊎ (is_near p lat lng ≡ false))
            × (r ≡ (record p { last_gps_lat = lat; last_gps_lng = lng; last_gps_valid = true }, s)))
  unfolding near_last
  smooth_cases p s gps lat lng =
      elim (Bool-cases (not (driving s) && p.last_gps_valid && is_near p lat lng)) [
        | inl held ↦ rw held (
            inl
              (ground arith, ground arith, ground arith, refl, hold_position-ReportsAnchor p s gps))
        | inr passed ↦ rw passed (inr (ground arith, refl))
      ]

  -- What smoothing does with a fix that parses. Parked, with an anchor less than five metres away:
  -- the anchor's latitude is reported as latitude and its longitude as longitude, no other field
  -- and no other section changes, and the publisher keeps its anchor. In every other case the
  -- snapshot is left alone and the fix becomes the anchor.
  pub smooth_parked_gps_cases :
      (p : Publisher e) (s : Snapshot e) (gps : GoMap (FieldValue e)) (lat lng : e.Float)
      → section_fields e (lookup "gps" s) ≡ some gps
      → parse_float_field e gps "latitude" ≡ some lat
      → parse_float_field e gps "longitude" ≡ some lng
      → let r = smooth_parked_gps e p s in
        ((driving s ≡ false)
          × (p.last_gps_valid ≡ true)
          × (is_near p lat lng ≡ true)
          × (r.0 ≡ p)
          × ReportsAnchor p s gps r.1)
        ⊎ (((driving s ≡ true) ⊎ (p.last_gps_valid ≡ false) ⊎ (is_near p lat lng ≡ false))
            × (r ≡ (record p { last_gps_lat = lat; last_gps_lng = lng; last_gps_valid = true }, s)))
  unfolding smooth_parked_gps
  smooth_parked_gps_cases p s gps lat lng hg ha ho = rw (hg, ha, ho) (smooth_cases p s gps lat lng)
