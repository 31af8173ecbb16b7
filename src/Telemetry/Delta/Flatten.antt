-- ===== src/Telemetry/Delta/Flatten.antt =====
-- What flattenState makes of a snapshot, against a reading of the snapshot at one dotted path.
use uplink_service.Prelude.{
  String, false, Option, none, some, [], ◌∷◌, ◌≡◌, refl, str_eq, if◌then◌else◌, cut_at, join_at,
  arith, eq_iff, cut_at-join_at, cut_at-join_free, inl, inr, Option-cases,
}
use uplink_service.GoMap.{GoMap, lookup, insert, lookup-insert, IsMap, insert-IsMap, lookup-nil}
use uplink_service.Telemetry.Env.{Env, Section, Snapshot, FieldValue, fields, scalar}
use uplink_service.Telemetry.Delta.{
  dot, sprint, flatten_fields, flatten_section, flatten_from, flatten_state,
}
use uplink_service.Telemetry.Delta.Diff.{prefer, HasDot}

module _ (e : Env) where
  abbrev printed : Option (FieldValue e) → Option String
  printed none = none
  printed (some v) = some (sprint e v)

  abbrev section_leaf : Option (Section e) → String → Option String
  section_leaf none f = none
  section_leaf (some (scalar v)) f = none
  section_leaf (some (fields fs)) f = printed (lookup f fs)

  abbrev leaf_of : Option (String × String) → Snapshot e → Option String
  leaf_of none s = none
  leaf_of (some (h, f)) s = section_leaf (lookup h s) f

  -- The text that a snapshot reports at a dotted path: section, dot, field.
  abbrev pub state_leaf : String → Snapshot e → Option String
  state_leaf path s = leaf_of (cut_at dot path) s

  abbrev pub IsSection : Section e → Type 0
  IsSection (fields fs) = IsMap fs
  IsSection (scalar v) = Unit {0}

  -- Go's maps hold a key once, and the names of the sections hold no dot.
  abbrev pub IsState : Snapshot e → Type 0
  IsState [] = Unit {0}
  IsState ((h, v) ∷ s) = (cut_at dot h ≡ none) × IsSection v × (lookup h s ≡ none) × IsState s

  same_path :
      (hash f k h' f' : String)
      → cut_at dot hash ≡ none
      → cut_at dot k ≡ some (h', f')
      → hash ≡ h'
      → str_eq (join_at dot hash f) k ≡ str_eq f f'
  same_path hash f k h' f' free cut eh = ground (
    arith,
    eq_iff (join_at dot hash f) k,
    eq_iff f f',
    cut_at-join_at dot k h' f' cut,
    cut_at-join_free dot hash f free,
  )

  other_path :
      (hash f k h' f' : String)
      → cut_at dot hash ≡ none
      → cut_at dot k ≡ some (h', f')
      → str_eq hash h' ≡ false
      → str_eq (join_at dot hash f) k ≡ false
  other_path hash f k h' f' free cut eh =
      ground
        (arith, eq_iff (join_at dot hash f) k, eq_iff hash h', cut_at-join_free dot hash f free)

  lookup-flatten_fields :
      (hash k h' f' : String) (fs : GoMap (FieldValue e)) (out : GoMap String)
      → cut_at dot hash ≡ none
      → cut_at dot k ≡ some (h', f')
      → IsMap fs
      → lookup k (flatten_fields e hash fs out)
        ≡ (if str_eq hash h' then prefer (printed (lookup f' fs)) (lookup k out) else lookup k out)
  unfolding flatten_fields lookup
  lookup-flatten_fields hash k h' f' [] out free cut u = ground arith
  lookup-flatten_fields hash k h' f' ((f, v) ∷ fs) out free cut u =
      let out' = insert (join_at dot hash f) (sprint e v) out in
      ground (
        arith,
        lookup-flatten_fields hash k h' f' fs out' free cut u.1,
        lookup-insert (join_at dot hash f) k (sprint e v) out,
        same_path hash f k h' f' free cut,
        other_path hash f k h' f' free cut,
        eq_iff hash h',
        eq_iff f f',
      )

  lookup-flatten_section :
      (hash k h' f' : String) (v : Section e) (out : GoMap String)
      → cut_at dot hash ≡ none
      → cut_at dot k ≡ some (h', f')
      → IsSection v
      → lookup k (flatten_section e hash v out) ≡ (
          if str_eq hash h' then prefer (section_leaf (some v) f') (lookup k out) else lookup k out)
  unfolding flatten_section
  lookup-flatten_section hash k h' f' (fields fs) out free cut u =
      lookup-flatten_fields hash k h' f' fs out free cut u
  lookup-flatten_section hash k h' f' (scalar v) out free cut u = ground arith

  lookup-flatten_from :
      (k h' f' : String) (s : Snapshot e) (out : GoMap String)
      → cut_at dot k ≡ some (h', f')
      → IsState s
      → lookup k (flatten_from e s out) ≡ prefer (section_leaf (lookup h' s) f') (lookup k out)
  unfolding flatten_from lookup
  lookup-flatten_from k h' f' [] out cut u = refl
  lookup-flatten_from k h' f' ((h, v) ∷ s) out cut u =
      rw
        (
          lookup-flatten_from k h' f' s (flatten_section e h v out) cut u.3,
          lookup-flatten_section h k h' f' v out u.0 cut u.1,
        )
        (ground (arith, eq_iff h h'))

  -- At every dotted path the flat view of a state holds the text that the state reports there.
  pub lookup-flatten_state :
      (s : Snapshot e) (k : String)
      → IsState s
      → HasDot k
      → lookup k (flatten_state e s) ≡ state_leaf k s
  unfolding flatten_state
  lookup-flatten_state s k u d = elim (Option-cases (cut_at dot k)) [
    | inl none_there ↦ absurd (ground arith)
    | inr ((h, f), cut) ↦
        rw (lookup-flatten_from k h f s [] cut u, cut, lookup-nil {V = String} k) (ground arith)
  ]

  flatten_fields-IsMap :
      (hash : String) (fs : GoMap (FieldValue e)) (out : GoMap String)
      → IsMap out
      → IsMap (flatten_fields e hash fs out)
  unfolding flatten_fields
  flatten_fields-IsMap hash [] out u = u
  flatten_fields-IsMap hash ((f, v) ∷ fs) out u =
      flatten_fields-IsMap hash fs (insert (join_at dot hash f) (sprint e v) out)
        (insert-IsMap (join_at dot hash f) (sprint e v) out u)

  flatten_from-IsMap :
      (s : Snapshot e) (out : GoMap String) → IsMap out → IsMap (flatten_from e s out)
  unfolding flatten_from flatten_section
  flatten_from-IsMap [] out u = u
  flatten_from-IsMap ((h, fields fs) ∷ s) out u =
      flatten_from-IsMap s (flatten_fields e h fs out) (flatten_fields-IsMap h fs out u)
  flatten_from-IsMap ((h, scalar v) ∷ s) out u = flatten_from-IsMap s out u

  pub flatten_state-IsMap : (s : Snapshot e) → IsMap (flatten_state e s)
  unfolding flatten_state
  flatten_state-IsMap s = flatten_from-IsMap s [] tt
