-- ===== src/Config/Assigned.antt =====
-- What internal/config/reflect.go reads behind a SetField.
use uplink_service.Prelude.{
  String, Bool, true, false, Option, none, some, List, [], ◌∷◌, ◌≡◌, refl, arith, Bool-cases,
  Option-cases, inl, inr, sym, subst, str_eq,
}
use uplink_service.Config.Fields.{
  Value, pointer, struct, dict, Fields, end, field, Entries, last, entry, put_entry, Found,
  and_then, matches, field_by_yaml, map_index, descend, resolve_path, can_set, Scalars,
  assign_scalar, put_field, put_step, put, root, done, get_field, set_field, set_found,
}

field_by_yaml-put_field :
    (addressable readable : Bool) (fields : Fields) (name : String) (change : Value → Value)
    (v : Found)
    → field_by_yaml addressable readable fields name ≡ some v
    → field_by_yaml addressable readable (put_field fields name change) name
      ≡ some (record v { value = change v.value })
unfolding field_by_yaml put_field
field_by_yaml-put_field addressable readable end name change v h = absurd (ground arith)
field_by_yaml-put_field addressable readable (field f w fields) name change v h =
    elim (Bool-cases (matches f name)) [
      | inl hit ↦ ground (arith, hit)
      | inr miss ↦
          ground (arith, field_by_yaml-put_field addressable readable fields name change v, miss)
    ]

map_index-put_entry :
    (readable : Bool) (entries : Entries) (key : String) (change : Value → Value) (v : Found)
    → map_index readable entries key ≡ some v
    → map_index readable (put_entry entries key change) key
      ≡ some (record v { value = change v.value })
unfolding map_index put_entry
map_index-put_entry readable last key change v h = absurd (ground arith)
map_index-put_entry readable (entry k w entries) key change v h = elim (Bool-cases (str_eq k key)) [
  | inl hit ↦ ground (arith, hit)
  | inr miss ↦ ground (arith, map_index-put_entry readable entries key change v, miss)
]

-- The value that is put stands in the tree, addressable and readable as the one before.
descend-put_step :
    (addressable readable : Bool) (w : Value) (seg : String) (change : Value → Value) (v : Found)
    → descend addressable readable w seg ≡ some v
    → descend addressable readable (put_step w seg change) seg
      ≡ some (record v { value = change v.value })
unfolding descend put_step
descend-put_step addressable readable (struct fields) seg change v h =
    field_by_yaml-put_field addressable readable fields seg change v h
descend-put_step addressable readable (pointer zero w) seg change v h =
    descend-put_step true readable w seg change v h
descend-put_step addressable readable (dict entries) seg change v h =
    map_index-put_entry readable entries seg change v h
descend-put_step addressable readable w seg change v h = absurd (ground arith)

missing_path :
    (seg : String) (segs : List String) (c : Value) (addressable readable : Bool) (v : Found)
    → descend addressable readable c seg ≡ none
    → resolve_path
        (record { value = c; addressable = addressable; readable = readable })
        (seg ∷ segs)
      ≡ some v
    → ⊥
unfolding resolve_path
missing_path seg segs c addressable readable v missing h = absurd (ground (arith, missing))

resolve_path-put :
    (addressable readable : Bool) (c : Value) (path : List String) (new : Value) (v : Found)
    → resolve_path (record { value = c; addressable = addressable; readable = readable }) path
      ≡ some v
    → resolve_path
        (record { value = put c path new; addressable = addressable; readable = readable })
        path
      ≡ some (record v { value = new })
unfolding resolve_path put
resolve_path-put addressable readable c [] new v h = ground arith
resolve_path-put addressable readable c (seg ∷ segs) new v h =
    elim (Option-cases (descend addressable readable c seg)) [
      | inl missing ↦ absurd (missing_path seg segs c addressable readable v missing h)
      | inr (w, found) ↦
          subst (λ o. and_then o (λ u. resolve_path u segs) ≡ some (record v { value = new }))
            (sym (descend-put_step addressable readable c seg (λ x. put x segs new) w found))
            (resolve_path-put w.addressable w.readable w.value segs new v
              (subst (λ o. and_then o (λ u. resolve_path u segs) ≡ some v) found h))
    ]

readable_found :
    (d : Value) (path : List String) (v : Found) (w : Value)
    → resolve_path (root d) path ≡ some (record v { value = w })
    → v.readable ≡ true
    → get_field d path ≡ done w
unfolding get_field
readable_found d path v w h i = rw h (rw i refl)

-- What a field was set to
abbrev pub ReadsBack : Scalars → Value → List String → String → Value → Type 0
ReadsBack k c path s d =
    (v : Found) × (w : Value) × (resolve_path (root c) path ≡ some v)
    × (assign_scalar k v.value s ≡ some w)
    × (get_field d path ≡ done w)

stored_is :
    (k : Scalars) (c d : Value) (path : List String) (s : String) (v : Found) (w : Value)
    → can_set v ≡ true
    → assign_scalar k v.value s ≡ some w
    → set_found k c path s (some v) ≡ done d
    → put c path w ≡ d
stored_is k c d path s v w settable stores h = ground (arith, settable, stores)

not_stored :
    (k : Scalars) (c d : Value) (path : List String) (s : String) (v : Found)
    → can_set v ≡ true
    → assign_scalar k v.value s ≡ none
    → set_found k c path s (some v) ≡ done d
    → ⊥
not_stored k c d path s v settable refused h = absurd (ground (arith, settable, refused))

not_settable :
    (k : Scalars) (c d : Value) (path : List String) (s : String) (v : Found)
    → can_set v ≡ false
    → set_found k c path s (some v) ≡ done d
    → ⊥
not_settable k c d path s v fixed h = absurd (ground (arith, fixed))

reads_back :
    (k : Scalars) (c d : Value) (path : List String) (s : String) (o : Option Found)
    → resolve_path (root c) path ≡ o
    → set_found k c path s o ≡ done d
    → ReadsBack k c path s d
reads_back k c d path s none r h = absurd (ground arith)
reads_back k c d path s (some v) r h = elim (Bool-cases (can_set v)) [
  | inl settable ↦ elim (Option-cases (assign_scalar k v.value s)) [
    | inl refused ↦ absurd (not_stored k c d path s v settable refused h)
    | inr (w, stores) ↦ (
      v,
      w,
      r,
      stores,
      readable_found d path v w
          (subst (λ x. resolve_path (root x) path ≡ some (record v { value = w }))
            (stored_is k c d path s v w settable stores h)
            (resolve_path-put true true c path w v r))
          (ground arith),
    )
  ]
  | inr fixed ↦ absurd (not_settable k c d path s v fixed h)
]

-- A field that was set successfully stood at its path before, and reads back as what its kind makes of
-- the text: a text as it is, a flag, a number or a float parsed, a pointer as a new one to such a value.
pub set_field-ReadsBack :
    (k : Scalars) (c d : Value) (path : List String) (s : String)
    → set_field k c path s ≡ done d
    → ReadsBack k c path s d
unfolding set_field
set_field-ReadsBack k c d path s h = reads_back k c d path s (resolve_path (root c) path) refl h
