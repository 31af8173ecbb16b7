-- ===== src/Telemetry/Delta/Diff.antt =====
-- What a delta does to a receiver that merges its changes and then deletes its removed paths.
use uplink_service.Prelude.{
  is_empty, sym, ◌∙◌, String, Bool, true, false, not, ◌||◌, ◌&&◌, Option, none, some, List, [], ◌∷◌,
  ◌≡◌, refl, str_eq, if◌then◌else◌, is_some, or_else, cut_at, arith, eq_iff, cut_at-join_at, inl,
  inr, Option-cases, Bool-cases,
}
use uplink_service.GoMap.{GoMap, lookup, insert, lookup-insert, IsMap, insert-IsMap, lookup-nil}
use uplink_service.Telemetry.Delta.{
  dot, differs, changed_from, removed_from, diff_flat, nest_path, nest_from, nest_flat,
}

-- The text that a nested map holds at a dotted path.
abbrev pub leaf_at : Option (String × String) → GoMap (GoMap String) → Option String
leaf_at none nested = none
leaf_at (some (hash, field)) nested = lookup field (or_else (lookup hash nested) [])

pub leaf : String → GoMap (GoMap String) → Option String
leaf path nested = leaf_at (cut_at dot path) nested

abbrev pub contains : String → List String → Bool
contains k [] = false
contains k (j ∷ js) = str_eq j k || contains k js

abbrev pub prefer : Option String → Option String → Option String
prefer none o = o
prefer (some v) o = some v

-- What the receiver holds after it has merged the changes and deleted the removed paths.
abbrev pub merged :
    GoMap (GoMap String) → List String → (String → Option String) → String → Option String
merged changes removed view path =
    if contains path removed then none else prefer (leaf path changes) (view path)

abbrev pub HasDot : String → Type 0
HasDot path = is_some (cut_at dot path) ≡ true

abbrev pub Dotted {ℓ} : {V : Type ℓ} → GoMap V → Type 0
Dotted m = (k : String) → is_some (lookup k m) ≡ true → HasDot k

cut_injective : (p q h f : String) → cut_at dot p ≡ some (h, f) → cut_at dot q ≡ some (h, f) → p ≡ q
cut_injective p q h f ep eq = cc (cut_at-join_at dot p h f ep, cut_at-join_at dot q h f eq)

-- What the first loop leaves at a key, from the three maps' values there.
abbrev kept : Option String → Option String → Option String → Option String
kept old none out = out
kept old (some v) out = if differs old v then some v else out

lookup-changed :
    (old current out : GoMap String) (k : String)
    → IsMap current
    → lookup k (changed_from old current out)
      ≡ kept (lookup k old) (lookup k current) (lookup k out)
unfolding changed_from lookup
lookup-changed old [] out k u = refl
lookup-changed old ((j, v) ∷ rest) out k u = elim (Bool-cases (differs (lookup j old) v)) [
  | inl d ↦ rw d (
      ground (
        arith,
        lookup-changed old rest (insert j v out) k u.1,
        lookup-insert j k v out,
        eq_iff j k,
      ))
  | inr d ↦ rw d (ground (arith, lookup-changed old rest out k u.1, eq_iff j k))
]

contains-removed :
    (current old : GoMap String) (k : String)
    → contains k (removed_from current old)
      ≡ is_some (lookup k old) && not (is_some (lookup k current))
unfolding removed_from lookup
contains-removed current [] k = refl
contains-removed current ((j, v) ∷ rest) k =
    ground (arith, contains-removed current rest k, eq_iff j k)

leaf_cases :
    (path k h f h' f' val : String) (out : GoMap (GoMap String))
    → cut_at dot path ≡ some (h, f)
    → cut_at dot k ≡ some (h', f')
    → lookup f' (or_else (lookup h' (insert h (insert f val (or_else (lookup h out) [])) out)) [])
      ≡ (if str_eq path k then some val else lookup f' (or_else (lookup h' out) []))
leaf_cases path k h f h' f' val out e e' = ground (
  arith,
  lookup-insert h h' (insert f val (or_else (lookup h out) [])) out,
  lookup-insert f f' val (or_else (lookup h out) []),
  eq_iff path k,
  eq_iff h h',
  eq_iff f f',
  cut_injective path k h f,
)

leaf-nest_path :
    (path val k : String) (out : GoMap (GoMap String))
    → HasDot k
    → leaf k (nest_path path val out) ≡ (if str_eq path k then some val else leaf k out)
unfolding leaf nest_path
leaf-nest_path path val k out d = elim (Option-cases (cut_at dot path)) [
  | inl e ↦ ground (arith, eq_iff path k)
  | inr ((h, f), e) ↦ elim (Option-cases (cut_at dot k)) [
    | inl e' ↦ absurd (ground arith)
    | inr ((h', f'), e') ↦ rw (e, e') (leaf_cases path k h f h' f' val out e e')
  ]
]

leaf-nil : (k : String) → leaf k [] ≡ none
unfolding leaf lookup
leaf-nil k = elim (Option-cases (cut_at dot k)) [
  | inl e ↦ rw (e, leaf)
  | inr ((h, f), e) ↦ rw (e, leaf)
]

leaf-nest_from :
    (flat : GoMap String) (k : String) (out : GoMap (GoMap String))
    → HasDot k
    → IsMap flat
    → leaf k (nest_from flat out) ≡ prefer (lookup k flat) (leaf k out)
unfolding nest_from lookup
leaf-nest_from [] k out d u = refl
leaf-nest_from ((path, val) ∷ rest) k out d u = ground (
  arith,
  leaf-nest_from rest k (nest_path path val out) d u.1,
  leaf-nest_path path val k out d,
  eq_iff path k,
)

-- The nested form of a flat map holds the same text at every dotted path.
pub leaf-nest_flat :
    (flat : GoMap String) (k : String)
    → HasDot k
    → IsMap flat
    → leaf k (nest_flat flat) ≡ lookup k flat
unfolding nest_flat leaf lookup
leaf-nest_flat flat k d u = ground (arith, leaf-nest_from flat k [] d u, leaf-nil k)

changed_from-IsMap :
    (old current out : GoMap String) → IsMap out → IsMap (changed_from old current out)
unfolding changed_from
changed_from-IsMap old [] out u = u
changed_from-IsMap old ((k, v) ∷ rest) out u = elim (Bool-cases (differs (lookup k old) v)) [
  | inl d ↦ rw d (changed_from-IsMap old rest (insert k v out) (insert-IsMap k v out u))
  | inr d ↦ rw d (changed_from-IsMap old rest out u)
]

merged_value :
    (old current : Option String)
    → (if is_some old && not (is_some current) then none else prefer (kept old current none) old)
      ≡ current
merged_value none none = refl
merged_value none (some v) = refl
merged_value (some o) none = refl
merged_value (some o) (some v) = ground (arith, eq_iff o v)

-- A receiver that holds the old map at every dotted path holds the current one there, once it has
-- merged the nested changes and deleted the removed paths.
pub merged-diff_flat :
    (old current : GoMap String) (view : String → Option String) (k : String)
    → IsMap current
    → HasDot k
    → view k ≡ lookup k old
    → merged (nest_flat (diff_flat old current).0) (diff_flat old current).1 view k
      ≡ lookup k current
unfolding diff_flat
merged-diff_flat old current view k u d h =
    rw
      (
        contains-removed current old k,
        leaf-nest_flat (changed_from old current []) k d (changed_from-IsMap old current [] tt),
        lookup-changed old current [] k u,
        lookup-nil {V = String} k,
        h,
      )
      (merged_value (lookup k old) (lookup k current))

both_empty :
    (changed : GoMap String) (removed : List String)
    → is_empty changed && is_empty removed ≡ true
    → (changed ≡ []) × (removed ≡ [])
both_empty [] [] h = (refl, refl)
both_empty [] (r ∷ rs) h = absurd (cc)
both_empty (c ∷ cs) removed h = absurd (cc)

merged-nil : (view : String → Option String) (k : String) → merged (nest_flat []) [] view k ≡ view k
unfolding nest_flat nest_from
merged-nil view k = rw (leaf-nil k)

-- An empty difference means that the receiver already holds the current map.
pub empty-diff_flat :
    (old current : GoMap String) (view : String → Option String) (k : String)
    → is_empty (diff_flat old current).0 && is_empty (diff_flat old current).1 ≡ true
    → IsMap current
    → HasDot k
    → view k ≡ lookup k old
    → view k ≡ lookup k current
empty-diff_flat old current view k h u d a =
    let (no_change, no_removal) =
      both_empty (diff_flat old current).0 (diff_flat old current).1 h in
    sym (merged-nil view k)
    ∙ (rw (no_change, no_removal) at (merged-diff_flat old current view k u d a))
