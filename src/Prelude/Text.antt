-- ===== src/Prelude/Text.antt =====
-- The functions of Go's package strings that the program uses, by recursion on the characters.

use Prim.Native.Char.{Char, code}
use Prim.Native.String.{String}
use mathlib.Core.Path.{◌≡◌, refl}
use mathlib.Core.Logic.{◌≢◌, inl, inr}
use mathlib.Core.Bool.{Bool, true, false, ◌&&◌}
use mathlib.Core.Option.{Option, none, some}
use native.Mathlib.Omega.{arith}
use native.Mathlib.Decide.{ℕ_discrete}
use text.Mathlib.Text.{◌==◌ as str_eq}
use text.Mathlib.TextEquality.{eq_iff}
use text.Mathlib.TextPositions.{eq_refl}
use text.Mathlib.TextEquality.{Char-path}
use uplink_service.Prelude.Booleans.{◌==◌, if◌then◌else◌, Option-cases}

-- strings.HasPrefix
unfoldable pub has_prefix : String → String → Bool
has_prefix s String.[] = true
has_prefix String.[] (String.◌∷◌ c p) = false
has_prefix (String.◌∷◌ d s) (String.◌∷◌ c p) = (code d == code c) && has_prefix s p

-- strings.TrimPrefix
unfoldable pub after_prefix : String → String → Option String
after_prefix s String.[] = some s
after_prefix String.[] (String.◌∷◌ c p) = none
after_prefix (String.◌∷◌ d s) (String.◌∷◌ c p) =
    let rest = after_prefix s p in if code d == code c then rest else none

-- The concatenation s + t.
unfoldable pub append : String → String → String
append String.[] t = t
append (String.◌∷◌ c s) t = String.◌∷◌ c (append s t)

pub has_prefix-append : (p s : String) → has_prefix (append p s) p ≡ true
unfolding has_prefix append
has_prefix-append String.[] String.[] = refl
has_prefix-append String.[] (String.◌∷◌ c s) = refl
has_prefix-append (String.◌∷◌ c p) s = ground (arith, has_prefix-append p s)

pub after_prefix-append : (p s : String) → after_prefix (append p s) p ≡ some s
unfolding after_prefix append
after_prefix-append String.[] String.[] = refl
after_prefix-append String.[] (String.◌∷◌ c s) = refl
after_prefix-append (String.◌∷◌ c p) s = ground (arith, after_prefix-append p s)

pub str_eq_self : (s : String) → str_eq s s ≡ true
str_eq_self s = eq_refl s

pub str_eq-false : (s t : String) → s ≢ t → str_eq s t ≡ false
str_eq-false s t h = ground (arith, eq_iff s t)

cons_head : Char → Option (String × String) → Option (String × String)
cons_head c none = none
cons_head c (some (l, r)) = some (String.◌∷◌ c l, r)

-- strings.Index of one character, with the text before it and the text behind it.
unfoldable pub cut_at : Char → String → Option (String × String)
unfolding cons_head
cut_at d String.[] = none
cut_at d (String.◌∷◌ c s) =
    let rest = cut_at d s in if code c == code d then some (String.[], s) else cons_head c rest

unfoldable pub join_at : Char → String → String → String
join_at d String.[] r = String.◌∷◌ d r
join_at d (String.◌∷◌ c l) r = String.◌∷◌ c (join_at d l r)

cut_cases : (d c : Char) → Dec (code c ≡ code d)
cut_cases d c = ℕ_discrete (code c) (code d)

cut_hit :
    (d c : Char) (s l r : String)
    → code c ≡ code d
    → String.[] ≡ l
    → s ≡ r
    → join_at d l r ≡ String.◌∷◌ c s
unfolding join_at
cut_hit d c s l r hit el er = rw (← el) (cc (Char-path c d hit, er))

cut_miss :
    (d c : Char) (s l r a b : String)
    → join_at d a b ≡ s
    → String.◌∷◌ c a ≡ l
    → b ≡ r
    → join_at d l r ≡ String.◌∷◌ c s
unfolding join_at
cut_miss d c s l r a b e el er = rw (← el) (cc)

cut_step :
    (d c : Char) (s l r : String) (o : Option (String × String))
    → cut_at d s ≡ o
    → ((l' r' : String) → cut_at d s ≡ some (l', r') → join_at d l' r' ≡ s)
    → cut_at d (String.◌∷◌ c s) ≡ some (l, r)
    → join_at d l r ≡ String.◌∷◌ c s
unfolding cut_at join_at
cut_step d c s l r none e ih h = elim (cut_cases d c) [
  | yes hit ↦ cut_hit d c s l r hit (ground arith) (ground arith)
  | no miss ↦ absurd (ground arith)
]
cut_step d c s l r (some (a, b)) e ih h = elim (cut_cases d c) [
  | yes hit ↦ cut_hit d c s l r hit (ground arith) (ground arith)
  | no miss ↦ cut_miss d c s l r a b (ih a b e) (ground arith) (ground arith)
]

-- Joining what a cut gives back restores the text.
pub cut_at-join_at : (d : Char) (s l r : String) → cut_at d s ≡ some (l, r) → join_at d l r ≡ s
unfolding cut_at join_at
cut_at-join_at d String.[] l r h = cc
cut_at-join_at d (String.◌∷◌ c s) l r h =
    cut_step d c s l r (cut_at d s) refl (cut_at-join_at d s) h

-- A text that is joined can always be cut.
pub join_at-cut_at :
    (d : Char) (l r : String)
    → (a : String) × (b : String) × (cut_at d (join_at d l r) ≡ some (a, b))
unfolding cut_at join_at
join_at-cut_at d String.[] r = (String.[], r, ground arith)
join_at-cut_at d (String.◌∷◌ c l) r = elim (cut_cases d c) [
  | yes hit ↦ (String.[], join_at d l r, ground arith)
  | no miss ↦ let (a, b, e) = join_at-cut_at d l r in (String.◌∷◌ c a, b, ground (arith, e))
]

-- The first part of a join that does not hold the separator comes back from the cut.
pub cut_at-join_free :
    (d : Char) (l r : String) → cut_at d l ≡ none → cut_at d (join_at d l r) ≡ some (l, r)
unfolding cut_at join_at
cut_at-join_free d String.[] r h = ground arith
cut_at-join_free d (String.◌∷◌ c l) r h = elim (cut_cases d c) [
  | yes hit ↦ absurd (ground arith)
  | no miss ↦ elim (Option-cases (cut_at d l)) [
    | inl e ↦ ground (arith, cut_at-join_free d l r e)
    | inr (p, e) ↦ absurd (ground arith)
  ]
]
