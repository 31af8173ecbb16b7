-- ===== src/Prelude/Int.antt =====
-- Signed integers, and strconv.Atoi on the decimal texts of Go's 64-bit int.
use Prim.Native.Nat.{ℕ, zero, suc, ◌+◌, ◌-◌, ◌*◌, min}
use Prim.Native.Char.{Char, code}
use Prim.Native.String.{String}
use mathlib.Core.Bool.{Bool, true, false, ◌&&◌}
use mathlib.Core.Option.{Option, none, some}
use uplink_service.Prelude.Booleans.{leb, ltb, ◌==◌, if◌then◌else◌}

-- `negsuc n` is -(n + 1).
pub data ℤ : Type 0 where
  pos : ℕ → ℤ
  negsuc : ℕ → ℤ

-- i <= n for a constant n that is not negative
abbrev pub at_most : ℤ → ℕ → Bool
at_most (pos m) n = leb m n
at_most (negsuc m) n = true

-- i > n for a constant n that is not negative
abbrev pub more_than : ℤ → ℕ → Bool
more_than (pos m) n = ltb n m
more_than (negsuc m) n = false

abbrev pub neg : ℕ → ℤ
neg zero = pos zero
neg (suc n) = negsuc n

-- a - b
unfoldable pub difference : ℕ → ℕ → ℤ
difference a b = if leb b a then pos (a - b) else negsuc (b - a - 1)

unfoldable pub ◌+ℤ◌ : ℤ → ℤ → ℤ
unfolding difference
pos a +ℤ pos b = pos (a + b)
pos a +ℤ negsuc b = difference a (suc b)
negsuc a +ℤ pos b = difference b (suc a)
negsuc a +ℤ negsuc b = negsuc (suc (a + b))

infixl 6 ◌+ℤ◌
-- -i for an int64, which leaves the least one as it is
unfoldable pub negated64 : ℤ → ℤ
negated64 (pos n) = neg n
negated64 (negsuc n) = if n == 9223372036854775807 then negsuc n else pos (suc n)

abbrev max_uint64 : ℕ
max_uint64 = 18446744073709551615

abbrev int64_cutoff : ℕ
int64_cutoff = 9223372036854775808

is_digit : Char → Bool
is_digit c = leb b'0' (code c) && leb (code c) b'9'

-- The loop of ParseUint: none is a syntax error; a range error gives the largest value at once.
digits_from : ℕ → String → Option ℕ
unfolding is_digit
digits_from n String.[] = some n
digits_from n (String.◌∷◌ c s) =
    let next = n * 10 + (code c - b'0') in
    let rest = digits_from next s in
    if is_digit c then (if ltb max_uint64 next then some max_uint64 else rest) else none

digits : String → Option ℕ
unfolding digits_from
digits String.[] = none
digits (String.◌∷◌ c s) = digits_from 0 (String.◌∷◌ c s)

abbrev or_zero : (ℕ → ℤ) → Option ℕ → ℤ
or_zero f none = pos 0
or_zero f (some n) = f n

-- The value that Atoi returns, also beside an error: zero for a text that is no number, the nearest
-- int64 for one that is out of range.
unfoldable pub atoi : String → ℤ
unfolding digits
atoi String.[] = pos 0
atoi (String.◌∷◌ c s) =
    if code c == b'-'
    then or_zero (λ n. neg (min n int64_cutoff)) (digits s)
    else if code c == b'+'
    then or_zero (λ n. pos (min n (int64_cutoff - 1))) (digits s)
    else or_zero (λ n. pos (min n (int64_cutoff - 1))) (digits (String.◌∷◌ c s))
