-- ===== src/Timeutil/Reprojection.antt =====
-- A relative time stamp as a later moment of the same process reads it.
use uplink_service.Prelude.{
  ℕ, zero, suc, ◌+◌, ◌-◌, true, false, some, ◌≡◌, refl, arith, ltb, leb, Bool-cases, inl, inr, ◌∙◌,
  has_prefix-append, after_prefix-append,
}
use uplink_service.Prelude.Int.{ℤ, pos, negsuc, neg, difference, ◌+ℤ◌, negated64}
use uplink_service.Timeutil.{Clock, Moment, invalid_prefix, now, is_relative, reproject}

neg_cases : (a n : ℕ) → (pos a +ℤ neg n) ≡ difference a n
unfolding ◌+ℤ◌ difference
neg_cases a zero = ground arith
neg_cases a (suc n) = refl

negsuc_neg : (a n : ℕ) → (negsuc a +ℤ neg n) ≡ negsuc (a + n)
unfolding ◌+ℤ◌ difference
negsuc_neg a zero = ground arith
negsuc_neg a (suc n) = ground arith

-- From the instant that is `later` behind `anchor`, going back by `later - earlier` gives the
-- instant that is `earlier` behind it.
add-negated64 :
    (anchor : ℤ) (later earlier : ℕ)
    → ltb earlier 9223372036854775808 ≡ true
    → (anchor +ℤ pos later) +ℤ negated64 (difference later earlier) ≡ anchor +ℤ pos earlier
unfolding ◌+ℤ◌ difference negated64
add-negated64 (pos a) later earlier h = elim (Bool-cases (leb earlier later)) [
  | inl back ↦ rw back (neg_cases (a + later) (later - earlier) ∙ ground arith)
  | inr ahead ↦ rw ahead (ground arith)
]
add-negated64 (negsuc a) later earlier h = elim (Bool-cases (leb earlier later)) [
  | inl back ↦ rw back (elim (Bool-cases (leb (suc a) later)) [
    | inl over ↦ rw over (neg_cases (later - suc a) (later - earlier) ∙ ground arith)
    | inr under ↦ rw under (negsuc_neg (suc a - later - 1) (later - earlier) ∙ ground arith)
  ])
  | inr ahead ↦ rw ahead (ground arith)
]

-- Another moment of the process of `m`: what its wall clock and its monotonic clock show.
abbrev pub at_moment : (m : Moment) → ℤ → m.Float → Moment
at_moment m wall since = record m { wall_now = wall; since_anchor = since }

-- A stamp made before the clock is valid is relative. Let `offset` be what its text reads as. A
-- moment of the same process, `elapsed` nanoseconds behind the instant that its wall clock gives the
-- anchor, reads the stamp as the instant that is `offset_ns` behind the anchor, when float64
-- subtracts the offset exactly and the offset is below 2^63 nanoseconds.
pub reproject-now :
    (c : Clock) (m : Moment) (since offset : m.Float) (anchor : ℤ) (elapsed offset_ns : ℕ)
    → c.valid ≡ false
    → m.parse_float (m.format_seconds m.since_anchor) ≡ some offset
    → m.to_duration (m.minus since offset) ≡ difference elapsed offset_ns
    → ltb offset_ns 9223372036854775808 ≡ true
    → (is_relative (now c m) ≡ true)
      × (reproject (at_moment m (anchor +ℤ pos elapsed) since) (now c m)
          ≡ (m.rfc3339 (anchor +ℤ pos offset_ns), true))
unfolding now is_relative reproject
reproject-now c m since offset anchor elapsed offset_ns invalid parses exact small = rw invalid (
  has_prefix-append invalid_prefix (m.format_seconds m.since_anchor),
  rw
      (
        has_prefix-append invalid_prefix (m.format_seconds m.since_anchor),
        after_prefix-append invalid_prefix (m.format_seconds m.since_anchor),
        parses,
        exact,
        add-negated64 anchor elapsed offset_ns small,
      )
      refl,
)
