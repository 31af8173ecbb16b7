-- ===== src/RideGroup/Challenges.antt =====
-- The loop of pruneChallengesLocked that evicts challenges.
use uplink_service.Prelude.{
  ℕ, zero, suc, ◌+◌, ◌≤◌, ◌<◌, String, true, [], ◌∷◌, ◌≡◌, refl, arith, ◌⊎◌, length, inl, eq_iff,
  is_some,
}
use uplink_service.GoMap.{GoMap, lookup, erase}
use uplink_service.RideGroup.Controls.{oldest_of, evict}

length-erase : (k : String) (m : GoMap ℕ) → length (erase k m) ≤ length m
unfolding erase
length-erase k [] = omega arith
length-erase k ((j, v) ∷ m) = ground (arith, length-erase k m)

length-erase_hit :
    (k : String) (m : GoMap ℕ) → is_some (lookup k m) ≡ true → length (erase k m) < length m
unfolding erase lookup
length-erase_hit k [] h = absurd (ground arith)
length-erase_hit k ((j, v) ∷ m) h = ground (arith, length-erase k m, length-erase_hit k m)

-- The loop over the map ends with a key of it, or with the one it began with.
oldest_of_cases :
    (k : String) (at : ℕ) (m : GoMap ℕ)
    → (oldest_of k at m ≡ k) ⊎ (is_some (lookup (oldest_of k at m) m) ≡ true)
unfolding oldest_of lookup
oldest_of_cases k at [] = inl refl
oldest_of_cases k at ((j, sent) ∷ m) = ground (
  arith,
  oldest_of_cases k at m,
  oldest_of_cases j sent m,
  eq_iff j (oldest_of j sent m),
  eq_iff j (oldest_of k at m),
)

oldest_is_there :
    (j : String) (at : ℕ) (m : GoMap ℕ)
    → is_some (lookup (oldest_of "" 0 ((j, at) ∷ m)) ((j, at) ∷ m)) ≡ true
unfolding oldest_of lookup
oldest_is_there j at m = ground (arith, oldest_of_cases j at m, eq_iff j (oldest_of j at m))

evict_ends : (fuel : ℕ) (m : GoMap ℕ) → length m ≤ fuel → length (evict fuel m) < 10
unfolding evict
evict_ends zero m h = omega (arith, h)
evict_ends (suc fuel) [] h = omega arith
evict_ends (suc fuel) ((j, at) ∷ m) h =
    let rest = erase (oldest_of "" 0 ((j, at) ∷ m)) ((j, at) ∷ m) in
    ground (
      arith,
      evict_ends fuel rest,
      length-erase_hit (oldest_of "" 0 ((j, at) ∷ m)) ((j, at) ∷ m) (oldest_is_there j at m),
    )

evict_settles :
    (fuel more : ℕ) (m : GoMap ℕ) → length m ≤ fuel → length m ≤ more → evict more m ≡ evict fuel m
unfolding evict
evict_settles zero zero m h i = refl
evict_settles zero (suc more) [] h i = refl
evict_settles zero (suc more) (x ∷ m) h i = absurd (omega (arith, h))
evict_settles (suc fuel) zero [] h i = refl
evict_settles (suc fuel) zero (x ∷ m) h i = absurd (omega (arith, i))
evict_settles (suc fuel) (suc more) [] h i = refl
evict_settles (suc fuel) (suc more) ((j, at) ∷ m) h i =
    let rest = erase (oldest_of "" 0 ((j, at) ∷ m)) ((j, at) ∷ m) in
    ground (
      arith,
      evict_settles fuel more rest,
      length-erase_hit (oldest_of "" 0 ((j, at) ∷ m)) ((j, at) ∷ m) (oldest_is_there j at m),
    )

-- The loop that evicts the oldest challenges ends with fewer than ten of them, and a fuel of as many
-- steps as there are challenges is enough: with more of it the loop gives the same.
pub evict_terminates :
    (challenges : GoMap ℕ) (more : ℕ)
    → (length (evict (length challenges) challenges) < 10)
      × (evict (length challenges + more) challenges ≡ evict (length challenges) challenges)
evict_terminates challenges more = (
  evict_ends (length challenges) challenges (omega arith),
  evict_settles (length challenges) (length challenges + more) challenges (omega arith)
      (omega arith),
)
