-- ===== src/Telemetry/Buffer/Subsample.antt =====
-- subsample thins a list and keeps both of its ends.
use uplink_service.Prelude.{
  suc, ◌+◌, ◌/◌, ◌-◌, ◌≤◌, ◌<◌, List, [], ◌∷◌, ◌++◌, ◌≡◌, refl, arith, length, length-append, some,
  head?, get_last?, sym, ◌∙◌,
}
use mathlib.Core.List.{Sublistᴰ}
use uplink_service.Telemetry.Buffer.{every_other, subsample, last_of}

module _ {ℓ} {A : Type ℓ} where
  length-every_other : (x : A) (xs : List A) → length (every_other (x ∷ xs)) ≡ suc (length xs) / 2
  unfolding every_other
  length-every_other x [] = omega arith
  length-every_other x (y ∷ []) = omega arith
  length-every_other x (y ∷ z ∷ rest) = omega (arith, length-every_other z rest)

  -- A list of three or more keeps half of what is between its ends.
  pub length-subsample :
      (xs : List A) → 3 ≤ length xs → length (subsample xs) ≡ (length xs - 1) / 2 + 2
  unfolding subsample
  length-subsample [] h = absurd (omega arith)
  length-subsample (x ∷ []) h = absurd (omega arith)
  length-subsample (x ∷ y ∷ []) h = absurd (omega arith)
  length-subsample (x ∷ y ∷ z ∷ rest) h = omega (
    arith,
    length-every_other y (z ∷ rest),
    length-append (every_other (y ∷ z ∷ rest)) (last_of z rest ∷ []),
  )

  get_last?-append : (xs : List A) (y : A) → get_last? (xs ++ y ∷ []) ≡ some y
  get_last?-append [] y = refl
  get_last?-append (x ∷ []) y = refl
  get_last?-append (x ∷ z ∷ zs) y = get_last?-append (z ∷ zs) y

  get_last?-last_of : (x : A) (xs : List A) → get_last? (x ∷ xs) ≡ some (last_of x xs)
  get_last?-last_of x [] = refl
  get_last?-last_of x (y ∷ ys) = get_last?-last_of y ys

  pub head?-subsample : (xs : List A) → head? (subsample xs) ≡ head? xs
  unfolding subsample
  head?-subsample [] = refl
  head?-subsample (x ∷ []) = refl
  head?-subsample (x ∷ y ∷ []) = refl
  head?-subsample (x ∷ y ∷ z ∷ rest) = refl

  pub get_last?-subsample : (xs : List A) → get_last? (subsample xs) ≡ get_last? xs
  unfolding subsample
  get_last?-subsample [] = refl
  get_last?-subsample (x ∷ []) = refl
  get_last?-subsample (x ∷ y ∷ []) = refl
  get_last?-subsample (x ∷ y ∷ z ∷ rest) =
      get_last?-append (x ∷ every_other (y ∷ z ∷ rest)) (last_of z rest)
      ∙ sym (get_last?-last_of z rest)

  every_other-sublist :
      (x : A) (xs : List A) → Sublistᴰ (every_other (x ∷ xs) ++ last_of x xs ∷ []) (x ∷ xs)
  unfolding every_other
  every_other-sublist x [] = Sublistᴰ.cons-cons refl Sublistᴰ.slnil
  every_other-sublist x (y ∷ []) = Sublistᴰ.cons-cons refl (Sublistᴰ.cons-cons refl Sublistᴰ.slnil)
  every_other-sublist x (y ∷ z ∷ rest) =
      Sublistᴰ.cons-cons refl (Sublistᴰ.cons (every_other-sublist z rest))

  pub subsample-sublist : (xs : List A) → Sublistᴰ (subsample xs) xs
  unfolding subsample
  subsample-sublist [] = Sublistᴰ.slnil
  subsample-sublist (x ∷ []) = Sublistᴰ.cons-cons refl Sublistᴰ.slnil
  subsample-sublist (x ∷ y ∷ []) = Sublistᴰ.cons-cons refl (Sublistᴰ.cons-cons refl Sublistᴰ.slnil)
  subsample-sublist (x ∷ y ∷ z ∷ rest) = Sublistᴰ.cons-cons refl (every_other-sublist y (z ∷ rest))

  -- Thinning keeps the first and the last entry and the order, and leaves (n - 1) / 2 + 2 of n
  -- entries, when there are three or more.
  pub subsample_keeps_ends :
      (xs : List A)
      → (head? (subsample xs) ≡ head? xs)
        × (get_last? (subsample xs) ≡ get_last? xs)
        × Sublistᴰ (subsample xs) xs
        × (3 ≤ length xs → length (subsample xs) ≡ (length xs - 1) / 2 + 2)
  subsample_keeps_ends xs =
      (head?-subsample xs, get_last?-subsample xs, subsample-sublist xs, length-subsample xs)

  pub length-subsample-small : (xs : List A) → length xs < 3 → length (subsample xs) ≡ length xs
  unfolding subsample
  length-subsample-small [] h = refl
  length-subsample-small (x ∷ []) h = refl
  length-subsample-small (x ∷ y ∷ []) h = refl
  length-subsample-small (x ∷ y ∷ z ∷ rest) h = absurd (omega arith)
