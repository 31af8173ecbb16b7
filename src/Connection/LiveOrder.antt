-- ===== src/Connection/LiveOrder.antt =====
-- The order in which the pending live frames are taken.
use uplink_service.Prelude.{
  ◌≤◌, String, none, some, [], ◌∷◌, ◌≡◌, refl, arith, ap, sym, ◌≢◌, str_eq, str_eq_self, All, ltb,
  eq_iff, Bool-cases, inl, inr, ◌⊎◌,
}
use uplink_service.GoMap.{GoMap, IsMap, lookup, erase}
use uplink_service.Connection.State.{Codec, Manager, LiveFrame}
use uplink_service.Connection.Live.{oldest_from, take_live}

-- The frame of a pending entry is not older than the given one.
abbrev pub NotBefore : LiveFrame → String × LiveFrame → Type 0
NotBefore f (key, g) = f.order ≤ g.order

All-weaken :
    (f g : LiveFrame) (m : GoMap LiveFrame)
    → f.order ≤ g.order
    → All (NotBefore g) m
    → All (NotBefore f) m
All-weaken f g [] le h = tt
All-weaken f g ((key, x) ∷ m) le h = (omega arith, All-weaken f g m le h.1)

-- What the loop of takeLive finds when it starts with a best frame.
record Finds (bk : String) (best : LiveFrame) (m : GoMap LiveFrame) : Type 0 where
  key : String
  frame : LiveFrame
  found : oldest_from (some (bk, best)) m ≡ some (key, frame)
  least : All (NotBefore frame) m
  not_after : frame.order ≤ best.order
  origin : ((key ≡ bk) × (frame ≡ best)) ⊎ (lookup key m ≡ some frame)

absent_twice :
    (key k0 : String) (f : LiveFrame) (m : GoMap LiveFrame)
    → lookup k0 m ≡ none
    → lookup key m ≡ some f
    → k0 ≢ key
absent_twice key k0 f m absent h e = absurd (cc (ap (λ x. lookup x m) e))

origin_behind :
    (key k0 : String) (f g : LiveFrame) (m : GoMap LiveFrame)
    → lookup k0 m ≡ none
    → lookup key m ≡ some f
    → lookup key ((k0, g) ∷ m) ≡ some f
unfolding lookup
origin_behind key k0 f g m absent h = elim (Bool-cases (str_eq k0 key)) [
  | inl same ↦ absurd (ground (arith, absent_twice key k0 f m absent h, eq_iff k0 key))
  | inr other ↦ rw other h
]

origin_first :
    (key k0 : String) (f g : LiveFrame) (m : GoMap LiveFrame)
    → lookup k0 m ≡ none
    → ((key ≡ k0) × (f ≡ g)) ⊎ (lookup key m ≡ some f)
    → lookup key ((k0, g) ∷ m) ≡ some f
unfolding lookup
origin_first key k0 f g m absent (inl (ek, ef)) =
    rw (← ek) (rw (str_eq_self key) (ap some (sym ef)))
origin_first key k0 f g m absent (inr h) = origin_behind key k0 f g m absent h

oldest_from-Finds :
    (bk : String) (best : LiveFrame) (m : GoMap LiveFrame) → IsMap m → Finds bk best m
unfolding oldest_from
oldest_from-Finds bk best [] u = record {
  key = bk;
  frame = best;
  found = refl;
  least = tt;
  not_after = omega arith;
  origin = inl (refl, refl);
}
oldest_from-Finds bk best ((k0, g) ∷ m) u = elim (Bool-cases (ltb g.order best.order)) [
  | inl older ↦
      let o = oldest_from-Finds k0 g m u.1 in
      record {
        key = o.key;
        frame = o.frame;
        found = rw older o.found;
        least = (o.not_after, o.least);
        not_after = ground (arith, o.not_after);
        origin = inr (origin_first o.key k0 o.frame g m u.0 o.origin);
      }
  | inr newer ↦
      let o = oldest_from-Finds bk best m u.1 in
      record {
        key = o.key;
        frame = o.frame;
        found = rw newer o.found;
        least = (ground (arith, o.not_after), o.least);
        not_after = o.not_after;
        origin = elim o.origin [
          | inl at_best ↦ inl at_best
          | inr behind ↦ inr (origin_behind o.key k0 o.frame g m u.0 behind)
        ];
      }
]

pub oldest_from-some :
    (bk : String) (best : LiveFrame) (rest : GoMap LiveFrame)
    → (r : String × LiveFrame) × (oldest_from (some (bk, best)) rest ≡ some r)
unfolding oldest_from
oldest_from-some bk best [] = ((bk, best), refl)
oldest_from-some bk best ((key, frame) ∷ rest) = elim (Bool-cases (ltb frame.order best.order)) [
  | inl older ↦ rw older (oldest_from-some key frame rest)
  | inr newer ↦ rw newer (oldest_from-some bk best rest)
]

pub oldest_from-none : (m : GoMap LiveFrame) → oldest_from none m ≡ none → m ≡ []
unfolding oldest_from
oldest_from-none [] h = refl
oldest_from-none ((key, frame) ∷ rest) h =
    let (r, e) = oldest_from-some key frame rest in absurd (cc)

module _ {k : Codec} where
  -- What one call of takeLive does: it takes the pending frame with the least order, whichever
  -- entry the iteration over the map meets first, and leaves the others.
  pub record Takes (m : Manager k) : Type 0 where
    pub key : String
    pub frame : LiveFrame
    pub taken : (take_live m).1 ≡ some frame
    pub pending : lookup key m.live_pending ≡ some frame
    pub least : All (NotBefore frame) m.live_pending
    pub rest : (take_live m).0.live_pending ≡ erase key m.live_pending

  Takes-first :
      (m : Manager k) (key : String) (frame : LiveFrame) (rest : GoMap LiveFrame)
      → m.live_pending ≡ (key, frame) ∷ rest
      → IsMap ((key, frame) ∷ rest)
      → Takes m
  unfolding take_live oldest_from
  Takes-first m key frame rest h u =
      let o = oldest_from-Finds key frame rest u.1 in
      record {
        key = o.key;
        frame = o.frame;
        taken = simp (h, o.found);
        pending = rw h (origin_first o.key key o.frame frame rest u.0 o.origin);
        least = rw h (o.not_after, o.least);
        rest = simp (h, o.found);
      }

  -- If no type stands twice among the pending frames, takeLive finds nothing exactly when none is
  -- pending, and otherwise takes the frame with the least order and leaves the others.
  pub take_live_cases :
      (m : Manager k)
      → IsMap m.live_pending
      → ((m.live_pending ≡ []) × (take_live m ≡ (m, none))) ⊎ Takes m
  unfolding take_live oldest_from
  take_live_cases m u = cases m.live_pending refl u
    where
      cases :
          (p : GoMap LiveFrame)
          → m.live_pending ≡ p
          → IsMap p
          → ((m.live_pending ≡ []) × (take_live m ≡ (m, none))) ⊎ Takes m
      cases [] h u = inl (h, simp h refl)
      cases ((key, frame) ∷ rest) h u = inr (Takes-first m key frame rest h u)
