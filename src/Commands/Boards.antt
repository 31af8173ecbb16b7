-- ===== src/Commands/Boards.antt =====
-- The loop of resolveUpdateTargets.
use uplink_service.Prelude.{
  String, Bool, true, false, not, ◌&&◌, ◌||◌, List, [], ◌∷◌, ◌++◌, ◌≡◌, refl, arith, ap, sym, subst,
  ◌∙◌, str_eq, str_eq_self, eq_iff, ◌⊎◌, inl, inr, Bool-cases,
}
use uplink_service.Commands.Updates.{Resolved, invalid_target, targets, contains, valid_from}

abbrev pub is_board : String → Bool
is_board t = str_eq t "mdb" || str_eq t "dbc"

-- All targets are boards.
abbrev pub all_boards : List String → Bool
all_boards [] = true
all_boards (t ∷ ts) = is_board t && all_boards ts

-- No target stands twice.
abbrev pub distinct : List String → Bool
distinct [] = true
distinct (t ∷ ts) = not (contains t ts) && distinct ts

contains-append :
    (t x : String) (xs : List String) → contains t (xs ++ x ∷ []) ≡ (contains t xs || str_eq x t)
contains-append t x [] = ground arith
contains-append t x (y ∷ xs) = ground (arith, contains-append t x xs)

contains_same :
    (t x : String) (xs : List String) → str_eq t x ≡ true → contains t xs ≡ contains x xs
contains_same t x xs e = ap (λ s. contains s xs) ((eq_iff t x).0 e)

distinct-append :
    (x : String) (xs : List String)
    → contains x xs ≡ false
    → distinct xs ≡ true
    → distinct (xs ++ x ∷ []) ≡ true
distinct-append x [] h d = ground arith
distinct-append x (y ∷ xs) h d =
    ground (arith, distinct-append x xs, contains-append y x xs, eq_iff x y, eq_iff y x)

all_boards-append :
    (x : String) (xs : List String)
    → is_board x ≡ true
    → all_boards xs ≡ true
    → all_boards (xs ++ x ∷ []) ≡ true
all_boards-append x [] h b = ground arith
all_boards-append x (y ∷ xs) h b = ground (arith, all_boards-append x xs)

-- The loop met a target that is no board.
pub record Rejects (ts : List String) (r : Resolved) : Type 0 where
  pub target : String
  pub answer : r ≡ invalid_target target
  pub no_board : is_board target ≡ false
  pub requested : contains target ts ≡ true

-- The loop kept one of each target, beside those it had.
pub record Keeps (valid ts : List String) (r : Resolved) : Type 0 where
  pub kept : List String
  pub answer : r ≡ targets kept
  pub no_twice : distinct kept ≡ true
  pub boards : all_boards kept ≡ true
  pub same : (t : String) → contains t kept ≡ (contains t valid || contains t ts)

abbrev pub Collects : List String → List String → Resolved → Type 0
Collects valid ts r = Rejects ts r ⊎ ((all_boards ts ≡ true) × Keeps valid ts r)

not_board : (t : String) → (not (str_eq t "mdb") && not (str_eq t "dbc")) ≡ not (is_board t)
not_board t = ground arith

Rejects-cons : (t : String) (ts : List String) (r : Resolved) → Rejects ts r → Rejects (t ∷ ts) r
Rejects-cons t ts r b = record {
  target = b.target;
  answer = b.answer;
  no_board = b.no_board;
  requested = ground (arith, b.requested);
}

Collects-seen :
    (valid : List String) (t : String) (ts : List String) (r : Resolved)
    → is_board t ≡ true
    → contains t valid ≡ true
    → Collects valid ts r
    → Collects valid (t ∷ ts) r
Collects-seen valid t ts r board seen (inl b) = inl (Rejects-cons t ts r b)
Collects-seen valid t ts r board seen (inr (all, c)) = inr (
  ground arith,
  record {
    kept = c.kept;
    answer = c.answer;
    no_twice = c.no_twice;
    boards = c.boards;
    same = λ x. c.same x ∙ seen_again valid t ts x seen;
  },
)
  where
    seen_again :
        (valid : List String) (t : String) (ts : List String) (x : String)
        → contains t valid ≡ true
        → (contains x valid || contains x ts) ≡ (contains x valid || (str_eq t x || contains x ts))
    seen_again valid t ts x h = elim (Bool-cases (str_eq t x)) [
      | inl e ↦ rw (← contains_same t x valid e) (rw h refl)
      | inr e ↦ rw e refl
    ]

Collects-new :
    (valid : List String) (t : String) (ts : List String) (r : Resolved)
    → is_board t ≡ true
    → Collects (valid ++ t ∷ []) ts r
    → Collects valid (t ∷ ts) r
Collects-new valid t ts r board (inl b) = inl (Rejects-cons t ts r b)
Collects-new valid t ts r board (inr (all, c)) = inr (
  ground arith,
  record {
    kept = c.kept;
    answer = c.answer;
    no_twice = c.no_twice;
    boards = c.boards;
    same = λ x. ground (arith, c.same x, contains-append x t valid);
  },
)

valid_from_seen :
    (valid : List String) (t : String) (ts : List String)
    → is_board t ≡ true
    → contains t valid ≡ true
    → valid_from valid (t ∷ ts) ≡ valid_from valid ts
unfolding valid_from
valid_from_seen valid t ts board seen = rw (not_board t) (rw board (rw seen refl))

valid_from_fresh :
    (valid : List String) (t : String) (ts : List String)
    → is_board t ≡ true
    → contains t valid ≡ false
    → valid_from valid (t ∷ ts) ≡ valid_from (valid ++ t ∷ []) ts
unfolding valid_from
valid_from_fresh valid t ts board fresh = rw (not_board t) (rw board (rw fresh refl))

pub valid_from-Collects :
    (valid ts : List String)
    → distinct valid ≡ true
    → all_boards valid ≡ true
    → Collects valid ts (valid_from valid ts)
unfolding valid_from
valid_from-Collects valid [] d b = inr (
  refl,
  record { kept = valid; answer = refl; no_twice = d; boards = b; same = λ x. ground arith },
)
valid_from-Collects valid (t ∷ ts) d b = elim (Bool-cases (is_board t)) [
  | inr stray ↦ inl (record {
    target = t;
    answer = rw (not_board t) (rw stray refl);
    no_board = stray;
    requested = ground (arith, str_eq_self t);
  })
  | inl board ↦ elim (Bool-cases (contains t valid)) [
    | inl seen ↦
        subst (λ r. Collects valid (t ∷ ts) r) (sym (valid_from_seen valid t ts board seen))
          (Collects-seen valid t ts (valid_from valid ts) board seen
            (valid_from-Collects valid ts d b))
    | inr fresh ↦
        subst (λ r. Collects valid (t ∷ ts) r) (sym (valid_from_fresh valid t ts board fresh))
          (Collects-new valid t ts (valid_from (valid ++ t ∷ []) ts) board (
            valid_from-Collects (valid ++ t ∷ []) ts (distinct-append t valid fresh d)
              (all_boards-append t valid board b)))
  ]
]
