-- ===== src/Commands/Targets.antt =====
-- What resolveUpdateTargets gives back.
use uplink_service.Prelude.{
  String, Bool, true, false, ◌&&◌, List, [], ◌∷◌, ◌≡◌, refl, arith, length, ◌==◌, is_empty,
  if◌then◌else◌, str_eq, eq_iff, ◌⊎◌, inl, inr, Bool-cases,
}
use uplink_service.Commands.Updates.{
  Resolved, targets, contains, both_boards, orchestrated, resolve_update_targets,
}
use uplink_service.Commands.Boards.{all_boards, distinct, Rejects, Keeps, valid_from-Collects}

-- The boards of a request: both, where it names none.
abbrev pub wanted : List String → List String
wanted requested = if is_empty requested then both_boards else requested

-- What is queued for a list of boards.
pub record Queues (wants : List String) (orchestrate_dbc : Bool) (r : Resolved) : Type 0 where
  pub queued : List String
  pub answer : r ≡ targets queued
  pub no_twice : distinct queued ≡ true
  pub boards : all_boards queued ≡ true
  pub same :
      (orchestrate_dbc && (contains "mdb" wants && contains "dbc" wants)) ≡ false
      → (t : String) → contains t queued ≡ contains t wants
  pub alone :
      (orchestrate_dbc && (contains "mdb" wants && contains "dbc" wants)) ≡ true
      → queued ≡ "mdb" ∷ []

one_board : (x : String) → str_eq x "mdb" ≡ true → str_eq x "dbc" ≡ false
one_board x h = rw ((eq_iff x "mdb").0 h) refl

-- Of the two boards, a list without repetition has both exactly when it has two entries.
two_boards :
    (xs : List String)
    → all_boards xs ≡ true
    → distinct xs ≡ true
    → (length xs == 2) ≡ (contains "mdb" xs && contains "dbc" xs)
two_boards [] b d = refl
two_boards (x ∷ []) b d = ground (arith, one_board x)
two_boards (x ∷ y ∷ []) b d = ground (
  arith,
  one_board x,
  one_board y,
  eq_iff x "mdb",
  eq_iff x "dbc",
  eq_iff y "mdb",
  eq_iff y "dbc",
  eq_iff x y,
  eq_iff y x,
)
two_boards (x ∷ y ∷ z ∷ xs) b d = absurd (
    ground (
      arith,
      eq_iff x "mdb",
      eq_iff x "dbc",
      eq_iff y "mdb",
      eq_iff y "dbc",
      eq_iff z "mdb",
      eq_iff z "dbc",
      eq_iff y x,
      eq_iff z x,
      eq_iff z y,
    ))

orchestrated-Queues :
    (wants : List String) (orchestrate_dbc : Bool) (r : Resolved)
    → Keeps [] wants r
    → Queues wants orchestrate_dbc (orchestrated orchestrate_dbc r)
orchestrated-Queues wants orchestrate_dbc r c =
    elim (Bool-cases (orchestrate_dbc && (length c.kept == 2))) [
      | inl both ↦ record {
        queued = "mdb" ∷ [];
        answer = rw c.answer (rw both refl);
        no_twice = refl;
        boards = refl;
        same = λ h.
            absurd
              (ground (arith, two_boards c.kept c.boards c.no_twice, c.same "mdb", c.same "dbc"));
        alone = λ h. refl;
      }
      | inr apart ↦ record {
        queued = c.kept;
        answer = rw c.answer (rw apart refl);
        no_twice = c.no_twice;
        boards = c.boards;
        same = λ h. c.same;
        alone = λ h.
            absurd
              (ground (arith, two_boards c.kept c.boards c.no_twice, c.same "mdb", c.same "dbc"));
      }
    ]

-- If the request names a target that is no board, the answer is an error that names such a target.
-- Otherwise the boards that are queued stand in the list once each and are those that the request
-- names, or both where it names none; but of both boards only the MDB is queued when it
-- orchestrates the DBC.
pub resolve_update_targets_cases :
    (requested : List String) (orchestrate_dbc : Bool)
    → Rejects (wanted requested) (resolve_update_targets requested orchestrate_dbc)
      ⊎ ((all_boards (wanted requested) ≡ true)
          × Queues
              (wanted requested)
              orchestrate_dbc
              (resolve_update_targets requested orchestrate_dbc))
unfolding resolve_update_targets
resolve_update_targets_cases requested orchestrate_dbc =
    elim (valid_from-Collects [] (wanted requested) refl refl) [
      | inl b ↦ inl (record {
        target = b.target;
        answer = rw b.answer refl;
        no_board = b.no_board;
        requested = b.requested;
      })
      | inr (all, c) ↦ inr (all, orchestrated-Queues (wanted requested) orchestrate_dbc _ c)
    ]
