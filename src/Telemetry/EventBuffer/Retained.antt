-- ===== src/Telemetry/EventBuffer/Retained.antt =====
-- What a flush of the queue does with every event of the file.
use uplink_service.Prelude.{
  ℕ, suc, ◌<◌, ◌≤◌, Bool, subst, true, false, Option, none, some, List, [], ◌∷◌, ◌≡◌, refl, arith,
  if◌then◌else◌, is_empty, leb, Bool-cases, Option-cases, inl, inr, ◌⊎◌,
}
use uplink_service.Telemetry.EventBuffer.{
  Bytes, split_lines, EventCodec, join_lines, parsed, Flushed, bumped, Answer, refused, accepted,
  cancelled, flush_lines, flush_buffered_events,
}
use uplink_service.Telemetry.EventBuffer.Lines.{parsed-join_lines}

module _ (k : EventCodec) where
  open k use {Stored, encode, decode, retries, set_retries}

  -- What a flush does with the events of the file, from the answer with number n: the events that it
  -- sends, and those that it keeps, which are none when the context ends it.
  pub data Flushes (max_retries : ℕ) (answer : ℕ → Answer)
      : ℕ → List Stored → List Stored → Option (List Stored) → Type 0 where
    done : (n : ℕ) → Flushes max_retries answer n [] [] (some [])
    gives_up :
        (n : ℕ) (ev : Stored) {evs sent : List Stored} {left : Option (List Stored)}
        → max_retries ≤ retries ev
        → Flushes max_retries answer n evs sent left
        → Flushes max_retries answer n (ev ∷ evs) sent left
    sends :
        (n : ℕ) (ev : Stored) {evs sent : List Stored} {left : Option (List Stored)}
        → retries ev < max_retries
        → answer n ≡ accepted
        → Flushes max_retries answer (suc n) evs sent left
        → Flushes max_retries answer n (ev ∷ evs) (ev ∷ sent) left
    keeps :
        (n : ℕ) (ev tried : Stored) (evs : List Stored)
        → retries ev < max_retries
        → answer n ≡ refused
        → tried ≡ set_retries (suc (retries ev)) ev
        → Flushes max_retries answer n (ev ∷ evs) [] (some (tried ∷ evs))
    stops :
        (n : ℕ) (ev : Stored) (evs : List Stored)
        → retries ev < max_retries
        → answer n ≡ cancelled
        → Flushes max_retries answer n (ev ∷ evs) (ev ∷ []) none

  Answer-cases : (a : Answer) → (a ≡ refused) ⊎ (a ≡ accepted) ⊎ (a ≡ cancelled)
  Answer-cases refused = inl refl
  Answer-cases accepted = inr (inl refl)
  Answer-cases cancelled = inr (inr refl)

  -- The events to write back, unless the context ended the loop.
  abbrev left_of : Flushed k → Option (List Stored)
  left_of r = if r.stopped then none else some r.failed

  flush_lines-Flushes :
      (max_retries : ℕ) (answer : ℕ → Answer) (n : ℕ) (lines : List Bytes)
      → let r = flush_lines k max_retries answer n lines in
        Flushes max_retries answer n (parsed k lines) r.sent (left_of r)
  unfolding flush_lines parsed
  flush_lines-Flushes max_retries answer n [] = done n
  flush_lines-Flushes max_retries answer n (line ∷ lines) =
      let skipped = flush_lines-Flushes max_retries answer n lines in
      let next = flush_lines-Flushes max_retries answer (suc n) lines in
      elim (Bool-cases (is_empty line)) [
        | inl blank ↦ rw blank skipped
        | inr full ↦ rw full (elim (Option-cases (decode line)) [
          | inl bad ↦ rw bad skipped
          | inr (ev, good) ↦ rw good (elim (Bool-cases (leb max_retries (retries ev))) [
            | inl over ↦ rw over (gives_up n ev (ground arith) skipped)
            | inr tries ↦ rw tries (elim (Answer-cases (answer n)) [
              | inl nay ↦ rw nay (keeps n ev (bumped k ev) (parsed k lines) (ground arith) nay refl)
              | inr (inl sent) ↦ rw sent (sends n ev (ground arith) sent next)
              | inr (inr stop) ↦ rw stop (stops n ev (parsed k lines) (ground arith) stop)
            ])
          ])
        ])
      ]

  -- The file behind a flush of the file `old`, by the events that the flush keeps.
  abbrev pub file_after : Bytes → Bool → Bool → Option (List Stored) → Option Bytes
  file_after old rewrites removes none = some old
  file_after old rewrites removes (some []) = if removes then none else some old
  file_after old rewrites removes (some (ev ∷ evs)) =
      if rewrites then some (join_lines k (ev ∷ evs)) else some old

  file_after_lem :
      (old : Bytes) (rewrites removes stopped : Bool) (failed : List Stored)
      → (if stopped
          then some old
          else if is_empty failed
          then (if removes then none else some old)
          else if rewrites
          then some (join_lines k failed)
          else some old)
        ≡ file_after old rewrites removes (if stopped then none else some failed)
  file_after_lem old rewrites removes true failed = refl
  file_after_lem old rewrites removes false [] = refl
  file_after_lem old rewrites removes false (ev ∷ evs) = refl

  -- A flush over a connection that is up, of a file that was written from the events `evs`. It goes
  -- through them in order: an event without a try left is given up, one whose SendEvent is accepted
  -- is sent, and at the first that is refused it keeps this event, with one more try counted, and
  -- all events behind it. The file then holds the events kept, or is removed when there are none;
  -- it stays as it was when it cannot be rewritten or removed, or when the context ends the flush in
  -- the pause behind an event that was sent.
  pub flush_keeps_unsent :
      (max_retries : ℕ) (answer : ℕ → Answer) (rewrites removes : Bool) (evs : List Stored)
      → let old = join_lines k evs in
        let r = flush_buffered_events k max_retries answer true rewrites removes (some old) in
        (left : Option (List Stored)) × Flushes max_retries answer 0 evs r.1 left
        × (r.0 ≡ file_after old rewrites removes left)
  unfolding flush_buffered_events
  flush_keeps_unsent max_retries answer rewrites removes evs =
      let old = join_lines k evs in
      let r = flush_lines k max_retries answer 0 (split_lines old) in
      (
        left_of r,
        subst (λ xs. Flushes max_retries answer 0 xs r.sent (left_of r)) (parsed-join_lines k evs)
            (flush_lines-Flushes max_retries answer 0 (split_lines old)),
        file_after_lem old rewrites removes r.stopped r.failed,
      )
