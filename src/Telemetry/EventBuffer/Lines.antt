-- ===== src/Telemetry/EventBuffer/Lines.antt =====
-- The queue's file as lines: splitting undoes joining, and appending adds one line.
use uplink_service.Prelude.{
  Bool-cases, ℕ, zero, suc, Bool, true, false, Option, none, some, take, List, [], ◌∷◌, ◌++◌, ◌≡◌,
  ◌⊎◌, inl, inr, refl, append-nil, append_assoc, ap, ◌∙◌, sym, subst, is_empty,
}
use uplink_service.Telemetry.EventBuffer.{
  Bytes, newline, split_from, split_lines, EventCodec, NoNewline, join_lines, buffer_event, parsed,
  last_line, add_parsed, AppendEnd, marshal_failed, mkdir_failed, open_failed, write_failed,
  newline_failed, sync_failed, close_failed, all_done, opened, with_retries,
}

split_line :
    (current line rest : Bytes)
    → NoNewline line
    → split_from current (line ++ newline ∷ rest) ≡ (current ++ line) ∷ split_from [] rest
unfolding split_from
split_line current [] rest h = rw append-nil
split_line current (c ∷ cs) rest h =
    rw h.0 (rw (split_line (current ++ c ∷ []) cs rest h.1) (rw append_assoc))

split_partial :
    (current cs : Bytes) → NoNewline cs → split_from current cs ≡ last_line (current ++ cs)
unfolding split_from
split_partial current [] h = rw append-nil refl
split_partial current (c ∷ cs) h =
    rw h.0 (split_partial (current ++ c ∷ []) cs h.1 ∙ rw append_assoc refl)

take-NoNewline : (n : ℕ) (cs : Bytes) → NoNewline cs → NoNewline (take n cs)
take-NoNewline zero cs h = tt
take-NoNewline (suc n) [] h = tt
take-NoNewline (suc n) (c ∷ cs) h = (h.0, take-NoNewline n cs h.1)

module _ (k : EventCodec) where
  open k use {Stored, encode, decode, has_retries, set_retries, decode-encode, encode_one_line}

  -- A file that was written from events, and then has other bytes, parses to those events and to
  -- what the other bytes hold.
  parsed-join_lines-append :
      (evs : List Stored) (rest : Bytes)
      → parsed k (split_lines (join_lines k evs ++ rest)) ≡ evs ++ parsed k (split_lines rest)
  unfolding split_lines join_lines parsed split_from
  parsed-join_lines-append [] rest = refl
  parsed-join_lines-append (ev ∷ evs) rest = rw append_assoc (
      rw (split_line [] (encode ev) (join_lines k evs ++ rest) (encode_one_line ev).0) (
        rw ((encode_one_line ev).1, decode-encode ev)
          (ap (◌∷◌ ev) (parsed-join_lines-append evs rest))))

  pub parsed-join_lines : (evs : List Stored) → parsed k (split_lines (join_lines k evs)) ≡ evs
  unfolding split_lines parsed split_from
  parsed-join_lines evs =
      ap (λ s. parsed k (split_lines s)) (sym (append-nil (join_lines k evs)))
      ∙ (parsed-join_lines-append evs [] ∙ append-nil evs)

  join_lines-append :
      (evs : List Stored) (ev : Stored)
      → join_lines k evs ++ (encode ev ++ newline ∷ []) ≡ join_lines k (evs ++ ev ∷ [])
  unfolding join_lines
  join_lines-append [] ev = refl
  join_lines-append (x ∷ evs) ev =
      rw append_assoc (ap (λ t. encode x ++ newline ∷ t) (join_lines-append evs ev))

  -- The event that a line is read as, if any.
  abbrev pub read_line : Bytes → List Stored
  read_line [] = []
  read_line (c ∷ cs) = add_parsed k (decode (c ∷ cs)) []

  parsed-partial : (cs : Bytes) → NoNewline cs → parsed k (split_lines cs) ≡ read_line cs
  unfolding split_lines parsed
  parsed-partial [] h = ap (parsed k) (split_partial [] [] h)
  parsed-partial (c ∷ cs) h = ap (parsed k) (split_partial [] (c ∷ cs) h)

  read_line-encode : (ev : Stored) (cs : Bytes) → encode ev ≡ cs → read_line cs ≡ ev ∷ []
  read_line-encode ev [] h = absurd (cc ((encode_one_line ev).1, ap is_empty h))
  read_line-encode ev (c ∷ cs) h = rw (subst (λ s. decode s ≡ some ev) h (decode-encode ev)) refl

  -- The file holds these events and nothing else; a file that is not there holds none.
  abbrev pub IsQueue : List Stored → Option Bytes → Type 0
  IsQueue evs file = (file ≡ some (join_lines k evs)) ⊎ ((file ≡ none) × (evs ≡ []))

  -- What a flush reads behind the events that the file held.
  abbrev pub gained : AppendEnd → Stored → List Stored
  gained marshal_failed ev = []
  gained mkdir_failed ev = []
  gained open_failed ev = []
  gained (write_failed n) ev = read_line (take n (encode ev))
  gained newline_failed ev = ev ∷ []
  gained sync_failed ev = ev ∷ []
  gained close_failed ev = ev ∷ []
  gained all_done ev = ev ∷ []

  -- Whether the file can end in a line that has no newline.
  abbrev pub is_partial : AppendEnd → Bool
  is_partial (write_failed n) = true
  is_partial newline_failed = true
  is_partial _ = false

  opened-IsQueue :
      (evs : List Stored) (file : Option Bytes) → IsQueue evs file → opened file ≡ join_lines k evs
  unfolding join_lines
  opened-IsQueue evs file (inl there) = rw there refl
  opened-IsQueue evs file (inr (missing, nothing)) = rw (missing, nothing) refl

  parsed-opened :
      (evs : List Stored) (file : Option Bytes) (rest : Bytes)
      → IsQueue evs file
      → parsed k (split_lines (opened file ++ rest)) ≡ evs ++ parsed k (split_lines rest)
  parsed-opened evs file rest q =
      ap (λ s. parsed k (split_lines (s ++ rest))) (opened-IsQueue evs file q)
      ∙ parsed-join_lines-append evs rest

  untouched :
      (evs : List Stored) (file : Option Bytes)
      → IsQueue evs file
      → (parsed k (split_lines (opened file)) ≡ evs ++ []) × IsQueue (evs ++ []) file
  untouched evs file q =
      rw append-nil
        (ap (λ s. parsed k (split_lines s)) (opened-IsQueue evs file q) ∙ parsed-join_lines evs, q)

  appended :
      (evs : List Stored) (file : Option Bytes) (ev : Stored)
      → IsQueue evs file
      → let after = opened file ++ (encode ev ++ newline ∷ []) in
        (parsed k (split_lines after) ≡ evs ++ ev ∷ []) × IsQueue (evs ++ ev ∷ []) (some after)
  appended evs file ev q =
      let joined : opened file ++ (encode ev ++ newline ∷ []) ≡ join_lines k (evs ++ ev ∷ []) =
        ap (λ s. s ++ (encode ev ++ newline ∷ [])) (opened-IsQueue evs file q)
        ∙ join_lines-append evs ev in
      (
        ap (λ s. parsed k (split_lines s)) joined ∙ parsed-join_lines (evs ++ ev ∷ []),
        inl (ap some joined),
      )

  buffer_event_lem :
      (a : AppendEnd) (evs : List Stored) (file : Option Bytes) (ev : Stored)
      → IsQueue evs file
      → let after = buffer_event k a file ev in
        let then_read = evs ++ gained a (with_retries k ev) in
        (parsed k (split_lines (opened after)) ≡ then_read)
        × ((is_partial a ≡ true) ⊎ IsQueue then_read after)
  unfolding buffer_event
  buffer_event_lem marshal_failed evs file ev q =
      let (reads, whole) = untouched evs file q in (reads, inr whole)
  buffer_event_lem mkdir_failed evs file ev q =
      let (reads, whole) = untouched evs file q in (reads, inr whole)
  buffer_event_lem open_failed evs file ev q =
      let (reads, whole) = untouched evs file q in (reads, inr whole)
  buffer_event_lem (write_failed n) evs file ev q =
      let data_written = take n (encode (with_retries k ev)) in
      (
        parsed-opened evs file data_written q
            ∙ ap (λ t. evs ++ t)
                (parsed-partial data_written (
                  take-NoNewline n (encode (with_retries k ev))
                    (encode_one_line (with_retries k ev)).0)),
        inl refl,
      )
  buffer_event_lem newline_failed evs file ev q =
      let line = encode (with_retries k ev) in
      (
        parsed-opened evs file line q
            ∙ ap (λ t. evs ++ t)
                (parsed-partial line (encode_one_line (with_retries k ev)).0
                  ∙ read_line-encode (with_retries k ev) line refl),
        inl refl,
      )
  buffer_event_lem sync_failed evs file ev q =
      let (reads, whole) = appended evs file (with_retries k ev) q in (reads, inr whole)
  buffer_event_lem close_failed evs file ev q =
      let (reads, whole) = appended evs file (with_retries k ev) q in (reads, inr whole)
  buffer_event_lem all_done evs file ev q =
      let (reads, whole) = appended evs file (with_retries k ev) q in (reads, inr whole)

  -- The event as it is stored: with the number of its retries, zero if it had none.
  abbrev pub IsStored : Stored → Stored → Type 0
  IsStored ev stored =
      ((has_retries ev ≡ true) × (stored ≡ ev))
      ⊎ ((has_retries ev ≡ false) × (stored ≡ set_retries 0 ev))

  with_retries-IsStored : (ev : Stored) → IsStored ev (with_retries k ev)
  with_retries-IsStored ev = elim (Bool-cases (has_retries ev)) [
    | inl has ↦ rw has (inl (refl, refl))
    | inr lacks ↦ rw lacks (inr (refl, refl))
  ]

  -- bufferEvent on a file that holds the events `evs`, or that is not there. However far it gets, a
  -- flush then reads `evs`, and behind them the event with its retries, zero if it had none: when
  -- the whole event was written. It reads nothing behind them when bufferEvent ends before the write,
  -- and what the bytes that were written parse as when the write fails. Unless this write or that of
  -- the newline fails, the file holds exactly these events again.
  pub parsed-buffer_event :
      (a : AppendEnd) (evs : List Stored) (file : Option Bytes) (ev : Stored)
      → IsQueue evs file
      → let after = buffer_event k a file ev in
        (stored : Stored) × IsStored ev stored
        × (parsed k (split_lines (opened after)) ≡ evs ++ gained a stored)
        × ((is_partial a ≡ true) ⊎ IsQueue (evs ++ gained a stored) after)
  parsed-buffer_event a evs file ev q =
      let (reads, whole) = buffer_event_lem a evs file ev q in
      (with_retries k ev, with_retries-IsStored ev, reads, whole)
