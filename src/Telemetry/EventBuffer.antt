-- ===== src/Telemetry/EventBuffer.antt =====
-- The event queue on disk of internal/telemetry/events.go: events that could not be sent wait in a
-- file, a line each, until a flush sends them, gives them up or writes them back.
pub mod Lines
pub mod Retained
use uplink_service.Prelude.{
  ℕ, zero, suc, ◌+◌, String, Bool, true, false, not, ◌||◌, ◌&&◌, Option, none, some, List, [], ◌∷◌,
  ◌++◌, ◌≡◌, if◌then◌else◌, leb, is_empty, ◌==◌, take,
}

-- The bytes of a text.
abbrev pub Bytes : Type 0
Bytes = List ℕ

abbrev pub newline : ℕ
newline = 10

abbrev pub last_line : Bytes → List Bytes
last_line [] = []
last_line (c ∷ cs) = (c ∷ cs) ∷ []

-- splitLines; `current` is the text from the start of the line.
unfoldable pub split_from : Bytes → Bytes → List Bytes
split_from current [] = last_line current
split_from current (c ∷ cs) =
    let ended = current ∷ split_from [] cs in
    let longer = split_from (current ++ c ∷ []) cs in if c == newline then ended else longer

unfoldable pub split_lines : Bytes → List Bytes
unfolding split_from
split_lines s = split_from [] s

-- A text without a newline, and not empty.
abbrev pub NoNewline : Bytes → Type 0
NoNewline [] = Unit {0}
NoNewline (c ∷ cs) = ((c == newline) ≡ false) × NoNewline cs

abbrev pub IsLine : Bytes → Type 0
IsLine s = NoNewline s × (is_empty s ≡ false)

-- encoding/json on events, which are maps: what is encoded is one line that is not empty and reads
-- back as the event. `retries` is int(event["retries"]), or zero where that is no number, and
-- `has_retries` says whether the map has that key.
pub record EventCodec : Type 1 where
  pub Stored : Type 0
  pub encode : Stored → Bytes
  pub decode : Bytes → Option Stored
  pub retries : Stored → ℕ
  pub has_retries : Stored → Bool
  pub set_retries : ℕ → Stored → Stored
  pub decode-encode : (ev : Stored) → decode (encode ev) ≡ some ev
  pub encode_one_line : (ev : Stored) → IsLine (encode ev)
  pub retries-set_retries : (n : ℕ) (ev : Stored) → retries (set_retries n ev) ≡ n

-- What a SendEvent of a flush does: it fails, it succeeds, or it succeeds and the context is done
-- before the pause that follows is over.
pub data Answer : Type 0 where
  refused accepted cancelled : Answer

-- How far bufferEvent gets: it returns at json.Marshal, MkdirAll, OpenFile, at the write of the
-- event, of which some first bytes may be in the file, at that of the newline, at Sync or at Close,
-- or it reaches its end.
pub data AppendEnd : Type 0 where
  marshal_failed mkdir_failed open_failed : AppendEnd
  write_failed : ℕ → AppendEnd
  newline_failed sync_failed close_failed all_done : AppendEnd

-- OpenFile with O_CREATE and O_APPEND.
abbrev pub opened : Option Bytes → Bytes
opened none = []
opened (some file) = file

module _ (k : EventCodec) where
  open k use {Stored, encode, decode, retries, has_retries, set_retries}

  -- The bytes that writeEventBufferAtomic writes.
  unfoldable pub join_lines : List Stored → Bytes
  join_lines [] = []
  join_lines (ev ∷ evs) = encode ev ++ newline ∷ join_lines evs

  abbrev pub with_retries : Stored → Stored
  with_retries ev = if has_retries ev then ev else set_retries 0 ev

  -- The file behind bufferEvent; none is a file that is not there.
  unfoldable pub buffer_event : AppendEnd → Option Bytes → Stored → Option Bytes
  buffer_event marshal_failed file ev = file
  buffer_event mkdir_failed file ev = file
  buffer_event open_failed file ev = file
  buffer_event (write_failed n) file ev = some (opened file ++ take n (encode (with_retries ev)))
  buffer_event newline_failed file ev = some (opened file ++ encode (with_retries ev))
  buffer_event sync_failed file ev =
      some (opened file ++ (encode (with_retries ev) ++ newline ∷ []))
  buffer_event close_failed file ev =
      some (opened file ++ (encode (with_retries ev) ++ newline ∷ []))
  buffer_event all_done file ev = some (opened file ++ (encode (with_retries ev) ++ newline ∷ []))

  abbrev pub add_parsed : Option Stored → List Stored → List Stored
  add_parsed none evs = evs
  add_parsed (some ev) evs = ev ∷ evs

  -- The inner loop of a flush: the events of the remaining lines.
  unfoldable pub parsed : List Bytes → List Stored
  parsed [] = []
  parsed (line ∷ lines) =
      let rest = parsed lines in if is_empty line then rest else add_parsed (decode line) rest

  -- How the loop over the lines ended: by the context, or with the events to write back.
  pub record Flushed : Type 0 where
    pub stopped : Bool
    pub sent : List Stored
    pub failed : List Stored

  abbrev pub after_send : Stored → Flushed → Flushed
  after_send ev r = record r { sent = ev ∷ r.sent }

  abbrev pub bumped : Stored → Stored
  bumped ev = set_retries (suc (retries ev)) ev

  -- The loop; `answer` gives the result of each SendEvent by its number.
  unfoldable pub flush_lines : ℕ → (ℕ → Answer) → ℕ → List Bytes → Flushed
  flush_lines max_retries answer n [] = record { stopped = false; sent = []; failed = [] }
  flush_lines max_retries answer n (line ∷ lines) =
      let skipped = flush_lines max_retries answer n lines in
      let next = flush_lines max_retries answer (suc n) lines in
      if is_empty line then skipped else elim (decode line) [
        | none ↦ skipped
        | some ev ↦ if leb max_retries (retries ev) then skipped else elim (answer n) [
          | refused ↦ record { stopped = false; sent = []; failed = bumped ev ∷ parsed lines }
          | cancelled ↦ record { stopped = true; sent = ev ∷ []; failed = [] }
          | accepted ↦ after_send ev next
        ]
      ]

  -- The file behind a flush and the events that it sent; none is a file that is not there.
  -- `rewrites` and `removes` say whether the rename of writeEventBufferAtomic is reached and succeeds,
  -- and os.Remove.
  unfoldable pub flush_buffered_events :
      ℕ → (ℕ → Answer) → Bool → Bool → Bool → Option Bytes → Option Bytes × List Stored
  flush_buffered_events max_retries answer connected rewrites removes none = (none, [])
  flush_buffered_events max_retries answer connected rewrites removes (some file) =
      if not connected
      then (some file, [])
      else (let r = flush_lines max_retries answer 0 (split_lines file) in
          (
            if r.stopped
                then some file
                else if is_empty r.failed
                then (if removes then none else some file)
                else if rewrites
                then some (join_lines r.failed)
                else some file,
            r.sent,
          ))
