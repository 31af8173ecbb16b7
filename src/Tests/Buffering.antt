-- ===== src/Tests/Buffering.antt =====
-- Runs of the snapshot buffer and of the event queue.
use Prim.Native.Nat.{max}
use mathlib.Core.List.{Sublistᴰ}
use uplink_service.Prelude.{
  ℕ, ◌≤◌, ◌+◌, ◌-◌, ◌/◌, String, Bool, true, false, Option, none, some, List, [], ◌∷◌, ◌≡◌, ◌≢◌,
  refl, arith, str_eq, eq_iff, length, head?, get_last?, inl, ◌==◌, if◌then◌else◌, has_prefix,
  Bool-cases, inr, ◌*◌, not, ◌⊎◌, ◌&&◌,
}
use uplink_service.Prelude.Int.{pos}
use uplink_service.Timeutil.{Clock, Moment, is_relative}
use uplink_service.Telemetry.Buffer.{
  batch, flush_item, Buffer, BufferedSnapshot, TelemetrySnapshot, Codec, Outside, Call, adds,
  flushes, subsample, add, flush, run, new_buffer, persist_locked,
}
use uplink_service.Telemetry.Buffer.Subsample.{subsample_keeps_ends}
use uplink_service.Telemetry.Buffer.Bounded.{length-run, add_keeps_newest}
use uplink_service.Telemetry.Buffer.Drain.{Batched, flush_sends_all, restart_restores}
use uplink_service.Telemetry.EventBuffer.{
  EventCodec, Answer, accepted, refused, flush_buffered_events, flush_lines, join_lines,
  buffer_event, parsed, split_lines, Bytes, opened, all_done, newline_failed,
}
use uplink_service.Telemetry.EventBuffer.Lines.{parsed-buffer_event, is_partial, IsQueue, IsStored}
use uplink_service.Telemetry.EventBuffer.Retained.{flush_keeps_unsent, Flushes, file_after}

subsample_keeps_ends_example :
    (head? (subsample {A = ℕ} (1 ∷ 2 ∷ 3 ∷ 4 ∷ [])) ≡ some 1)
    × (get_last? (subsample {A = ℕ} (1 ∷ 2 ∷ 3 ∷ 4 ∷ [])) ≡ some 4)
    × Sublistᴰ {A = ℕ} (subsample (1 ∷ 2 ∷ 3 ∷ 4 ∷ [])) (1 ∷ 2 ∷ 3 ∷ 4 ∷ [])
    × (3 ≤ length {A = ℕ} (1 ∷ 2 ∷ 3 ∷ 4 ∷ [])
        → length (subsample {A = ℕ} (1 ∷ 2 ∷ 3 ∷ 4 ∷ []))
          ≡ (length {A = ℕ} (1 ∷ 2 ∷ 3 ∷ 4 ∷ []) - 1) / 2 + 2)
subsample_keeps_ends_example = subsample_keeps_ends (1 ∷ 2 ∷ 3 ∷ 4 ∷ [])

abbrev kept : BufferedSnapshot ℕ
kept = record { snapshot = 7; timestamp = "2026-01-01T12:00:00Z"; session = "a1" }

-- An encoding that knows two lists: the empty one, and that of the snapshot above.
is_kept : BufferedSnapshot ℕ → Bool
is_kept x = x.snapshot == 7 && str_eq x.timestamp "2026-01-01T12:00:00Z" && str_eq x.session "a1"

is_kept_lem : (x : BufferedSnapshot ℕ) → is_kept x ≡ true → x ≡ kept
unfolding is_kept
is_kept_lem x h = ground (arith, eq_iff x.timestamp "2026-01-01T12:00:00Z", eq_iff x.session "a1")

encode_list : List (BufferedSnapshot ℕ) → Option String
encode_list [] = some "null"
encode_list (x ∷ []) = if is_kept x then some "[7]" else none
encode_list (x ∷ y ∷ xs) = none

decode_list : String → Option (List (BufferedSnapshot ℕ))
decode_list s =
    if str_eq s "null" then some [] else if str_eq s "[7]" then some (kept ∷ []) else none

decode_list-encode_list :
    (items : List (BufferedSnapshot ℕ)) (s : String)
    → encode_list items ≡ some s
    → decode_list s ≡ some items
unfolding encode_list decode_list
decode_list-encode_list [] s h = ground (arith, eq_iff s "null")
decode_list-encode_list (x ∷ []) s h = elim (Bool-cases (is_kept x)) [
  | inl known ↦
      rw (is_kept_lem x known)
        (ground (arith, eq_iff s "null", eq_iff s "[7]", eq_iff "[7]" "null"))
  | inr other ↦ absurd (ground arith)
]
decode_list-encode_list (x ∷ y ∷ xs) s h = absurd (cc)

encode_list-ne-empty :
    (items : List (BufferedSnapshot ℕ)) (s : String) → encode_list items ≡ some s → s ≢ ""
unfolding encode_list
encode_list-ne-empty [] s h e = absurd (ground (arith, eq_iff "null" ""))
encode_list-ne-empty (x ∷ []) s h e = absurd (ground (arith, eq_iff "[7]" ""))
encode_list-ne-empty (x ∷ y ∷ xs) s h e = absurd (cc)

abbrev toy_codec : Codec ℕ
toy_codec = record {
  marshal = encode_list;
  unmarshal = decode_list;
  unmarshal-marshal = decode_list-encode_list;
  marshal-ne-empty = encode_list-ne-empty;
}

abbrev all_well : Outside
all_well = record { redis_sets = true; redis_gets = true; disk_writes = true; disk_reads = true }

abbrev empty_buffer : Buffer ℕ
empty_buffer = record {
  cfg = record { enabled = true; max_size = 3; persist_path = "/data/buffer.json" };
  has_client = true;
  items = [];
  store = record { redis = none; disk = none };
}

abbrev one_kept : Buffer ℕ
one_kept = record empty_buffer { items = kept ∷ [] }

abbrev valid_clock : Clock
valid_clock = record { valid = true; session_id = "a1" }

abbrev noon : Moment
noon = record {
  Float = ℕ;
  wall_now = pos 1767268800000000000;
  since_anchor = 30;
  minus = λ x y. x - y;
  to_duration = λ x. pos (x * 1000000000);
  rfc3339 = λ i. "2026-01-01T12:00:00Z";
  format_seconds = λ n. "30.000";
  parse_float = λ s. some 30;
}

abbrev three_calls : List (Call toy_codec)
three_calls =
    adds all_well valid_clock 1 "12:00"
    ∷ adds all_well valid_clock 2 "12:01"
    ∷ flushes all_well valid_clock noon true true
    ∷ []

length-run_example : length (run toy_codec empty_buffer three_calls).items ≤ max 3 3
length-run_example = length-run toy_codec empty_buffer three_calls (omega arith) (omega arith)

add_keeps_newest_example :
    get_last? (add toy_codec all_well valid_clock one_kept 8 "12:01").items
    ≡ some (record { snapshot = 8; timestamp = "12:01"; session = "a1" })
add_keeps_newest_example = add_keeps_newest toy_codec all_well valid_clock one_kept 8 "12:01" refl

abbrev flushed_one : List (TelemetrySnapshot ℕ)
flushed_one = record { snapshot = 7; timestamp = "2026-01-01T12:00:00Z" } ∷ []

flush_sends_all_example :
    Batched toy_codec valid_clock (kept ∷ []) flushed_one
    × ((flush toy_codec all_well valid_clock noon true true one_kept).0.items ≡ [])
unfolding flush batch flush_item is_relative has_prefix
flush_sends_all_example =
    flush_sends_all toy_codec all_well valid_clock noon true true one_kept flushed_one refl

restart_restores_example :
    (new_buffer toy_codec all_well empty_buffer.cfg true
      (persist_locked toy_codec all_well one_kept).store).items
    ≡ kept ∷ []
unfolding encode_list is_kept
restart_restores_example =
    restart_restores toy_codec all_well all_well one_kept "[7]" refl (inl (refl, refl, refl))

-- Events that are numbers: an event is written as one byte, its number of tries plus 32. The event
-- 99 stands for one without retries.
toy_decode : Bytes → Option ℕ
toy_decode [] = none
toy_decode (c ∷ cs) = some (c - 32)

toy_decode_lem : (n : ℕ) → toy_decode ((n + 32) ∷ []) ≡ some n
unfolding toy_decode
toy_decode_lem n = ground arith

toy_one_line : (n : ℕ) → (((n + 32 == 10) ≡ false) × Unit {0}) × (◌≡◌ {A = Bool} false false)
toy_one_line n = ((ground arith, tt), refl)

abbrev toy_events : EventCodec
toy_events = record {
  Stored = ℕ;
  encode = λ n. (n + 32) ∷ [];
  decode = toy_decode;
  retries = λ n. n;
  has_retries = λ n. not (n == 99);
  set_retries = λ n ev. n;
  decode-encode = toy_decode_lem;
  encode_one_line = toy_one_line;
  retries-set_retries = λ n ev. refl;
}

abbrev two_waiting : Option Bytes
two_waiting = some (join_lines toy_events (0 ∷ 1 ∷ []))

parsed-buffer_event_example :
    let after = buffer_event toy_events all_done two_waiting 99 in
    (stored : ℕ) × IsStored toy_events 99 stored
    × (parsed toy_events (split_lines (opened after)) ≡ 0 ∷ 1 ∷ stored ∷ [])
    × ((is_partial toy_events all_done ≡ true) ⊎ IsQueue toy_events (0 ∷ 1 ∷ stored ∷ []) after)
parsed-buffer_event_example =
    parsed-buffer_event toy_events all_done (0 ∷ 1 ∷ []) two_waiting 99 (inl refl)

-- A newline that could not be written: the event is still read, but an event that is buffered behind
-- it ends up in the same line.
glued_lines :
    let after = buffer_event toy_events newline_failed two_waiting 2 in
    buffer_event toy_events all_done after 3 ≡ some (32 ∷ 10 ∷ 33 ∷ 10 ∷ 34 ∷ 35 ∷ 10 ∷ [])
unfolding buffer_event join_lines
glued_lines = refl

abbrev second_refused : ℕ → Answer
second_refused n = if n == 0 then accepted else refused

flush_keeps_unsent_example :
    let old = join_lines toy_events (0 ∷ 7 ∷ 1 ∷ 2 ∷ []) in
    let r = flush_buffered_events toy_events 5 second_refused true true true (some old) in
    (left : Option (List ℕ)) × Flushes toy_events 5 second_refused 0 (0 ∷ 7 ∷ 1 ∷ 2 ∷ []) r.1 left
    × (r.0 ≡ file_after toy_events old true true left)
flush_keeps_unsent_example =
    flush_keeps_unsent toy_events 5 second_refused true true (0 ∷ 7 ∷ 1 ∷ 2 ∷ [])

-- The same flush by evaluation: the first event is sent, the second is given up, the third is
-- refused and goes back with a further try, and the fourth goes back as it is.
flush_run :
    flush_buffered_events toy_events 5 second_refused true true true
      (some (join_lines toy_events (0 ∷ 7 ∷ 1 ∷ 2 ∷ [])))
    ≡ (some (34 ∷ 10 ∷ 34 ∷ 10 ∷ []), 0 ∷ [])
unfolding flush_buffered_events flush_lines split_lines join_lines parsed toy_decode
flush_run = refl
