-- ===== src/Telemetry/Buffer/Drain.antt =====
-- What Flush and a restart do with the entries of the buffer.
use mathlib.Core.Path.{subst}
use uplink_service.Prelude.{
  String, Bool, true, false, List, [], ◌∷◌, ◌≡◌, ◌≢◌, refl, arith, ◌⊎◌, inl, inr, Bool-cases, some,
  none, str_eq, sym, ◌∙◌, eq_iff,
}
use uplink_service.Timeutil.{Clock, Moment, is_relative}
use uplink_service.Telemetry.Buffer.{
  Buffer, BufferedSnapshot, TelemetrySnapshot, Codec, Outside, persist_locked, flush, cleared,
  batch, flush_item, new_buffer, unmarshal_into, stamp,
}
use uplink_service.Telemetry.Buffer.Bounded.{persist_locked-items}

some-injective {ℓ} : {A : Type ℓ} (a b : A) → some a ≡ some b → a ≡ b
some-injective a b h = cc

module _ {D : Type 0} (codec : Codec D) where
  -- A flush either changes nothing, or empties the buffer; it empties only after the sink accepted
  -- the batch of all entries, or when no entry is left to send.
  pub flush_cases :
      (out : Outside) (clock : Clock) (m : Moment) (connected accepts : Bool) (b : Buffer D)
      → let r = flush codec out clock m connected accepts b in
        let snapshots = batch codec clock m b.items in
        (r ≡ (b, none))
        ⊎ ((r.0.items ≡ [])
            × (connected ≡ true)
            × (((snapshots ≡ []) × (r.1 ≡ none))
                ⊎ ((snapshots ≢ []) × (accepts ≡ true) × (r.1 ≡ some snapshots))))
  unfolding flush cleared
  flush_cases out clock m connected accepts b =
      ground (arith, persist_locked-items codec out (record b { items = [] }))

  -- An entry whose time stamp another session could not read.
  abbrev pub IsStale : Clock → BufferedSnapshot D → Type 0
  IsStale clock it = (is_relative it.timestamp ≡ true) × (it.session ≢ clock.session_id)

  -- An entry whose time stamp this session can read: a wall time, or an offset of its own.
  abbrev pub IsReadable : Clock → BufferedSnapshot D → Type 0
  IsReadable clock it = (is_relative it.timestamp ≡ false) ⊎ (it.session ≡ clock.session_id)

  -- The time stamp is sent as it stands, unless it is relative and the clock is valid by now.
  abbrev pub KeepsStamp : Clock → BufferedSnapshot D → String → Type 0
  KeepsStamp clock it sent =
      (sent ≡ it.timestamp) ⊎ ((is_relative it.timestamp ≡ true) × (clock.valid ≡ true))

  flush_item_cases :
      (clock : Clock) (m : Moment) (it : BufferedSnapshot D)
      → ((flush_item codec clock m it ≡ none) × IsStale clock it)
        ⊎ ((t : TelemetrySnapshot D) × (flush_item codec clock m it ≡ some t)
            × IsReadable clock it
            × (t.snapshot ≡ it.snapshot)
            × KeepsStamp clock it t.timestamp)
  unfolding flush_item
  flush_item_cases clock m it = elim (Bool-cases (is_relative it.timestamp)) [
    | inr wall ↦ simp wall (
        inr (
          record { snapshot = it.snapshot; timestamp = it.timestamp },
          refl,
          inl refl,
          refl,
          inl refl,
        ))
    | inl relative ↦ elim (Bool-cases (str_eq it.session clock.session_id)) [
      | inr foreign ↦
          simp (relative, foreign)
            (inl (refl, (refl, ground (arith, eq_iff it.session clock.session_id))))
      | inl own ↦
          simp (relative, own)
            (inr (
              record { snapshot = it.snapshot; timestamp = stamp codec clock m it.timestamp },
              refl,
              inr ((eq_iff it.session clock.session_id).0 own),
              refl,
              elim (Bool-cases clock.valid) [
                | inl valid ↦ inr (refl, valid)
                | inr invalid ↦ inl (ground arith)
              ],
            ))
    ]
  ]

  -- How a batch arises from the entries: in their order, a stale entry is left out, and a readable
  -- one is sent with its data.
  pub data Batched (clock : Clock)
      : List (BufferedSnapshot D) → List (TelemetrySnapshot D) → Type 0 where
    done : Batched clock [] []
    skip :
        (it : BufferedSnapshot D) {items : List (BufferedSnapshot D)}
        {ts : List (TelemetrySnapshot D)}
        → IsStale clock it
        → Batched clock items ts
        → Batched clock (it ∷ items) ts
    send :
        (it : BufferedSnapshot D) (t : TelemetrySnapshot D) {items : List (BufferedSnapshot D)}
        {ts : List (TelemetrySnapshot D)}
        → IsReadable clock it
        → t.snapshot ≡ it.snapshot
        → KeepsStamp clock it t.timestamp
        → Batched clock items ts
        → Batched clock (it ∷ items) (t ∷ ts)

  batch-Batched :
      (clock : Clock) (m : Moment) (items : List (BufferedSnapshot D))
      → Batched clock items (batch codec clock m items)
  unfolding batch
  batch-Batched clock m [] = done
  batch-Batched clock m (it ∷ items) = elim (flush_item_cases clock m it) [
    | inl (e, stale) ↦ rw e (skip it stale (batch-Batched clock m items))
    | inr (t, e, fresh, same, kept) ↦ rw e (send it t fresh same kept (batch-Batched clock m items))
  ]

  -- A batch that was accepted holds, in order, every entry of the buffer whose time stamp is a wall
  -- time or an offset of this session, and none of the others, which have an offset of another
  -- session. Each is sent with its data, and with its time stamp unless that is relative and the
  -- clock is valid. Then the buffer is empty.
  pub flush_sends_all :
      (out : Outside) (clock : Clock) (m : Moment) (connected accepts : Bool) (b : Buffer D)
      (ts : List (TelemetrySnapshot D))
      → (flush codec out clock m connected accepts b).1 ≡ some ts
      → Batched clock b.items ts × ((flush codec out clock m connected accepts b).0.items ≡ [])
  flush_sends_all out clock m connected accepts b ts h =
      elim (flush_cases out clock m connected accepts b) [
        | inl same ↦ absurd (cc)
        | inr (emptied, on, inl (none_left, quiet)) ↦ absurd (cc)
        | inr (emptied, on, inr (some_left, y, sent)) ↦ (
          subst (λ xs. Batched clock b.items xs)
              (some-injective (batch codec clock m b.items) ts (sym sent ∙ h))
              (batch-Batched clock m b.items),
          emptied,
        )
      ]

  -- A process that starts again has the entries that the last call persisted: from Redis when the
  -- write and the read succeed, and from the file when they do and Redis cannot be read.
  pub restart_restores :
      (out later : Outside) (b : Buffer D) (s : String)
      → codec.marshal b.items ≡ some s
      → ((b.has_client ≡ true) × (out.redis_sets ≡ true) × (later.redis_gets ≡ true))
        ⊎ ((b.cfg.persist_path ≢ "")
            × (out.disk_writes ≡ true)
            × (later.disk_reads ≡ true)
            × (later.redis_gets ≡ false))
      → (new_buffer codec later b.cfg b.has_client (persist_locked codec out b).store).items
        ≡ b.items
  unfolding new_buffer persist_locked unmarshal_into
  restart_restores out later b s e w = ground (
    arith,
    codec.unmarshal-marshal b.items s e,
    codec.marshal-ne-empty b.items s e,
    eq_iff s "",
    eq_iff b.cfg.persist_path "",
  )
