-- ===== src/Telemetry/Buffer/Bounded.antt =====
-- How long the buffer of internal/telemetry/buffer.go can get.
use Prim.Native.Nat.{max}
use uplink_service.Prelude.{
  ℕ, ◌≤◌, ◌<◌, String, Bool, true, List, [], ◌∷◌, ◌++◌, ◌≡◌, refl, arith, length, length-append,
  get_last?, some, Option, none, ap,
}
use uplink_service.Timeutil.{Clock, Moment}
use uplink_service.Telemetry.Buffer.{
  Buffer, BufferedSnapshot, Codec, Outside, capped, add, persist_locked, persist_text, BufferConfig,
  Call, adds, flushes, step, run, flush, cleared,
}
use uplink_service.Telemetry.Buffer.Subsample.{
  length-subsample, length-subsample-small, get_last?-subsample,
}

module _ {D : Type 0} (codec : Codec D) where
  pub persist_text-items :
      (out : Outside) (b : Buffer D) (o : Option String)
      → ((persist_text codec out b o).items ≡ b.items) × ((persist_text codec out b o).cfg ≡ b.cfg)
  unfolding persist_text
  persist_text-items out b none = (refl, refl)
  persist_text-items out b (some s) = (refl, refl)

  pub persist_locked-items :
      (out : Outside) (b : Buffer D)
      → ((persist_locked codec out b).items ≡ b.items) × ((persist_locked codec out b).cfg ≡ b.cfg)
  unfolding persist_locked
  persist_locked-items out b = persist_text-items out b (codec.marshal b.items)

  length-capped :
      (max_size : ℕ) (items : List (BufferedSnapshot D)) (item : BufferedSnapshot D)
      → 0 < max_size
      → length items ≤ max max_size 3
      → length (capped codec max_size (items ++ item ∷ [])) ≤ max max_size 3
  unfolding capped
  length-capped max_size items item pos h = ground (
    arith,
    length-append items (item ∷ []),
    length-subsample (items ++ item ∷ []),
    length-subsample-small (items ++ item ∷ []),
  )

  -- With a maximal size, Add keeps the buffer within that size, or within three entries where the
  -- size is smaller.
  length-add :
      (out : Outside) (clock : Clock) (b : Buffer D) (snapshot : D) (timestamp : String)
      → 0 < b.cfg.max_size
      → length b.items ≤ max b.cfg.max_size 3
      → (length (add codec out clock b snapshot timestamp).items ≤ max b.cfg.max_size 3)
        × ((add codec out clock b snapshot timestamp).cfg ≡ b.cfg)
  unfolding add
  length-add out clock b snapshot timestamp pos h =
      let item : BufferedSnapshot D = record {
        snapshot = snapshot;
        timestamp = timestamp;
        session = clock.session_id;
      } in
      let after = record b { items = capped codec b.cfg.max_size (b.items ++ item ∷ []) } in
      ground
        (arith, persist_locked-items out after, length-capped b.cfg.max_size b.items item pos h)

  length-flush :
      (out : Outside) (clock : Clock) (m : Moment) (connected accepts : Bool) (b : Buffer D)
      → length b.items ≤ max b.cfg.max_size 3
      → let b' = (flush codec out clock m connected accepts b).0 in
        (length b'.items ≤ max b.cfg.max_size 3) × (b'.cfg ≡ b.cfg)
  unfolding flush cleared
  length-flush out clock m connected accepts b h =
      ground (arith, persist_locked-items out (record b { items = [] }))

  -- In every run of Add and Flush the buffer stays within its maximal size, or within three entries
  -- where that size is one or two.
  pub length-run :
      (b : Buffer D) (cs : List (Call codec))
      → 0 < b.cfg.max_size
      → length b.items ≤ max b.cfg.max_size 3
      → length (run codec b cs).items ≤ max b.cfg.max_size 3
  unfolding run step
  length-run b [] pos h = h
  length-run b (adds out clock snapshot timestamp ∷ cs) pos h =
      let (short, same) = length-add out clock b snapshot timestamp pos h in
      let b' = add codec out clock b snapshot timestamp in
      omega (
        arith,
        length-run b' cs (rw same pos) (rw same short),
        ap (λ (c : BufferConfig). c.max_size) same,
      )
  length-run b (flushes out clock m connected accepts ∷ cs) pos h =
      let (short, same) = length-flush out clock m connected accepts b h in
      let b' = (flush codec out clock m connected accepts b).0 in
      omega (
        arith,
        length-run b' cs (rw same pos) (rw same short),
        ap (λ (c : BufferConfig). c.max_size) same,
      )

  last-append :
      (xs : List (BufferedSnapshot D)) (x : BufferedSnapshot D) → get_last? (xs ++ x ∷ []) ≡ some x
  last-append [] x = refl
  last-append (y ∷ []) x = refl
  last-append (y ∷ z ∷ zs) x = last-append (z ∷ zs) x

  -- The snapshot that an enabled buffer is given is its newest entry, also after it was thinned.
  pub add_keeps_newest :
      (out : Outside) (clock : Clock) (b : Buffer D) (snapshot : D) (timestamp : String)
      → b.cfg.enabled ≡ true
      → get_last? (add codec out clock b snapshot timestamp).items
        ≡ some (record { snapshot = snapshot; timestamp = timestamp; session = clock.session_id })
  unfolding add capped
  add_keeps_newest out clock b snapshot timestamp on =
      let item : BufferedSnapshot D = record {
        snapshot = snapshot;
        timestamp = timestamp;
        session = clock.session_id;
      } in
      let after = record b { items = capped codec b.cfg.max_size (b.items ++ item ∷ []) } in
      ground (
        arith,
        persist_locked-items out after,
        get_last?-subsample (b.items ++ item ∷ []),
        last-append b.items item,
      )
