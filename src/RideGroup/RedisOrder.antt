-- ===== src/RideGroup/RedisOrder.antt =====
-- The queue to Redis of egress.go as a window on what was queued.
use uplink_service.Prelude.{
  ℕ, String, true, false, List, [], ◌∷◌, ◌++◌, ◌≡◌, refl, arith, sym, ap, ◌∙◌, map, length,
  length-append, append-nil, append_assoc, leb, ltb, if◌then◌else◌, Bool-cases, inl, inr,
}
use uplink_service.RideGroup.State.{Message, RedisPublication, Adapter, Now}
use uplink_service.RideGroup.Egress.{
  redis_egress_queue_size, redis_publication, push_redis, queue_redis,
}

-- The last entries of a list, at most so many.
unfoldable pub newest {ℓ} : {A : Type ℓ} → ℕ → List A → List A
newest n [] = []
newest n (x ∷ xs) = let rest = newest n xs in if leb (length (x ∷ xs)) n then x ∷ xs else rest

newest-all {ℓ} : {A : Type ℓ} (n : ℕ) (xs : List A) → leb (length xs) n ≡ true → newest n xs ≡ xs
unfolding newest
newest-all n [] h = refl
newest-all n (x ∷ xs) h = rw h refl

newest-cons {ℓ} :
    {A : Type ℓ} (n : ℕ) (x : A) (xs : List A)
    → leb (length (x ∷ xs)) n ≡ false
    → newest n (x ∷ xs) ≡ newest n xs
unfolding newest
newest-cons n x xs h = rw h refl

push_redis-newest :
    (q rest : List RedisPublication) (p : RedisPublication)
    → leb (length q) redis_egress_queue_size ≡ true
    → newest redis_egress_queue_size (push_redis q p ++ rest)
      ≡ newest redis_egress_queue_size (q ++ p ∷ rest)
unfolding push_redis
push_redis-newest [] rest p h = refl
push_redis-newest (x ∷ q) rest p h =
    elim (Bool-cases (ltb (length (x ∷ q)) redis_egress_queue_size)) [
      | inl room ↦
          rw room (ap (λ l. newest redis_egress_queue_size (x ∷ l)) (append_assoc q (p ∷ []) rest))
      | inr full ↦ rw full (
          ap (newest redis_egress_queue_size) (append_assoc q (p ∷ []) rest)
          ∙ sym (
              newest-cons redis_egress_queue_size x (q ++ p ∷ rest)
                (ground (arith, length-append q (p ∷ rest)))))
    ]

push_redis-IsBounded :
    (q : List RedisPublication) (p : RedisPublication)
    → leb (length q) redis_egress_queue_size ≡ true
    → leb (length (push_redis q p)) redis_egress_queue_size ≡ true
unfolding push_redis
push_redis-IsBounded [] p h = refl
push_redis-IsBounded (x ∷ q) p h = ground (arith, length-append q (p ∷ []))

-- A call of queueRedisPublication: its time, the channel, the message and the age it may reach.
pub record Call : Type 0 where
  pub now : Now
  pub channel : String
  pub message : Message
  pub max_age : ℕ

unfoldable pub queue_calls : Adapter → List Call → Adapter
queue_calls a [] = a
queue_calls a (c ∷ calls) = queue_calls (queue_redis a c.now c.channel c.message c.max_age) calls

-- Behind any calls, the queue to Redis holds the newest eight of what it held and of what the calls
-- brought, in their order; it held at most eight before.
pub redis_queue_is_newest :
    (a : Adapter) (calls : List Call)
    → leb (length a.redis_queue) redis_egress_queue_size ≡ true
    → (queue_calls a calls).redis_queue
      ≡ newest redis_egress_queue_size
          (a.redis_queue ++ map (λ c. redis_publication c.now c.channel c.message c.max_age) calls)
unfolding queue_calls queue_redis
redis_queue_is_newest a [] h = sym (
    ap (newest redis_egress_queue_size) (append-nil a.redis_queue)
    ∙ newest-all redis_egress_queue_size a.redis_queue h)
redis_queue_is_newest a (c ∷ calls) h =
    let p = redis_publication c.now c.channel c.message c.max_age in
    redis_queue_is_newest (queue_redis a c.now c.channel c.message c.max_age) calls
      (push_redis-IsBounded a.redis_queue p h)
    ∙ push_redis-newest a.redis_queue
        (map (λ c. redis_publication c.now c.channel c.message c.max_age) calls) p h
