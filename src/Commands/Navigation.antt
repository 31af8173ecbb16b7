-- ===== src/Commands/Navigation.antt =====
-- The guard of redisCommand for the navigation key.
use uplink_service.Prelude.{
  String, true, false, List, [], ◌∷◌, ◌≡◌, refl, arith, ap, sym, ◌∙◌, inl, inr, Bool-cases, str_eq,
}
use uplink_service.Commands.Updates.{contains}
use uplink_service.Commands.Redis.{
  RedisCall, RedisOutcome, navigation_is_owned, calls, touches_navigation, redis_switch,
  redis_command, written_keys,
}

-- The keys that an outcome can change.
abbrev outcome_keys : RedisOutcome → List String
outcome_keys (calls c) = written_keys c
outcome_keys o = []

-- What the switch can change is what the test in front of it reads, but for lpush.
switch_writes :
    (op : String) (args : List String)
    → touches_navigation op args ≡ false
    → str_eq op "lpush" ≡ false
    → contains "navigation" (outcome_keys (redis_switch op args)) ≡ false
switch_writes op [] h l = ground arith
switch_writes op (x ∷ []) h l = ground arith
switch_writes op (x ∷ y ∷ []) h l = ground arith
switch_writes op (x ∷ y ∷ z ∷ xs) h l = ground arith

redis_command_owned :
    (op : String) (args : List String)
    → touches_navigation op args ≡ true
    → redis_command op args ≡ navigation_is_owned
unfolding redis_command
redis_command_owned op args h = rw h refl

redis_command_passed :
    (op : String) (args : List String)
    → touches_navigation op args ≡ false
    → redis_command op args ≡ redis_switch op args
unfolding redis_command
redis_command_passed op args h = rw h refl

-- A call that can change the key "navigation", which belongs to another service, is an lpush: the
-- guard refuses set, hset and del of that key, whatever their other arguments are.
pub navigation_is_guarded :
    (op : String) (args : List String) (c : RedisCall)
    → redis_command op args ≡ calls c
    → contains "navigation" (written_keys c) ≡ true
    → str_eq op "lpush" ≡ true
navigation_is_guarded op args c h w = elim (Bool-cases (touches_navigation op args)) [
  | inl owned ↦ absurd (cc (redis_command_owned op args owned, h))
  | inr passed ↦ elim (Bool-cases (str_eq op "lpush")) [
    | inl push ↦ push
    | inr other ↦ absurd (
        cc (
          switch_writes op args passed other,
          w,
          ap (λ o. contains "navigation" (outcome_keys o))
              (sym (redis_command_passed op args passed) ∙ h),
        ))
  ]
]
