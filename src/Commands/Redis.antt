-- ===== src/Commands/Redis.antt =====
-- redisCommand in internal/commands/scooter.go: which call an operation makes, or why it makes none.
use uplink_service.Prelude.{String, Bool, false, ◌&&◌, ◌||◌, List, [], ◌∷◌, if◌then◌else◌, str_eq}
use uplink_service.Commands.Updates.{contains}

pub data RedisCall : Type 0 where
  get : String → RedisCall
  set : String → String → RedisCall
  hget : String → String → RedisCall
  hset : String → String → String → RedisCall
  hgetall : String → RedisCall
  del : List String → RedisCall
  lpush : String → String → RedisCall
  publish : String → String → RedisCall

pub data RedisOutcome : Type 0 where
  navigation_is_owned : RedisOutcome
  too_few_arguments : RedisOutcome
  unsupported : String → RedisOutcome
  calls : RedisCall → RedisOutcome

abbrev pub first_is : String → List String → Bool
first_is key [] = false
first_is key (x ∷ xs) = str_eq x key

-- The test in front of the switch.
abbrev pub touches_navigation : String → List String → Bool
touches_navigation op args =
    ((str_eq op "set" || str_eq op "hset") && first_is "navigation" args)
    || (str_eq op "del" && contains "navigation" args)

-- The operations with one, two and three arguments; more are ignored.
abbrev pub with_one : (String → RedisCall) → List String → RedisOutcome
with_one call [] = too_few_arguments
with_one call (x ∷ xs) = calls (call x)

abbrev pub with_two : (String → String → RedisCall) → List String → RedisOutcome
with_two call (x ∷ y ∷ xs) = calls (call x y)
with_two call xs = too_few_arguments

abbrev pub with_three : (String → String → String → RedisCall) → List String → RedisOutcome
with_three call (x ∷ y ∷ z ∷ xs) = calls (call x y z)
with_three call xs = too_few_arguments

abbrev pub delete_all : List String → RedisOutcome
delete_all [] = too_few_arguments
delete_all (x ∷ xs) = calls (del (x ∷ xs))

abbrev pub redis_switch : String → List String → RedisOutcome
redis_switch op args =
    if str_eq op "get"
    then with_one get args
    else if str_eq op "set"
    then with_two set args
    else if str_eq op "hget"
    then with_two hget args
    else if str_eq op "hset"
    then with_three hset args
    else if str_eq op "hgetall"
    then with_one hgetall args
    else if str_eq op "del"
    then delete_all args
    else if str_eq op "lpush"
    then with_two lpush args
    else if str_eq op "publish"
    then with_two publish args
    else unsupported op

-- `op` and `args` are the texts of the parameters command and args.
unfoldable pub redis_command : String → List String → RedisOutcome
redis_command op args =
    if touches_navigation op args then navigation_is_owned else redis_switch op args

-- The keys that a call can change.
abbrev pub written_keys : RedisCall → List String
written_keys (get k) = []
written_keys (set k v) = k ∷ []
written_keys (hget k f) = []
written_keys (hset k f v) = k ∷ []
written_keys (hgetall k) = []
written_keys (del ks) = ks
written_keys (lpush k v) = k ∷ []
written_keys (publish c m) = []
