-- ===== src/RideGroup/Egress.antt =====
-- The two queues of egress.go: the pending MQTT publications by kind, and the queue to Redis.
mod Authorization
unfoldable pub use Authorization.{authorized}
pub use Authorization.{is_recent, names_operation}
use uplink_service.Prelude.{
  ℕ, ◌+◌, ◌-◌, ◌*◌, String, Bool, true, false, ◌&&◌, ◌||◌, not, Option, none, some, List, [], ◌∷◌,
  ◌++◌, ltb, leb, ◌==◌, if◌then◌else◌, str_eq, length, is_some,
}
use uplink_service.GoMap.{GoMap, lookup, insert, erase}
use uplink_service.Connection.State.{plus64, second}
use uplink_service.RideGroup.State.{
  Message, Subject, about_hello, about_activity, about_position, about_stop, about_source,
  unsubscribes, Publication, RedisPublication, Adapter, Now, Activity, Attempt, SourceStatus,
  LocalStop, Control, lease_duration, online, within, points_to, same_int,
}
use uplink_service.RideGroup.Authority.{grant_current, binds, same_member, journal_is_idle}

abbrev pub redis_egress_queue_size : ℕ
redis_egress_queue_size = 8

unfoldable pub kind_of : Subject → String
kind_of about_hello = "v2_hello"
kind_of (about_activity boot_nonce seq active) = "v2_activity"
kind_of (about_position session member stream revision epoch generation at) = "v2_position"
kind_of (about_stop challenge) = "v2_stop"
kind_of (about_source state seq at generation) = "v2_source_status"
kind_of (unsubscribes topic) = "unsubscribe"

abbrev is_unsubscribe : Subject → Bool
is_unsubscribe (unsubscribes topic) = true
is_unsubscribe _ = false

unfoldable pub put_pending : Adapter → Publication → Adapter
put_pending a p =
    let order = plus64 a.mqtt_order 1 in
    record a {
      mqtt_order = order;
      mqtt_pending = insert (kind_of p.subject) (record p { order = order }) a.mqtt_pending;
    }

abbrev pub replaces : Publication → Option Publication → Bool
replaces p none = true
replaces p (some previous) = leb previous.priority p.priority || is_unsubscribe p.subject

-- queueMQTTPublication
unfoldable pub queue_mqtt : Adapter → Publication → Adapter
queue_mqtt a p =
    if a.mqtt_closing
    then a
    else if replaces p (lookup (kind_of p.subject) a.mqtt_pending)
    then put_pending a p
    else a

unfoldable pub drop_pending_position : Adapter → Adapter
drop_pending_position a = record a {
  mqtt_pending = erase "v2_position" (erase "position" a.mqtt_pending);
}

unfoldable pub drop_pending_source : Adapter → Adapter
drop_pending_source a = record a { mqtt_pending = erase "v2_source_status" a.mqtt_pending }

-- The entry with the least order, the first of them in the order of iteration.
unfoldable pub least :
    Option (String × Publication) → GoMap Publication → Option (String × Publication)
least next [] = next
least none (entry ∷ rest) = least (some entry) rest
least (some next) (entry ∷ rest) =
    least (some (if ltb entry.1.order next.1.order then entry else next)) rest

abbrev pub take_entry : Adapter → Option (String × Publication) → Adapter × Option Publication
take_entry a none = (a, none)
take_entry a (some (kind, p)) = (record a { mqtt_pending = erase kind a.mqtt_pending }, some p)

-- nextMQTTPublicationLocked
unfoldable pub next_publication : Adapter → Adapter × Option Publication
next_publication a = take_entry a (least none a.mqtt_pending)

abbrev same_client : Option ℕ → Option ℕ → Bool
same_client = same_int

abbrev pub has_expired : ℕ → Option ℕ → Bool
has_expired now none = false
has_expired now (some at) = leb at now

-- What an iteration of runMQTTWorker does with the publication it took; the client of the
-- publication is connected when `connected` says so.
pub data Egress : Type 0 where
  unsubscribed : String → Egress
  discarded : Egress
  published : Message → Egress

abbrev publishes : Option Message → Egress
publishes none = discarded
publishes (some msg) = published msg

unfoldable pub may_publish : Adapter → Now → Bool → Publication → Bool
may_publish a t connected p =
    is_some p.client
    && not (has_expired t.time p.expires_at)
    && connected
    && same_client a.mqtt p.client
    && str_eq a.connection p.connection
    && authorized a t p.subject

unfoldable pub egress : Adapter → Now → Bool → Publication → Subject → Egress
egress a t connected p (unsubscribes topic) =
    if is_some p.client && connected then unsubscribed topic else discarded
egress a t connected p _ = if may_publish a t connected p then publishes p.message else discarded

-- stopMQTTWorker
unfoldable pub stop_worker : Adapter → Option ℕ → String → Adapter
stop_worker a client topic =
    let closed = record a { mqtt_closing = true; mqtt_pending = [] } in
    if is_some client && not (str_eq topic "")
    then put_pending closed (record {
      client = client;
      connection = "";
      message = none;
      expires_at = none;
      priority = 100;
      subject = unsubscribes topic;
      order = 0;
    })
    else closed

unfoldable pub push_redis : List RedisPublication → RedisPublication → List RedisPublication
push_redis [] p = p ∷ []
push_redis (oldest ∷ rest) p =
    if ltb (length (oldest ∷ rest)) redis_egress_queue_size
    then (oldest ∷ rest) ++ (p ∷ [])
    else rest ++ (p ∷ [])

-- What queueRedisPublication queues; a duration that is not positive sets no expiry.
abbrev pub redis_publication : Now → String → Message → ℕ → RedisPublication
redis_publication t channel msg max_age = record {
  channel = channel;
  message = msg;
  expires_at = if max_age == 0 then none else some (t.time + max_age);
  queued_at = t.time;
}

-- queueRedisPublication
unfoldable pub queue_redis : Adapter → Now → String → Message → ℕ → Adapter
queue_redis a t channel msg max_age = record a {
  redis_queue = push_redis a.redis_queue (redis_publication t channel msg max_age);
}
