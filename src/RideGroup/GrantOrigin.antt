-- ===== src/RideGroup/GrantOrigin.antt =====
-- Where the grant of protocol_v2_adapter.go comes from.
use uplink_service.Prelude.{
  ℕ, ◌&&◌, ◌||◌, Bool, true, false, Option, none, some, ◌≡◌, refl, arith, ◌⊎◌, ◌⊎◌, Bool-cases, inl,
  inr, str_eq, ap,
}
use uplink_service.GoMap.{lookup}
use uplink_service.RideGroup.State.{
  Control, PeerPosition, PeerStatus, Encoder, reconcile, Adapter, Now, online,
}
use uplink_service.RideGroup.Authority.{grantable, grant_challenge_current}
use uplink_service.RideGroup.Egress.{next_publication, least, queue_redis}
use uplink_service.RideGroup.Controls.{
  admits_grant, grant_sent_at, handle_grant, follows_grant, follows_cleared, follows_authority,
  is_for_activity, by_action, handle_control,
}
use uplink_service.RideGroup.Delivery.{redis_step}
use uplink_service.RideGroup.Inputs.{
  Input, gives_snapshot, gives_activity, gives_control, gives_peer, gives_peer_status, gives_report,
  begins_connect, ends_connect, disconnects, starts_recovery, reads_setting, ends_recovery,
  loses_redis, ticks, takes_mqtt, takes_redis, stops, step, is_control,
}
use uplink_service.RideGroup.Same.{issue_probe-Same}
use uplink_service.RideGroup.SameSource.{handle_gps-Same}
use uplink_service.RideGroup.Peers.{put_stream, handle_peer, handle_peer_status}
use uplink_service.RideGroup.ConsentReached.{begin_connect-Same, take_entry-Same, take_redis-Same}
use uplink_service.RideGroup.Snapshots.{handle_snapshot}
use uplink_service.RideGroup.GrantKept.{
  Kept, handle_status-Kept, handle_clear-Kept, take_grant-grant, with_canonical-Kept,
  accept_activity-Kept, set_blocked-Kept, end_connect-Kept, on_disconnected-Kept, fail_closed-Kept,
  expire_lease-Kept, stop_adapter-Kept,
}

abbrev pub Admits : Adapter → Now → Control → Type 0
Admits a t c =
    (grantable a t ≡ true)
    × (grant_challenge_current a t c.challenge ≡ true)
    × (follows_cleared a.lease.last_cleared c ≡ true)
    × (follows_authority a.lease.last_authority c ≡ true)
    × (follows_grant a.lease.grant c ≡ true)

-- What a control must be to give its grant in this state
abbrev pub Grants : Adapter → Now → Control → Type 0
Grants a t c =
    ((str_eq c.action "grant" || str_eq c.action "renew") ≡ true)
    × (str_eq c.connection_nonce a.connection ≡ true)
    × (grantable a t ≡ true)
    × (grant_challenge_current a t c.challenge ≡ true)
    × (follows_cleared a.lease.last_cleared c ≡ true)
    × (follows_authority a.lease.last_authority c ≡ true)
    × (follows_grant a.lease.grant c ≡ true)

grant_sent_at-Kept :
    (e : Encoder) (a : Adapter) (t : Now) (c : Control) (o : Option ℕ)
    → Kept a (grant_sent_at e a t c o) ⊎ ((grant_sent_at e a t c o).lease.grant ≡ some c)
grant_sent_at-Kept e a t c none = inl (inl refl)
grant_sent_at-Kept e a t c (some sent_at) = ground (arith, take_grant-grant e a t c sent_at)

all_five :
    (p q r s u v : Bool)
    → (q && p && r && s && u && v) ≡ true
    → (p ≡ true) × (q ≡ true) × (s ≡ true) × (u ≡ true) × (v ≡ true)
all_five p q r s u v h = ground arith

handle_grant-cases :
    (e : Encoder) (a : Adapter) (t : Now) (c : Control)
    → Kept a (handle_grant e a t c) ⊎ (((handle_grant e a t c).lease.grant ≡ some c) × Admits a t c)
unfolding handle_grant admits_grant
handle_grant-cases e a t c = elim (Bool-cases (admits_grant a t c)) [
  | inl admitted ↦
      rw admitted (elim (grant_sent_at-Kept e a t c (lookup c.challenge a.lease.challenges)) [
        | inl kept ↦ inl kept
        | inr given ↦ inr (
          given,
          all_five (grantable a t) (grant_challenge_current a t c.challenge)
              (is_for_activity a.lease.activity c) (follows_cleared a.lease.last_cleared c)
              (follows_authority a.lease.last_authority c) (follows_grant a.lease.grant c) admitted,
        )
      ])
  | inr refused ↦ rw refused (inl (inl refl))
]

of_action :
    (e : Encoder) (a : Adapter) (t : Now) (c : Control)
    → str_eq c.connection_nonce a.connection ≡ true
    → Kept a (by_action e a t c) ⊎ (((by_action e a t c).lease.grant ≡ some c) × Grants a t c)
unfolding by_action
of_action e a t c here = elim (Bool-cases (str_eq c.action "status")) [
  | inl status ↦ rw status (inl (handle_status-Kept e a t c c.stop_result))
  | inr other ↦ rw other (elim (Bool-cases (str_eq c.action "clear")) [
    | inl clear ↦ rw clear (inl (handle_clear-Kept a t c a.lease.grant))
    | inr no_clear ↦
        rw no_clear (elim (Bool-cases (str_eq c.action "grant" || str_eq c.action "renew")) [
          | inl grant ↦ rw grant (elim (handle_grant-cases e a t c) [
            | inl kept ↦ inl kept
            | inr given ↦
                inr (given.0, (refl, here, given.1.0, given.1.1, given.1.2, given.1.3, given.1.4))
          ])
          | inr neither ↦ rw neither (inl (inl refl))
        ])
  ])
]

handle_control-cases :
    (e : Encoder) (a : Adapter) (t : Now) (c : Control)
    → Kept a (handle_control e a t c)
      ⊎ (((handle_control e a t c).lease.grant ≡ some c) × Grants a t c)
unfolding handle_control
handle_control-cases e a t c =
    elim (Bool-cases (online a t && str_eq c.connection_nonce a.connection)) [
      | inl here ↦ rw here (of_action e a t c (ground arith))
      | inr elsewhere ↦ rw elsewhere (inl (inl refl))
    ]

Kept-given :
    (a b : Adapter) (c : Control) → Kept a b → b.lease.grant ≡ some c → a.lease.grant ≡ some c
Kept-given a b c k h = ground arith

handle_peer-grant :
    (a : Adapter) (t : Now) (p : PeerPosition) → (handle_peer a t p).lease.grant ≡ a.lease.grant
unfolding handle_peer queue_redis put_stream
handle_peer-grant a t p = ground arith

handle_peer_status-grant :
    (a : Adapter) (t : Now) (s : PeerStatus)
    → (handle_peer_status a t s).lease.grant ≡ a.lease.grant
unfolding handle_peer_status queue_redis put_stream
handle_peer_status-grant a t s = ground arith

given_by_control :
    (e : Encoder) (a : Adapter) (t : Now) (c d : Control)
    → (handle_control e a t c).lease.grant ≡ some d
    → (a.lease.grant ≡ some d) ⊎ ((c ≡ d) × Grants a t d)
given_by_control e a t c d h = elim (handle_control-cases e a t c) [
  | inl kept ↦ inl (Kept-given a (handle_control e a t c) d kept h)
  | inr given ↦ inr (ground arith)
]

step-Kept :
    (e : Encoder) (a : Adapter) (t : Now) (i : Input) → is_control i ≡ false → Kept a (step e a t i)
unfolding step next_publication redis_step handle_snapshot
step-Kept e a t (gives_control c) n = absurd (ground arith)
step-Kept e a t (gives_snapshot s) n = with_canonical-Kept e a t s (e.canonical s)
step-Kept e a t (gives_activity x) n = accept_activity-Kept e a t x
step-Kept e a t (gives_peer p) n = inl (handle_peer-grant a t p)
step-Kept e a t (gives_peer_status s) n = inl (handle_peer_status-grant a t s)
step-Kept e a t (gives_report at fix sample) n =
    inl (ap (λ l. l.grant) (handle_gps-Same e a t at fix sample).1.0)
step-Kept e a t (begins_connect client) n =
    inl (ap (λ l. l.grant) (begin_connect-Same a t client).1.0)
step-Kept e a t (ends_connect client attempt connection) n =
    end_connect-Kept e a t client attempt connection
step-Kept e a t (disconnects client) n = on_disconnected-Kept a client
step-Kept e a t starts_recovery n = inl refl
step-Kept e a t (reads_setting blocked) n = set_blocked-Kept e a t blocked
step-Kept e a t ends_recovery n =
    inl (ap (λ l. l.grant) (issue_probe-Same e a t reconcile none).1.0)
step-Kept e a t loses_redis n = fail_closed-Kept a
step-Kept e a t ticks n = expire_lease-Kept e a t
step-Kept e a t takes_mqtt n =
    inl (ap (λ l. l.grant) (take_entry-Same a (least none a.mqtt_pending)).1.0)
step-Kept e a t takes_redis n = inl (ap (λ l. l.grant) (take_redis-Same e a t a.redis_queue).1.0)
step-Kept e a t (stops topic) n = stop_adapter-Kept a t topic

-- A state with a grant is behind a state with the same grant, or behind a control that is this grant: a
-- grant or a renewal of this connection, in answer to a challenge of the last ten seconds, while the
-- setting, the journal and the activity allow it. It is of the session and member of the present grant
-- and no step back behind it, nor behind the last authority if that is of the same session, and of a
-- later epoch than the last clearing of the same session.
pub grant_needs_control :
    (e : Encoder) (a : Adapter) (t : Now) (i : Input) (c : Control)
    → (step e a t i).lease.grant ≡ some c
    → (a.lease.grant ≡ some c) ⊎ ((i ≡ gives_control c) × Grants a t c)
unfolding step
grant_needs_control e a t (gives_control d) c h = elim (given_by_control e a t d c h) [
  | inl old ↦ inl old
  | inr new ↦ inr (ap gives_control new.0, new.1)
]
grant_needs_control e a t i c h = inl (Kept-given a (step e a t i) c (step-Kept e a t i refl) h)
