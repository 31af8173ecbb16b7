-- ===== src/RideGroup/Forwarded.antt =====
-- The lease that the last check of ipc_v2.go forwards.
use uplink_service.Prelude.{◌+◌, ◌*◌, ◌≤◌, true, ◌||◌, some, ◌≡◌, arith, str_eq}
use uplink_service.RideGroup.State.{
  control, Control, Encoder, RedisPublication, Adapter, Now, millisecond,
}
use uplink_service.RideGroup.Authority.{grantable}
use uplink_service.RideGroup.Delivery.{
  final_grant, final_control, final_message, final_payload, is_same_grant, since,
}

-- A forwarded grant differs from the one received in its lease alone, which ends neither behind that of
-- the grant that stands nor behind the one that was queued.
pub forwarded_lease_fits :
    (e : Encoder) (a : Adapter) (t : Now) (p : RedisPublication) (c d : Control)
    → p.message ≡ control c
    → (str_eq c.action "grant" || str_eq c.action "renew") ≡ true
    → final_payload e a t p ≡ some (control d)
    → (d ≡ record c { lease_ttl_ms = d.lease_ttl_ms })
      × (grantable a t ≡ true)
      × (is_same_grant a.lease.grant c ≡ true)
      × (d.lease_ttl_ms * millisecond + since t.time a.lease.grant_at ≤ a.lease.grant_ttl)
      × (d.lease_ttl_ms * millisecond + t.time ≤ c.lease_ttl_ms * millisecond + p.queued_at)
unfolding final_payload final_message final_control final_grant
forwarded_lease_fits e a t p c d m g h = ground arith
