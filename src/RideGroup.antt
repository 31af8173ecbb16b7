-- ===== src/RideGroup.antt =====
-- internal/ridegroup: the adapter of group rides, in version 2 of its protocol.
pub mod State
pub mod Authority
pub mod Egress
pub mod Lease
pub mod Probes
pub mod Stops
pub mod Snapshots
pub mod Answers
pub mod Source
pub mod Controls
pub mod Peers
pub mod Delivery
pub mod Link
pub mod Dispatch
pub mod Same
pub mod CoreStops
pub mod SameSource
pub mod Inputs
pub mod Consent
pub mod ConsentKept
pub mod ConsentReached
pub mod Streams
pub mod Replay
pub mod RedisOrder
pub mod Challenges
pub mod Forwarded
pub mod GrantKept
pub mod GrantOrigin
pub mod Applied
pub mod AppliedSnapshots
pub mod AppliedControls
pub mod AppliedReached
