-- ===== src/RideGroup/Replay.antt =====
-- The replay guard of handlePeerV2 and handlePeerStatusV2 over runs of the adapter.
use uplink_service.Prelude.{
  String, true, false, Option, none, some, List, [], ◌∷◌, ◌≡◌, refl, arith, All, Bool-cases, inl,
  inr, str_eq, eq_iff,
}
use uplink_service.GoMap.{lookup, lookup-insert}
use uplink_service.RideGroup.State.{PeerPosition, PeerStatus, PeerReplay, Encoder, Adapter, Now}
use uplink_service.RideGroup.Egress.{queue_redis}
use uplink_service.RideGroup.Peers.{
  put_stream, advances, replay_of, admits_peer, handle_peer, accepts_status, stream_before,
  with_status, admits_peer_status, handle_peer_status,
}
use uplink_service.RideGroup.Inputs.{
  is_control, Input, gives_peer, gives_peer_status, gives_control, step, run,
}
use uplink_service.RideGroup.Streams.{spares_streams, step-streams}

abbrev pub IsBehind : Option PeerReplay → PeerPosition → Type 0
IsBehind o p = advances o p ≡ false

-- A later position keeps what is behind it.
advances-IsBehind :
    (o : Option PeerReplay) (p q : PeerPosition)
    → IsBehind o p
    → advances o q ≡ true
    → IsBehind (some (replay_of q)) p
advances-IsBehind none p q h i = absurd (ground arith)
advances-IsBehind (some r) p q h i = ground (
  arith,
  eq_iff p.peer_stream_id r.stream_id,
  eq_iff q.peer_stream_id r.stream_id,
  eq_iff p.peer_stream_id q.peer_stream_id,
)

accepts_status-IsBehind :
    (o : Option PeerReplay) (p : PeerPosition) (s : PeerStatus)
    → IsBehind o p
    → accepts_status o s ≡ true
    → IsBehind (some (with_status (stream_before o s) s.status)) p
accepts_status-IsBehind none p s h i = absurd (ground arith)
accepts_status-IsBehind (some r) p s h i = ground arith

put_stream-IsBehind :
    (a : Adapter) (peer_id : String) (r : PeerReplay) (p : PeerPosition)
    → IsBehind (lookup p.peer_id a.peer_streams) p
    → (str_eq peer_id p.peer_id ≡ true → IsBehind (some r) p)
    → IsBehind (lookup p.peer_id (put_stream a peer_id r).peer_streams) p
unfolding put_stream
put_stream-IsBehind a peer_id r p h i =
    rw (lookup-insert peer_id p.peer_id r a.peer_streams)
      (elim (Bool-cases (str_eq peer_id p.peer_id)) [
        | inl same ↦ rw same (i same)
        | inr other ↦ rw other h
      ])

handle_peer-IsBehind :
    (a : Adapter) (t : Now) (p q : PeerPosition)
    → IsBehind (lookup p.peer_id a.peer_streams) p
    → IsBehind (lookup p.peer_id (handle_peer a t q).peer_streams) p
unfolding handle_peer admits_peer queue_redis
handle_peer-IsBehind a t p q h = elim (Bool-cases (admits_peer a t q)) [
  | inl admitted ↦ rw admitted (
      put_stream-IsBehind a q.peer_id (replay_of q) p h (λ same.
        advances-IsBehind (lookup p.peer_id a.peer_streams) p q h
          (ground (arith, eq_iff q.peer_id p.peer_id))))
  | inr refused ↦ rw refused h
]

handle_peer_status-IsBehind :
    (a : Adapter) (t : Now) (p : PeerPosition) (s : PeerStatus)
    → IsBehind (lookup p.peer_id a.peer_streams) p
    → IsBehind (lookup p.peer_id (handle_peer_status a t s).peer_streams) p
unfolding handle_peer_status admits_peer_status queue_redis
handle_peer_status-IsBehind a t p s h = elim (Bool-cases (admits_peer_status a t s)) [
  | inl admitted ↦
      let o = lookup s.peer_id a.peer_streams in
      rw admitted (
        put_stream-IsBehind a s.peer_id (with_status (stream_before o s) s.status) p h (λ same.
          accepts_status-IsBehind o p s (ground (arith, eq_iff s.peer_id p.peer_id))
            (ground arith)))
  | inr refused ↦ rw refused h
]

kept-IsBehind :
    (e : Encoder) (a : Adapter) (t : Now) (i : Input) (p : PeerPosition)
    → spares_streams i ≡ true
    → IsBehind (lookup p.peer_id a.peer_streams) p
    → IsBehind (lookup p.peer_id (step e a t i).peer_streams) p
kept-IsBehind e a t i p spares h = rw (step-streams e a t i spares) h

step-IsBehind :
    (e : Encoder) (a : Adapter) (t : Now) (i : Input) (p : PeerPosition)
    → is_control i ≡ false
    → IsBehind (lookup p.peer_id a.peer_streams) p
    → IsBehind (lookup p.peer_id (step e a t i).peer_streams) p
unfolding step
step-IsBehind e a t (gives_control c) p n h = absurd (ground arith)
step-IsBehind e a t (gives_peer q) p n h = handle_peer-IsBehind a t p q h
step-IsBehind e a t (gives_peer_status s) p n h = handle_peer_status-IsBehind a t p s h
step-IsBehind e a t i p n h = kept-IsBehind e a t i p refl h

run-IsBehind :
    (e : Encoder) (a : Adapter) (inputs : List (Now × Input)) (p : PeerPosition)
    → All (λ u. is_control u.1 ≡ false) inputs
    → IsBehind (lookup p.peer_id a.peer_streams) p
    → IsBehind (lookup p.peer_id (run e a inputs).peer_streams) p
unfolding run
run-IsBehind e a [] p n h = h
run-IsBehind e a ((t, i) ∷ inputs) p n h =
    run-IsBehind e (step e a t i) inputs p n.1 (step-IsBehind e a t i p n.0 h)

handled-IsBehind :
    (a : Adapter) (t : Now) (p q : PeerPosition)
    → admits_peer a t p ≡ true
    → str_eq p.peer_id q.peer_id ≡ true
    → IsBehind (some (replay_of p)) q
    → IsBehind (lookup q.peer_id (handle_peer a t p).peer_streams) q
unfolding handle_peer queue_redis put_stream
handled-IsBehind a t p q h same i =
    rw h (rw (lookup-insert p.peer_id q.peer_id (replay_of p) a.peer_streams) (rw same i))

-- Once a position of a peer was forwarded, every position of the same peer that is not ahead of it
-- is refused behind any inputs that are no controls of the server. Ahead is a later epoch, or in the
-- same epoch and stream both a later number and a later time.
pub no_position_twice :
    (e : Encoder) (a : Adapter) (t u : Now) (p q : PeerPosition) (inputs : List (Now × Input))
    → admits_peer a t p ≡ true
    → str_eq p.peer_id q.peer_id ≡ true
    → IsBehind (some (replay_of p)) q
    → All (λ v. is_control v.1 ≡ false) inputs
    → admits_peer (run e (handle_peer a t p) inputs) u q ≡ false
unfolding admits_peer
no_position_twice e a t u p q inputs h same i n =
    ground
      (arith, run-IsBehind e (handle_peer a t p) inputs q n (handled-IsBehind a t p q h same i))
