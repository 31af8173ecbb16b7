-- ===== src/RideGroup/Peers.antt =====
-- The positions and the states of the other riders, in protocol_v2_adapter.go.
use uplink_service.Prelude.{
  String, Bool, true, false, ◌&&◌, ◌||◌, not, Option, none, some, leb, ltb, ◌==◌, str_eq,
  if◌then◌else◌,
}
use uplink_service.GoMap.{lookup, insert}
use uplink_service.Connection.State.{second}
use uplink_service.RideGroup.State.{
  peer, peer_status, PeerPosition, PeerStatus, PeerReplay, Adapter, Now, peers_channel,
}
use uplink_service.RideGroup.Authority.{receiver_tuple_current, peer_in_grant}
use uplink_service.RideGroup.Egress.{queue_redis}

unfoldable pub put_stream : Adapter → String → PeerReplay → Adapter
put_stream a peer_id r = record a { peer_streams = insert peer_id r a.peer_streams }

-- The position is behind what is known of the peer.
abbrev pub advances : Option PeerReplay → PeerPosition → Bool
advances none p = true
advances (some previous) p =
    leb previous.epoch p.peer_transport_epoch
    && (not (p.peer_transport_epoch == previous.epoch)
        || str_eq p.peer_stream_id previous.stream_id
          && not previous.closed
          && ltb previous.seq p.seq
          && ltb previous.captured p.captured_at_ms)

abbrev pub replay_of : PeerPosition → PeerReplay
replay_of p = record {
  stream_id = p.peer_stream_id;
  epoch = p.peer_transport_epoch;
  seq = p.seq;
  captured = p.captured_at_ms;
  status = "";
  closed = false;
}

unfoldable pub admits_peer : Adapter → Now → PeerPosition → Bool
admits_peer a t p =
    receiver_tuple_current a t p.session_id p.revision p.transport_epoch p.stream_id
    && peer_in_grant a p.peer_id
    && advances (lookup p.peer_id a.peer_streams) p

-- handlePeerV2, behind the parser
unfoldable pub handle_peer : Adapter → Now → PeerPosition → Adapter
handle_peer a t p =
    if admits_peer a t p
    then queue_redis (put_stream a p.peer_id (replay_of p)) t peers_channel (peer p) second
    else a

abbrev pub accepts_status : Option PeerReplay → PeerStatus → Bool
accepts_status none s = true
accepts_status (some previous) s =
    leb previous.epoch s.peer_transport_epoch
    && (not (s.peer_transport_epoch == previous.epoch)
        || str_eq s.peer_stream_id previous.stream_id)

abbrev fresh_stream : PeerStatus → PeerReplay
fresh_stream s = record {
  stream_id = s.peer_stream_id;
  epoch = s.peer_transport_epoch;
  seq = 0;
  captured = 0;
  status = "";
  closed = false;
}

abbrev pub stream_before : Option PeerReplay → PeerStatus → PeerReplay
stream_before none s = fresh_stream s
stream_before (some previous) s =
    if ltb previous.epoch s.peer_transport_epoch then fresh_stream s else previous

abbrev closes : String → Bool
closes status = str_eq status "inactive" || str_eq status "cleared" || str_eq status "no_fix"

abbrev pub with_status : PeerReplay → String → PeerReplay
with_status r status = record r { status = status; closed = closes status || r.closed }

unfoldable pub admits_peer_status : Adapter → Now → PeerStatus → Bool
admits_peer_status a t s =
    receiver_tuple_current a t s.session_id s.revision s.transport_epoch s.stream_id
    && peer_in_grant a s.peer_id
    && accepts_status (lookup s.peer_id a.peer_streams) s

-- handlePeerStatusV2, behind the parser
unfoldable pub handle_peer_status : Adapter → Now → PeerStatus → Adapter
handle_peer_status a t s =
    if admits_peer_status a t s
    then queue_redis
        (put_stream a s.peer_id
          (with_status (stream_before (lookup s.peer_id a.peer_streams) s) s.status))
        t peers_channel (peer_status s) second
    else a
