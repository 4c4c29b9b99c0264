-- ===== src/Server/Dispatch.antt =====
-- cmd/supervpn-server/main.go: handlePacket, and the loops of serveStream and handleTCPConn2.
use supervpn.Base.{
  ◌≡◌, refl, ℕ, List, [], ◌==◌, ◌&&◌, not, if◌then◌else◌, Option, none, some, Bool, true, false,
}
use mathlib.Core.List.{map}
use supervpn.Base.Assoc.{find, store}
use supervpn.Proto.Header.{
  Header, parse_header, frame_data, frame_repair, frame_join, frame_data_frag, frame_auth,
  frame_list_hubs, frame_ping, frame_update_get,
}
use supervpn.Link.Packet.{payload_of}
use supervpn.Update.Inband.{handle_update_get}
use supervpn.Server.State.{Outside, Session, Server, Mode, udp, udp2, Effect, sends}
use supervpn.Server.Incoming.{handle_data, handle_frag, handle_repair}
use supervpn.Server.Lifecycle.{handle_ping, handle_join, handle_list_hubs, remove_session}
use supervpn.Server.Admission.{Admitted, Peer, Draw, handle_auth}

abbrev pub is_datagram : Mode → Bool
is_datagram udp = true
is_datagram udp2 = true
is_datagram _ = false

abbrev pub no_id : List Effect × Server → Admitted
no_id (out, srv) = (out, 0, srv)

module _ (env : Outside) where
  unfoldable pub update_replies : Peer → List ℕ → List Effect
  update_replies peer payload =
      if is_datagram peer.mode
      then []
      else map (sends peer.path)
          (handle_update_get env.reply_sent env.version env.assets env.open_asset payload)

  -- The switch of handlePacket.
  unfoldable pub dispatch : ℕ → Draw → Header → List ℕ → Peer → Bool → Server → Admitted
  dispatch now draw hdr payload peer secondary srv =
      if hdr.frame_type == frame_auth
      then (if secondary then ([], 0, srv) else handle_auth env now draw payload peer srv)
      else if hdr.frame_type == frame_data
      then no_id (handle_data env now hdr payload peer.path peer.addr secondary srv)
      else if hdr.frame_type == frame_data_frag
      then no_id (handle_frag env now hdr payload peer.path peer.addr secondary srv)
      else if hdr.frame_type == frame_repair
      then no_id (handle_repair env now hdr payload peer.path peer.addr secondary srv)
      else if hdr.frame_type == frame_join
      then ([], 0, (if secondary then handle_join hdr peer.path peer.addr srv else srv))
      else if hdr.frame_type == frame_list_hubs
      then (handle_list_hubs peer.path srv, 0, srv)
      else if hdr.frame_type == frame_ping
      then no_id (handle_ping now hdr peer.path srv)
      else if hdr.frame_type == frame_update_get
      then (update_replies peer payload, 0, srv)
      else ([], 0, srv)

  unfoldable pub handle_packet : ℕ → Draw → List ℕ → Peer → Bool → Server → Admitted
  handle_packet now draw pkt peer secondary srv = elim (parse_header pkt) [
    | none ↦ ([], 0, srv)
    | some hdr ↦ dispatch now draw hdr (payload_of pkt) peer secondary srv
  ]

  pub handle_packet_parsed :
      (now : ℕ) (draw : Draw) (pkt : List ℕ) (peer : Peer) (secondary : Bool) (srv : Server)
      (hdr : Header)
      → parse_header pkt ≡ some hdr
      → handle_packet now draw pkt peer secondary srv
        ≡ dispatch now draw hdr (payload_of pkt) peer secondary srv
  unfolding handle_packet
  handle_packet_parsed now draw pkt peer secondary srv hdr e = rw (handle_packet, e) refl

  -- One round of serveStream: `none` is the error that ends the connection. The first part of the result
  -- is the id that the loop keeps.
  unfoldable pub stream_round :
      ℕ → Draw → Option (List ℕ) → Peer → ℕ → Server → ℕ × List Effect × Server
  stream_round now draw none peer id srv =
      let (out, left) = remove_session id srv in if id == 0 then (id, [], srv) else (id, out, left)
  stream_round now draw (some pkt) peer id srv =
      let (out, sid, next) = handle_packet now draw pkt peer false srv in
      ((if sid == 0 then id else sid), out, next)

  -- The secondary path is lost.
  abbrev pub drop_second : Session → Session
  drop_second sess = record sess { send_raw2 = none; secondary_addr = []; close_conn2 = none }

  -- The switch of handleTCPConn2, once the connection has joined a session.
  unfoldable pub dispatch_second : ℕ → Header → List ℕ → Peer → Server → List Effect × Server
  dispatch_second now hdr payload peer srv =
      if hdr.frame_type == frame_data
      then handle_data env now hdr payload peer.path peer.addr false srv
      else if hdr.frame_type == frame_repair
      then handle_repair env now hdr payload peer.path peer.addr false srv
      else if hdr.frame_type == frame_ping
      then handle_ping now hdr peer.path srv
      else ([], srv)

  -- One round of handleTCPConn2, with the id of the session it has joined, or 0.
  unfoldable pub second_round : ℕ → Option (List ℕ) → Peer → ℕ → Server → ℕ × List Effect × Server
  second_round now none peer id srv = elim (find id srv.sessions) [
    | none ↦ (id, [], srv)
    | some sess ↦
        if id == 0
        then (id, [], srv)
        else (id, [], record srv { sessions = store id (drop_second sess) srv.sessions })
  ]
  second_round now (some pkt) peer id srv = elim (parse_header pkt) [
    | none ↦ (id, [], srv)
    | some hdr ↦
        let (out, next) = dispatch_second now hdr (payload_of pkt) peer srv in
        let joined = handle_join hdr peer.path peer.addr srv in
        if not (id == 0)
        then (id, out, next)
        else if hdr.frame_type == frame_join && not (hdr.session_id == 0)
        then (hdr.session_id, [], joined)
        else (id, [], srv)
  ]
