-- ===== src/Server/Members/Handlers.antt =====
-- Each handler, loop and request keeps the agreement of hubs and sessions.
use supervpn.Base.{
  refl, ℕ, ◌≡◌, List, Option, none, some, Bool, inl, inr, sym, subst, Option-cases, if_both, ◌==◌,
  ◌&&◌, not, false, is_empty,
}
use supervpn.Base.Assoc.{find}
use supervpn.Proto.Header.{
  Header, parse_header, frame_data, frame_repair, frame_join, frame_data_frag, frame_auth,
  frame_list_hubs, frame_ping, frame_update_get,
}
use supervpn.Link.Packet.{payload_of}
use supervpn.Server.State.{Outside, Session, Server, Effect}
use supervpn.Server.Range.{keys, range_where_keeps}
use supervpn.Server.Lifecycle.{
  new_session_id, end_session, remove_session, is_silent, cleanup_sessions, handle_ping,
  join_second, handle_join,
}
use supervpn.Server.Admission.{Admitted, Peer, Draw, handle_auth}
use supervpn.Server.Admission.Grant.{handle_auth-Granted}
use supervpn.Server.Incoming.{put_session, handle_data, handle_frag, handle_repair}
use supervpn.Server.Dispatch.{dispatch, handle_packet, dispatch_second, second_round, drop_second}
use supervpn.Server.Bans.{
  kick, kick_noting, kick_session, ban_ip, kick_sessions_by_ip, is_from, is_user, ban_login,
  kick_sessions_by_login, host_of,
}
use supervpn.Server.Members.Invariant.{Agrees, Agrees-Keeps, Keeps-put_session}
use supervpn.Server.Members.Packets.{
  Forwards, Forwards-handle_data, Forwards-handle_frag, Forwards-handle_repair,
}
use supervpn.Server.Members.Ends.{Agrees-ended, Agrees-entered}

pub Agrees-remove_session : (id : ℕ) (srv : Server) → Agrees srv → Agrees (remove_session id srv).1
unfolding remove_session end_session
Agrees-remove_session id srv v = elim (Option-cases (find id srv.sessions)) [
  | inl gone ↦ rw (remove_session, gone) v
  | inr (sess, found) ↦ rw (remove_session, found) (Agrees-ended id sess srv found v)
]

pub Agrees-cleanup_sessions :
    (now : ℕ) (srv : Server) → Agrees srv → Agrees (cleanup_sessions now srv).1
unfolding cleanup_sessions end_session
Agrees-cleanup_sessions now srv v =
    range_where_keeps (is_silent now) end_session Agrees
      (λ id sess s found w. Agrees-ended id sess s found w) (keys srv.sessions) srv v

-- `none` leaves the server as it is.
abbrev pub kicked_or : Server → Option (List Effect × Server) → Server
kicked_or srv none = srv
kicked_or srv (some (out, left)) = left

pub Agrees-kick_session :
    (now id : ℕ) (srv : Server) → Agrees srv → Agrees (kicked_or srv (kick_session now id srv))
unfolding kick_session kick
Agrees-kick_session now id srv v = elim (Option-cases (find id srv.sessions)) [
  | inl gone ↦ rw (kick_session, gone) v
  | inr (sess, found) ↦
      rw (kick_session, found)
        (if_both Agrees (is_empty (host_of sess.remote_addr)) _ _ (Agrees-ended id sess srv found v)
          (Agrees-ended id sess srv found v))
]

pub Agrees-ban_ip :
    (now : ℕ) (ip : List ℕ) (srv : Server) → Agrees srv → Agrees (ban_ip now ip srv).1
unfolding ban_ip kick_sessions_by_ip kick_noting kick
Agrees-ban_ip now ip srv v =
    range_where_keeps (is_from ip) (kick_noting now ip) Agrees
      (λ id sess s found w. Agrees-ended id sess s found w) (keys srv.sessions) _ v

pub Agrees-ban_login :
    (now : ℕ) (login : List ℕ) (hub_id : ℕ) (srv : Server)
    → Agrees srv
    → Agrees (ban_login now login hub_id srv).1
unfolding ban_login kick_sessions_by_login kick
Agrees-ban_login now login hub_id srv v =
    range_where_keeps (is_user login hub_id) (kick now) Agrees
      (λ id sess s found w. Agrees-ended id sess s found w) (keys srv.sessions) _ v

module _ (env : Outside) where
  Agrees-handle_auth :
      (now : ℕ) (draw : Draw) (payload : List ℕ) (peer : Peer) (srv : Server)
      → Agrees srv
      → find (new_session_id draw.session) srv.sessions ≡ none
      → Agrees (handle_auth env now draw payload peer srv).2
  Agrees-handle_auth now draw payload peer srv v fresh =
      elim (handle_auth-Granted env now draw peer srv payload) [
        | inl refused ↦ subst Agrees (sym refused.1) v
        | inr granted ↦
            let started = granted.started in
            subst (λ r. Agrees r.2) (sym started.entered)
              (Agrees-entered env _ granted.hub srv fresh granted.hub_found _ v)
      ]

  Agrees-put_session :
      (sess old : Session) (id : ℕ) (srv : Server)
      → find id srv.sessions ≡ some old
      → sess.hub_id ≡ old.hub_id
      → Agrees srv
      → Agrees (put_session env sess id srv)
  Agrees-put_session sess old id srv found same v =
      Agrees-Keeps srv (put_session env sess id srv)
        (Keeps-put_session env sess old id srv found same) v

  Agrees-handle_ping :
      (now : ℕ) (hdr : Header) (path : ℕ) (srv : Server)
      → Agrees srv
      → Agrees (handle_ping now hdr path srv).1
  unfolding handle_ping
  Agrees-handle_ping now hdr path srv v = elim (Option-cases (find hdr.session_id srv.sessions)) [
    | inl unknown ↦ rw (handle_ping, unknown) v
    | inr (sess, found) ↦
        rw (handle_ping, found)
          (Agrees-put_session (record sess { last_seen = now }) sess hdr.session_id srv found refl
            v)
  ]

  join_second-hub :
      (path : ℕ) (addr : List ℕ) (s : Session) → (join_second path addr s).hub_id ≡ s.hub_id
  unfolding join_second
  join_second-hub path addr s = elim (Option-cases s.send_raw2) [
    | inl has_none ↦ rw (join_second, has_none) refl
    | inr (p, has) ↦ rw (join_second, has) refl
  ]

  Agrees-handle_join :
      (hdr : Header) (path : ℕ) (addr : List ℕ) (srv : Server)
      → Agrees srv
      → Agrees (handle_join hdr path addr srv)
  unfolding handle_join
  Agrees-handle_join hdr path addr srv v = elim (Option-cases (find hdr.session_id srv.sessions)) [
    | inl unknown ↦ rw (handle_join, unknown) (if_both Agrees (hdr.session_id == 0) _ _ v v)
    | inr (sess, found) ↦
        rw (handle_join, found)
          (if_both Agrees (hdr.session_id == 0) _ _ v (
            Agrees-put_session (join_second path addr sess) sess hdr.session_id srv found
              (join_second-hub path addr sess) v))
  ]

  abbrev AgreesAfter : Admitted → Type 0
  AgreesAfter r = Agrees r.2

  abbrev AgreesThen : List Effect × Server → Type 0
  AgreesThen (out, srv) = Agrees srv

  abbrev AgreesLast : ℕ × List Effect × Server → Type 0
  AgreesLast (id, out, srv) = Agrees srv

  forwarded :
      (now : ℕ) (hdr : Header) (srv : Server) (r : List Effect × Server)
      → Forwards hdr.session_id srv r
      → Agrees srv
      → Agrees r.1
  forwarded now hdr srv (out, next) kept v = Agrees-Keeps srv next kept.1 v

  Agrees-dispatch :
      (now : ℕ) (draw : Draw) (hdr : Header) (payload : List ℕ) (peer : Peer) (secondary : Bool)
      (srv : Server)
      → Agrees srv
      → find (new_session_id draw.session) srv.sessions ≡ none
      → Agrees (dispatch env now draw hdr payload peer secondary srv).2
  unfolding dispatch
  Agrees-dispatch now draw hdr payload peer secondary srv v fresh =
      if_both AgreesAfter (hdr.frame_type == frame_auth) _ _
        (if_both AgreesAfter secondary _ _ v (Agrees-handle_auth now draw payload peer srv v fresh))
        (if_both AgreesAfter (hdr.frame_type == frame_data) _ _
          (forwarded now hdr srv (handle_data env now hdr payload peer.path peer.addr secondary srv)
            (Forwards-handle_data env now hdr payload peer.path peer.addr secondary srv v) v)
          (if_both AgreesAfter (hdr.frame_type == frame_data_frag) _ _
            (forwarded now hdr srv
              (handle_frag env now hdr payload peer.path peer.addr secondary srv)
              (Forwards-handle_frag env now hdr payload peer.path peer.addr secondary srv v) v)
            (if_both AgreesAfter (hdr.frame_type == frame_repair) _ _
              (forwarded now hdr srv
                (handle_repair env now hdr payload peer.path peer.addr secondary srv)
                (Forwards-handle_repair env now hdr payload peer.path peer.addr secondary srv v) v)
              (if_both AgreesAfter (hdr.frame_type == frame_join) _ _
                (if_both Agrees secondary _ _ (Agrees-handle_join hdr peer.path peer.addr srv v) v)
                (if_both AgreesAfter (hdr.frame_type == frame_list_hubs) _ _ v (
                  if_both AgreesAfter (hdr.frame_type == frame_ping) _ _
                    (Agrees-handle_ping now hdr peer.path srv v)
                    (if_both AgreesAfter (hdr.frame_type == frame_update_get) _ _ v v)))))))

  pub Agrees-handle_packet :
      (now : ℕ) (draw : Draw) (pkt : List ℕ) (peer : Peer) (secondary : Bool) (srv : Server)
      → Agrees srv
      → find (new_session_id draw.session) srv.sessions ≡ none
      → Agrees (handle_packet env now draw pkt peer secondary srv).2
  unfolding handle_packet
  Agrees-handle_packet now draw pkt peer secondary srv v fresh =
      elim (Option-cases (parse_header pkt)) [
        | inl short ↦ rw (handle_packet, short) v
        | inr (hdr, parsed) ↦
            rw (handle_packet, parsed)
              (Agrees-dispatch now draw hdr (payload_of pkt) peer secondary srv v fresh)
      ]

  drop_second-Keeps :
      (id : ℕ) (sess : Session) (srv : Server)
      → find id srv.sessions ≡ some sess
      → Agrees srv
      → Agrees (put_session env (drop_second env sess) id srv)
  drop_second-Keeps id sess srv found v =
      Agrees-put_session (drop_second env sess) sess id srv found refl v

  Agrees-dispatch_second :
      (now : ℕ) (hdr : Header) (payload : List ℕ) (peer : Peer) (srv : Server)
      → Agrees srv
      → Agrees (dispatch_second env now hdr payload peer srv).1
  unfolding dispatch_second
  Agrees-dispatch_second now hdr payload peer srv v =
      if_both AgreesThen (hdr.frame_type == frame_data) _ _
        (forwarded now hdr srv (handle_data env now hdr payload peer.path peer.addr false srv)
          (Forwards-handle_data env now hdr payload peer.path peer.addr false srv v) v)
        (if_both AgreesThen (hdr.frame_type == frame_repair) _ _
          (forwarded now hdr srv (handle_repair env now hdr payload peer.path peer.addr false srv)
            (Forwards-handle_repair env now hdr payload peer.path peer.addr false srv v) v)
          (if_both AgreesThen (hdr.frame_type == frame_ping) _ _
            (Agrees-handle_ping now hdr peer.path srv v) v))

  pub Agrees-second_round :
      (now : ℕ) (read : Option (List ℕ)) (peer : Peer) (id : ℕ) (srv : Server)
      → Agrees srv
      → Agrees (second_round env now read peer id srv).2
  unfolding second_round
  Agrees-second_round now none peer id srv v = elim (Option-cases (find id srv.sessions)) [
    | inl gone ↦ rw (second_round, gone) v
    | inr (sess, found) ↦
        rw (second_round, found)
          (if_both AgreesLast (id == 0) _ _ v (drop_second-Keeps id sess srv found v))
  ]
  Agrees-second_round now (some pkt) peer id srv v = elim (Option-cases (parse_header pkt)) [
    | inl short ↦ rw (second_round, short) v
    | inr (hdr, parsed) ↦
        rw (second_round, parsed)
          (if_both AgreesLast (not (id == 0)) _ _
            (Agrees-dispatch_second now hdr (payload_of pkt) peer srv v)
            (if_both AgreesLast (hdr.frame_type == frame_join && not (hdr.session_id == 0)) _ _
              (Agrees-handle_join hdr peer.path peer.addr srv v) v))
  ]
