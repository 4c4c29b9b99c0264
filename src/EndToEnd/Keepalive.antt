-- ===== src/EndToEnd/Keepalive.antt =====
-- sendPing of the client, handlePing of the server, and recvLoop on its answer.
use supervpn.Base.{
  ℕ, ◌^◌, ◌<◌, ◌≡◌, refl, List, [], ◌∷◌, Option, none, some, Bool, ap, ◌∙◌, arith, inl, inr,
  Option-cases, Go, append-nil, sym,
}
use supervpn.Base.Assoc.{find, store}
use supervpn.Proto.Header.{
  Header, InRange, frame_auth, frame_ping, frame_pong, marshal, parse_header, parse_header-marshal,
}
use supervpn.Proto.Auth.Message.{auth_msg_error}
use supervpn.Proto.Auth.Reply.{ReplyError, marshal_error, parse_error, parse_error-marshal_error}
use supervpn.Crypto.Packet.{Aead}
use supervpn.Fec.Shards.{ReedSolomon}
use supervpn.Link.Packet.{payload-marshal}
use supervpn.Server.State.{Outside, Session, Server, sends, reply_header, auth_error_packet}
use supervpn.Server.Lifecycle.{session_expired, handle_ping}
use supervpn.Server.Admission.{Peer, Draw}
use supervpn.Server.Dispatch.{dispatch, handle_packet, handle_packet_parsed}
use supervpn.Client.State.{Loop, Receiver}
use supervpn.Client.Outgoing.{ping_packet}
use supervpn.Client.Incoming.{
  Stepped, goes_on, session_rejected, on_auth, on_packet, recv_step, recv_step_parsed,
}
use supervpn.Client.Login.{message_of}

-- The server's answer, by the session that it has under the id.
abbrev pub answer : ℕ → Option Session → List ℕ
answer session_id none = auth_error_packet session_id session_expired
answer session_id (some sess) = marshal (reply_header frame_pong session_id)

abbrev pub noted : ℕ → ℕ → Option Session → Server → Server
noted now session_id none srv = srv
noted now session_id (some sess) srv = record srv {
  sessions = store session_id (record sess { last_seen = now }) srv.sessions;
}

-- What the client's loop does on the answer.
abbrev pub understood : ℕ → Option Session → Loop → Receiver → Stepped
understood now none l r = (session_rejected session_expired, l, r)
understood now (some sess) l r = (goes_on, l, record r { last_pong = now })

ping_header : ℕ → ℕ → Header
ping_header session_id hub_id = record {
  frame_type = frame_ping;
  hub_id = hub_id;
  session_id = session_id;
  seq = 0;
}

ping_header-InRange :
    (session_id hub_id : ℕ)
    → session_id < 2 ^ 32
    → hub_id < 2 ^ 16
    → InRange (ping_header session_id hub_id)
unfolding ping_header
ping_header-InRange session_id hub_id hs hh = record {
  type_lt = omega arith;
  hub_lt = hh;
  session_lt = hs;
  seq_lt = omega arith;
}

pong_header-InRange :
    (frame_type session_id : ℕ)
    → frame_type < 256
    → session_id < 2 ^ 32
    → InRange (reply_header frame_type session_id)
pong_header-InRange frame_type session_id ht hs = record {
  type_lt = ht;
  hub_lt = omega arith;
  session_lt = hs;
  seq_lt = omega arith;
}

server_answers :
    (env : Outside) (now session_id hub_id : ℕ) (draw : Draw) (peer : Peer) (secondary : Bool)
    (srv : Server)
    → session_id < 2 ^ 32
    → hub_id < 2 ^ 16
    → handle_packet env now draw (ping_packet session_id hub_id) peer secondary srv ≡ (
      sends peer.path (answer session_id (find session_id srv.sessions)) ∷ [],
      0,
      noted now session_id (find session_id srv.sessions) srv,
    )
unfolding dispatch handle_ping ping_packet ping_header
server_answers env now session_id hub_id draw peer secondary srv hs hh =
    let hdr = ping_header session_id hub_id in
    handle_packet_parsed env now draw (ping_packet session_id hub_id) peer secondary srv hdr (
      ap parse_header (sym (append-nil (marshal hdr)))
      ∙ parse_header-marshal hdr [] (ping_header-InRange session_id hub_id hs hh))
    ∙ elim (Option-cases (find session_id srv.sessions)) [
      | inl lost ↦ rw (handle_ping, lost) refl
      | inr (sess, found) ↦ rw (handle_ping, found) refl
    ]

client_understands :
    (aead : Aead) (rs : ReedSolomon) (now session_id : ℕ) (sess : Option Session) (l : Loop)
    (r : Receiver)
    → session_id < 2 ^ 32
    → recv_step aead rs now session_id (answer session_id sess) l r ≡ understood now sess l r
unfolding on_packet on_auth auth_error_packet
client_understands aead rs now session_id none l r hs =
    let hdr = reply_header frame_auth session_id in
    let body = auth_msg_error ∷ marshal_error session_expired in
    recv_step_parsed aead rs now session_id (answer session_id none) l r hdr
      (parse_header-marshal hdr body (pong_header-InRange frame_auth session_id (omega arith) hs))
      refl
    ∙ ap (λ p. on_packet aead rs now hdr p l r) (payload-marshal hdr body)
    ∙ ap {A = Go ReplyError (List ℕ)} (λ g. (session_rejected (message_of g), l, r))
        (ap parse_error (sym (append-nil (marshal_error session_expired)))
          ∙ parse_error-marshal_error session_expired [])
client_understands aead rs now session_id (some sess) l r hs =
    let hdr = reply_header frame_pong session_id in
    recv_step_parsed aead rs now session_id (marshal hdr) l r hdr
      (ap parse_header (sym (append-nil (marshal hdr)))
        ∙ parse_header-marshal hdr [] (pong_header-InRange frame_pong session_id (omega arith) hs))
      refl

-- A ping of a session tells the client within one exchange whether the server still has the session:
-- if it has, the server notes the time and the client's loop notes its own; if it has not, the loop ends
-- with the error "session expired", and the server is unchanged.
pub recv_step-handle_packet :
    (env : Outside) (now later session_id hub_id : ℕ) (draw : Draw) (peer : Peer) (secondary : Bool)
    (srv : Server) (aead : Aead) (rs : ReedSolomon) (l : Loop) (r : Receiver)
    → session_id < 2 ^ 32
    → hub_id < 2 ^ 16
    → let known = find session_id srv.sessions in
      (reply : List ℕ) × (handle_packet env now draw
          (ping_packet session_id hub_id)
          peer
          secondary
          srv
        ≡ (sends peer.path reply ∷ [], 0, noted now session_id known srv))
      × (recv_step aead rs later session_id reply l r ≡ understood later known l r)
recv_step-handle_packet env now later session_id hub_id draw peer secondary srv aead rs l r hs hh =
    (
      answer session_id (find session_id srv.sessions),
      server_answers env now session_id hub_id draw peer secondary srv hs hh,
      client_understands aead rs later session_id (find session_id srv.sessions) l r hs,
    )
