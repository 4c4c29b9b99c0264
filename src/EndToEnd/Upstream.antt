-- ===== src/EndToEnd/Upstream.antt =====
-- sendData of the client against handleData of the server.
use supervpn.Base.{
  ℕ, ◌+◌, ◌%◌, ◌^◌, ◌<◌, ◌≡◌, refl, List, Option, none, some, Bool, true, ap, ◌∙◌, arith,
}
use supervpn.Base.Assoc.{find}
use supervpn.Proto.Header.{Header, InRange, frame_data}
use supervpn.Proto.Seq.{pack_data_seq, unpack_data_seq-pack_data_seq, pack_data_seq-lt}
use supervpn.Crypto.Packet.{Cipher, IsCipher}
use supervpn.Crypto.Replay.{ReplayWindow, check}
use supervpn.Link.Packet.{
  payload_of, sealed_frame, sealed_frame-parsed, unsealed-sealed_frame_fresh,
}
use supervpn.Fec.Pipe.{Wire}
use supervpn.Fec.Pipe.Receive.{recv_data}
use supervpn.Server.State.{Outside, Session, Server, Effect}
use supervpn.Server.Incoming.{
  received_frames, register, deliver, open_from, put_session, take_data, session_data, handle_data,
}
use supervpn.Server.Admission.{Peer, Draw}
use supervpn.Server.Dispatch.{no_id, dispatch, handle_packet, handle_packet_parsed}
use supervpn.Client.State.{Sender}
use supervpn.Client.Outgoing.{send_on_both, send_sealed, send_data}

-- The header of a data packet.
abbrev pub data_header : ℕ → ℕ → ℕ → ℕ → Header
data_header hub_id session_id block_id pkt_idx = record {
  frame_type = frame_data;
  hub_id = hub_id;
  session_id = session_id;
  seq = pack_data_seq block_id pkt_idx;
}

-- The ids fit their fields.
pub record IsData (hub_id session_id block_id pkt_idx : ℕ) : Type 0 where
  pub hub_lt : hub_id < 2 ^ 16
  pub session_lt : session_id < 2 ^ 32
  pub block_lt : block_id < 2 ^ 32
  pub idx_lt : pkt_idx < 2 ^ 16

pub data_header-InRange :
    (hub_id session_id block_id pkt_idx : ℕ)
    → IsData hub_id session_id block_id pkt_idx
    → InRange (data_header hub_id session_id block_id pkt_idx)
data_header-InRange hub_id session_id block_id pkt_idx v = record {
  type_lt = omega arith;
  hub_lt = v.hub_lt;
  session_lt = v.session_lt;
  seq_lt = pack_data_seq-lt block_id pkt_idx v.block_lt v.idx_lt;
}

module _ (env : Outside) (now : ℕ) (peer : Peer) (secondary : Bool) (srv : Server) where
  -- The session after a packet that opened: the window has moved, the time is noted, and a secondary path
  -- is registered.
  abbrev pub heard : Session → ReplayWindow → Session
  heard sess w =
      register secondary peer.path peer.addr (record sess { last_seen = now; replay = w })

  -- The frame goes into the session's decoder, and what comes out to the hub.
  abbrev pub decoded : Session → ReplayWindow → ℕ → ℕ → List ℕ → List Effect × Server
  decoded sess w block_id pkt_idx frame =
      let seen = heard sess w in
      let got = recv_data env.reed_solomon now block_id pkt_idx frame seen.pipe in
      deliver env now sess.id seen.hub_id (received_frames got.0)
        (put_session env (record seen { pipe = got.1 }) sess.id srv)

  opens :
      (sess : Session) (hdr : Header) (c : Cipher) (frame : List ℕ)
      → IsCipher c
      → (check sess.replay ((c.counter + 1) % 2 ^ 64)).0 ≡ true
      → open_from env
          (payload_of (sealed_frame (env.aead_of sess.key) hdr c frame).0)
          peer.path
          peer.addr
          secondary
          (record sess { last_seen = now })
        ≡ (some frame, heard sess (check sess.replay ((c.counter + 1) % 2 ^ 64)).1)
  unfolding open_from
  opens sess hdr c frame v fresh =
      ap {A = Option (List ℕ) × ReplayWindow}
        (λ u. (
          u.0,
          (elim u.0 [
            | none ↦ record sess { last_seen = now; replay = u.1 }
            | some f ↦ heard sess u.1
          ]),
        ))
        (unsealed-sealed_frame_fresh (env.aead_of sess.key) hdr c frame sess.replay v fresh)

  data_opened :
      (sess : Session) (c : Cipher) (hub_id block_id pkt_idx : ℕ) (frame : List ℕ)
      → IsCipher c
      → block_id < 2 ^ 32
      → pkt_idx < 2 ^ 16
      → (check sess.replay ((c.counter + 1) % 2 ^ 64)).0 ≡ true
      → let hdr = data_header hub_id sess.id block_id pkt_idx in
        session_data env now hdr
          (payload_of (sealed_frame (env.aead_of sess.key) hdr c frame).0)
          peer.path
          peer.addr
          secondary
          sess
          srv
        ≡ decoded sess (check sess.replay ((c.counter + 1) % 2 ^ 64)).1 block_id pkt_idx frame
  unfolding session_data take_data
  data_opened sess c hub_id block_id pkt_idx frame v hb hp fresh =
      let hdr = data_header hub_id sess.id block_id pkt_idx in
      ap (λ opened. take_data env now hdr opened srv) (opens sess hdr c frame v fresh)
      ∙ rw (take_data, unpack_data_seq-pack_data_seq block_id pkt_idx hb hp) refl

  sealed_data_received :
      (draw : Draw) (sess : Session) (c : Cipher) (hub_id block_id pkt_idx : ℕ) (frame : List ℕ)
      → IsCipher c
      → IsData hub_id sess.id block_id pkt_idx
      → find sess.id srv.sessions ≡ some sess
      → (check sess.replay ((c.counter + 1) % 2 ^ 64)).0 ≡ true
      → let hdr = data_header hub_id sess.id block_id pkt_idx in
        handle_packet env now draw
          (sealed_frame (env.aead_of sess.key) hdr c frame).0
          peer
          secondary
          srv
        ≡ no_id
            (decoded sess (check sess.replay ((c.counter + 1) % 2 ^ 64)).1 block_id pkt_idx frame)
  unfolding dispatch handle_data
  sealed_data_received draw sess c hub_id block_id pkt_idx frame v d found fresh =
      let aead = env.aead_of sess.key in
      let hdr = data_header hub_id sess.id block_id pkt_idx in
      handle_packet_parsed env now draw (sealed_frame aead hdr c frame).0 peer secondary srv hdr (
        sealed_frame-parsed aead hdr c frame
          (data_header-InRange hub_id sess.id block_id pkt_idx d))
      ∙ ap no_id (
          rw (handle_data, found)
            (data_opened sess c hub_id block_id pkt_idx frame v d.block_lt d.idx_lt fresh))

-- A frame that the client sends as a data packet of a session that the server has, and whose counter the
-- session's window takes, goes into that session's decoder under its block and index, and what the
-- decoder gives goes to the session's hub; nothing else happens but that the window moves, the time is
-- noted, and the path is registered if it is a secondary one and there was none.
pub handle_packet-send_data :
    (env : Outside) (now : ℕ) (peer : Peer) (secondary : Bool) (srv : Server) (draw : Draw)
    (writes : Wire → Bool) (s : Sender) (sess : Session) (block_id pkt_idx : ℕ) (frame : List ℕ)
    → IsCipher s.cipher
    → IsData s.hub_id sess.id block_id pkt_idx
    → s.session_id ≡ sess.id
    → find sess.id srv.sessions ≡ some sess
    → (check sess.replay ((s.cipher.counter + 1) % 2 ^ 64)).0 ≡ true
    → (pkt : List ℕ) × ((send_data
          (env.aead_of sess.key)
          env.reed_solomon
          writes
          block_id
          pkt_idx
          frame
          s).0
        ≡ send_on_both s.second pkt)
      × (handle_packet env now draw pkt peer secondary srv
          ≡ no_id (
              decoded env now peer secondary srv sess
                (check sess.replay ((s.cipher.counter + 1) % 2 ^ 64)).1
                block_id
                pkt_idx
                frame))
unfolding send_data send_sealed
handle_packet-send_data env now peer secondary srv draw writes s sess block_id pkt_idx frame v d
      same found fresh =
    (
      (sealed_frame (env.aead_of sess.key) (data_header s.hub_id sess.id block_id pkt_idx) s.cipher
          frame).0,
      rw same refl,
      sealed_data_received env now peer secondary srv draw sess s.cipher s.hub_id block_id pkt_idx
          frame v d found fresh,
    )
