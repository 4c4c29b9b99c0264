-- ===== src/EndToEnd/Downstream.antt =====
-- sendFECData of the server against recvLoop of the client.
use supervpn.Base.{ℕ, ◌+◌, ◌%◌, ◌^◌, ◌≡◌, refl, List, length, Option, true, ap, ◌∙◌}
use supervpn.Proto.Seq.{unpack_data_seq-pack_data_seq}
use supervpn.Crypto.Packet.{Aead, Cipher, IsCipher}
use supervpn.Crypto.Replay.{ReplayWindow, check}
use supervpn.Link.Packet.{sealed_frame, sealed_frame-parsed, unsealed-sealed_frame_fresh}
use supervpn.Fec.Pipe.Receive.{recv_data}
use supervpn.Fec.Shards.{ReedSolomon}
use supervpn.Server.State.{Outside, Session}
use supervpn.Server.Outgoing.{on_both, send_sealed, send_fec_data}
use supervpn.Client.State.{Loop, Receiver}
use supervpn.Client.Incoming.{
  Stepped, goes_on, take_data, count_data, data_frame, on_data, on_packet, recv_step,
  recv_step_parsed,
}
use supervpn.EndToEnd.Upstream.{data_header, IsData, data_header-InRange}

module _ (aead : Aead) (rs : ReedSolomon) (now : ℕ) (l : Loop) (r : Receiver) where
  -- The frame goes into the client's decoder, and what comes out waits for the local interface.
  abbrev pub taken : ReplayWindow → ℕ → ℕ → List ℕ → Stepped
  taken w block_id pkt_idx frame =
      let got = recv_data rs now block_id pkt_idx frame r.pipe in
      (
        goes_on,
        record l { replay = w },
        take_data got.0 (record (count_data (length frame) r) { pipe = got.1 }),
      )

  sealed_data_taken :
      (c : Cipher) (hub_id session_id block_id pkt_idx : ℕ) (frame : List ℕ)
      → IsCipher c
      → IsData hub_id session_id block_id pkt_idx
      → (check l.replay ((c.counter + 1) % 2 ^ 64)).0 ≡ true
      → let hdr = data_header hub_id session_id block_id pkt_idx in
        recv_step aead rs now session_id (sealed_frame aead hdr c frame).0 l r
        ≡ taken (check l.replay ((c.counter + 1) % 2 ^ 64)).1 block_id pkt_idx frame
  unfolding on_packet on_data data_frame
  sealed_data_taken c hub_id session_id block_id pkt_idx frame v d fresh =
      let hdr = data_header hub_id session_id block_id pkt_idx in
      let pkt = (sealed_frame aead hdr c frame).0 in
      recv_step_parsed aead rs now session_id pkt l r hdr
        (sealed_frame-parsed aead hdr c frame
          (data_header-InRange hub_id session_id block_id pkt_idx d))
        refl
      ∙ ap
          (λ (u : Option (List ℕ) × ReplayWindow).
            (goes_on, record l { replay = u.1 }, data_frame aead rs now hdr u.0 r))
          (unsealed-sealed_frame_fresh aead hdr c frame l.replay v fresh)
      ∙ rw (data_frame, unpack_data_seq-pack_data_seq block_id pkt_idx d.block_lt d.idx_lt) refl

-- A frame that the server sends as a data packet of a session, and whose counter the window of the
-- receiving loop takes, goes into the client's decoder under its block and index; the loop goes on, and
-- the frames that the decoder gives, of 14 bytes or more, wait for the local interface.
pub recv_step-send_fec_data :
    (env : Outside) (now : ℕ) (sess : Session) (rs : ReedSolomon) (l : Loop) (r : Receiver)
    (block_id pkt_idx : ℕ) (frame : List ℕ)
    → IsCipher sess.cipher
    → IsData sess.hub_id sess.id block_id pkt_idx
    → (check l.replay ((sess.cipher.counter + 1) % 2 ^ 64)).0 ≡ true
    → (pkt : List ℕ) × ((send_fec_data env block_id pkt_idx frame sess).0 ≡ on_both sess pkt)
      × (recv_step (env.aead_of sess.key) rs now sess.id pkt l r
          ≡ taken
              (env.aead_of sess.key)
              rs
              now
              l
              r
              (check l.replay ((sess.cipher.counter + 1) % 2 ^ 64)).1
              block_id
              pkt_idx
              frame)
unfolding send_fec_data send_sealed
recv_step-send_fec_data env now sess rs l r block_id pkt_idx frame v d fresh = (
  (sealed_frame (env.aead_of sess.key) (data_header sess.hub_id sess.id block_id pkt_idx)
      sess.cipher frame).0,
  refl,
  sealed_data_taken (env.aead_of sess.key) rs now l r sess.cipher sess.hub_id sess.id block_id
      pkt_idx frame v d fresh,
)
