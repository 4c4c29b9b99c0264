-- ===== src/Server/Outgoing.antt =====
-- cmd/supervpn-server/main.go: sendFECData, sendFECRepair, sendFrag and the Send of a hub client.
use supervpn.Base.{
  ℕ, suc, ◌+◌, ◌%◌, ◌^◌, List, [], ◌∷◌, ◌++◌, ◌&&◌, if◌then◌else◌, length, none, some,
}
use supervpn.Proto.Header.{frame_data, frame_repair, frame_data_frag, max_frame_plaintext}
use supervpn.Proto.Seq.{pack_data_seq, pack_repair_seq, pack_frag_seq}
use supervpn.Link.Packet.{sealed_frame}
use supervpn.Fec.Pipe
use supervpn.Fec.Pipe.{Wire, data_packet, repair_packet}
use supervpn.Fragment.Split.{split, needs_split}
use supervpn.Server.State.{Outside, Session, Effect, sends}

-- Both paths of the session, the secondary one if it is registered.
abbrev pub on_both : Session → List ℕ → List Effect
on_both sess pkt =
    sends sess.send_raw pkt ∷ (elim sess.send_raw2 [ none ↦ [] | some path ↦ sends path pkt ∷ [] ])

module _ (env : Outside) where
  -- One encrypted packet of a session: its type and Seq field, and the plaintext.
  unfoldable pub send_sealed : ℕ → ℕ → List ℕ → Session → List Effect × Session
  send_sealed frame_type seq frame sess =
      let (pkt, cipher) =
        sealed_frame (env.aead_of sess.key)
          (record {
            frame_type = frame_type;
            hub_id = sess.hub_id;
            session_id = sess.id;
            seq = seq;
          })
          sess.cipher frame in
      (on_both sess pkt, record sess { cipher = cipher })

  unfoldable pub send_fec_data : ℕ → ℕ → List ℕ → Session → List Effect × Session
  send_fec_data block_id pkt_idx frame sess =
      let (out, sent) = send_sealed frame_data (pack_data_seq block_id pkt_idx) frame sess in
      (out, record sent { frames_tx = sent.frames_tx + 1 })

  unfoldable pub send_fec_repair : ℕ → ℕ → ℕ → ℕ → List ℕ → Session → List Effect × Session
  send_fec_repair block_id repair_idx block_k block_r bytes sess =
      send_sealed frame_repair (pack_repair_seq block_id repair_idx block_k block_r) bytes sess

  -- The loop of sendFrag from piece i on.
  unfoldable pub send_pieces : ℕ → ℕ → ℕ → List (List ℕ) → Session → List Effect × Session
  send_pieces id count i [] sess = ([], sess)
  send_pieces id count i (pc ∷ pieces) sess =
      let seq = pack_frag_seq id (i % 2 ^ 8) (count % 2 ^ 8) in
      let (out, sent) = send_sealed frame_data_frag seq pc sess in
      let counted : Session = record sent { frames_tx = sent.frames_tx + 1 } in
      let (more, last) = send_pieces id count (suc i) pieces counted in (out ++ more, last)

  unfoldable pub send_frag : List ℕ → Session → List Effect × Session
  send_frag frame sess =
      let id = (sess.frag_id + 1) % 2 ^ 32 in
      let pieces = split frame max_frame_plaintext in
      send_pieces id (length pieces) 0 pieces (record sess { frag_id = id })

  -- The callbacks of the session's pipe.
  unfoldable pub send_wire : Wire → Session → List Effect × Session
  send_wire (data_packet block_id idx frame) sess = send_fec_data block_id idx frame sess
  send_wire (repair_packet block_id idx bytes) sess =
      send_fec_repair block_id idx (sess.pipe.enc.k % 2 ^ 8) (sess.pipe.enc.r % 2 ^ 8) bytes sess

  unfoldable pub send_wires : List Wire → Session → List Effect × Session
  send_wires [] sess = ([], sess)
  send_wires (w ∷ wires) sess =
      let (out, sent) = send_wire w sess in
      let (more, last) = send_wires wires sent in (out ++ more, last)

  unfoldable pub pipe_send : ℕ → List ℕ → Session → List Effect × Session
  pipe_send now frame sess =
      let ((wires, fine), pipe) =
        Pipe.send (env.writes sess.send_raw) env.reed_solomon now frame sess.pipe in
      send_wires wires (record sess { pipe = pipe })

  -- `Send` of the hub's client.
  unfoldable pub client_send : ℕ → List ℕ → Session → List Effect × Session
  client_send now frame sess =
      let called : Session = record sess { hub_send_calls = sess.hub_send_calls + 1 } in
      if sess.frag_enabled && needs_split frame max_frame_plaintext
      then send_frag frame called
      else pipe_send now frame called
