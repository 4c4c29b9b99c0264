-- ===== src/Client/Outgoing.antt =====
-- internal/vpnclient/client.go: the callbacks of the session's pipe and bridge, and sendPing.
use supervpn.Base.{ℕ, suc, ◌+◌, ◌%◌, ◌^◌, List, [], ◌∷◌, ◌++◌, ◌&&◌, if◌then◌else◌, length, Bool}
use supervpn.Proto.Header.{
  Header, frame_data, frame_repair, frame_data_frag, frame_ping, max_frame_plaintext, marshal,
}
use supervpn.Proto.Seq.{pack_data_seq, pack_repair_seq, pack_frag_seq}
use supervpn.Crypto.Packet.{Aead}
use supervpn.Link.Packet.{sealed_frame}
use supervpn.Fec.Pipe
use supervpn.Fec.Pipe.{Wire, data_packet, repair_packet}
use supervpn.Fec.Shards.{ReedSolomon}
use supervpn.Fragment.Split.{split, needs_split}
use supervpn.Client.State.{Sender}

-- A packet on one of the transports.
pub data Sent : Type 0 where
  on_primary on_secondary : List ℕ → Sent

unfoldable pub send_on_both : Bool → List ℕ → List Sent
send_on_both second pkt = on_primary pkt ∷ (if second then on_secondary pkt ∷ [] else [])

module _ (aead : Aead) (rs : ReedSolomon) (writes : Wire → Bool) where
  unfoldable pub send_sealed : ℕ → ℕ → List ℕ → Sender → List Sent × Sender
  send_sealed frame_type seq frame s =
      let (pkt, cipher) =
        sealed_frame aead
          (record {
            frame_type = frame_type;
            hub_id = s.hub_id;
            session_id = s.session_id;
            seq = seq;
          })
          s.cipher frame in
      (send_on_both s.second pkt, record s { cipher = cipher })

  abbrev pub count_tx : ℕ → Sender → Sender
  count_tx n s = record s { bytes_tx = (s.bytes_tx + n) % 2 ^ 64 }

  unfoldable pub send_data : ℕ → ℕ → List ℕ → Sender → List Sent × Sender
  send_data block_id pkt_idx frame s =
      send_sealed frame_data (pack_data_seq block_id pkt_idx) frame (count_tx (length frame) s)

  unfoldable pub send_repair : ℕ → ℕ → List ℕ → Sender → List Sent × Sender
  send_repair block_id repair_idx bytes s =
      send_sealed frame_repair
        (pack_repair_seq block_id repair_idx (s.pipe.enc.k % 2 ^ 8) (s.pipe.enc.r % 2 ^ 8)) bytes
        (count_tx (length bytes) s)

  unfoldable pub send_pieces : ℕ → ℕ → ℕ → List (List ℕ) → Sender → List Sent × Sender
  send_pieces id count i [] s = ([], s)
  send_pieces id count i (pc ∷ pieces) s =
      let (out, sent) =
        send_sealed frame_data_frag (pack_frag_seq id (i % 2 ^ 8) (count % 2 ^ 8)) pc s in
      let (more, last) = send_pieces id count (suc i) pieces sent in (out ++ more, last)

  unfoldable pub send_wire : Wire → Sender → List Sent × Sender
  send_wire (data_packet block_id idx frame) s = send_data block_id idx frame s
  send_wire (repair_packet block_id idx bytes) s = send_repair block_id idx bytes s

  unfoldable pub send_wires : List Wire → Sender → List Sent × Sender
  send_wires [] s = ([], s)
  send_wires (w ∷ wires) s =
      let (out, sent) = send_wire w s in
      let (more, last) = send_wires wires sent in (out ++ more, last)

  unfoldable pub pipe_send : ℕ → List ℕ → Sender → List Sent × Sender
  pipe_send now frame s =
      let ((wires, fine), pipe) = Pipe.send writes rs now frame s.pipe in
      send_wires wires (record s { pipe = pipe })

  unfoldable pub send_fragmented : List ℕ → Sender → List Sent × Sender
  send_fragmented frame s =
      let id = (s.frag_id + 1) % 2 ^ 32 in
      let pieces = split frame max_frame_plaintext in
      let (out, sent) = send_pieces id (length pieces) 0 pieces (record s { frag_id = id }) in
      (out, count_tx (length frame) sent)

  -- The callback of the bridge: a frame of the local interface.
  unfoldable pub send_frame : ℕ → List ℕ → Sender → List Sent × Sender
  send_frame now frame s =
      if s.frag_enabled && needs_split frame max_frame_plaintext
      then send_fragmented frame s
      else pipe_send now frame s

unfoldable pub ping_packet : ℕ → ℕ → List ℕ
ping_packet session_id hub_id =
    let header : Header = record {
      frame_type = frame_ping;
      hub_id = hub_id;
      session_id = session_id;
      seq = 0;
    } in
    marshal header
