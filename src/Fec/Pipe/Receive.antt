-- ===== src/Fec/Pipe/Receive.antt =====
-- internal/fec/pipe.go: RecvData, RecvRepair and RepairBlockDone. The decoder's k and r are those that
-- NewPipe gave to both halves.
use supervpn.Base.{ℕ, List, Bool, true, false}
use supervpn.Fec.Shards.{ReedSolomon}
use supervpn.Fec.Block.{Received}
use supervpn.Fec.Decoder
use supervpn.Fec.Decoder.{block_done}
use supervpn.Fec.Pipe.{Pipe}

module _ (rs : ReedSolomon) where
  unfoldable pub recv_data : ℕ → ℕ → ℕ → List ℕ → Pipe → Received × Pipe
  recv_data now block_id pkt_idx pkt p =
      let (out, dec) = Decoder.add rs p.enc.k p.enc.r now block_id pkt_idx pkt false p.dec in
      (out, record p { dec = dec })

  -- The block's K and R of the packet are not used.
  unfoldable pub recv_repair : ℕ → ℕ → ℕ → List ℕ → Pipe → Received × Pipe
  recv_repair now block_id repair_idx pkt p =
      let (out, dec) = Decoder.add rs p.enc.k p.enc.r now block_id repair_idx pkt true p.dec in
      (out, record p { dec = dec })

unfoldable pub repair_block_done : ℕ → Pipe → Bool
repair_block_done block_id p = block_done block_id p.dec
