-- ===== src/Client/State.antt =====
-- internal/vpnclient/client.go: what a session keeps, and how it starts from the server's answer.
use supervpn.Base.{ℕ, ◌&&◌, not, ◌==◌, ltb, if◌then◌else◌, List, Bool, bit_and}
use supervpn.Base.Ints.{pos}
use supervpn.Proto.Auth.Message.{flag_fragment}
use supervpn.Config.Defaults.{FecConfig}
use supervpn.Crypto.Packet.{Cipher}
use supervpn.Crypto.Replay.{ReplayWindow}
use supervpn.Fec.Pipe.{Pipe}
use supervpn.Fragment.Reassembler.{Pending}
use supervpn.Client.Login.{AuthResult}

pub record FecStats : Type 0 where
  pub data_recv : ℕ
  pub repair_recv : ℕ
  pub recovered : ℕ
  pub unrecoverable : ℕ
  pub bytes_tx : ℕ
  pub bytes_rx : ℕ

-- The sending half of a session. `second` says whether there is a secondary transport.
pub record Sender : Type 0 where
  pub session_id : ℕ
  pub hub_id : ℕ
  pub cipher : Cipher
  pub pipe : Pipe
  pub second : Bool
  pub frag_enabled : Bool
  pub frag_id : ℕ
  pub bytes_tx : ℕ

-- What one receiving loop keeps for itself: there is a loop for each transport.
pub record Loop : Type 0 where
  pub replay : ReplayWindow
  pub mismatch_logged : Bool

-- What the receiving loops of a session share. The frames in `out` wait for the local interface.
pub record Receiver : Type 0 where
  pub pipe : Pipe
  pub reasm : Pending
  pub last_pong : ℕ
  pub stats : FecStats
  pub out : List (List ℕ)

-- The server's FEC parameters, where it advertises them.
unfoldable pub adopt_fec : AuthResult → FecConfig → FecConfig
adopt_fec ar f =
    let paired : FecConfig =
      if ltb 0 ar.server_k then record f { k = pos ar.server_k; r = pos ar.server_r } else f in
    if ltb 0 ar.server_repair_delay
    then record paired { repair_delay = pos ar.server_repair_delay }
    else paired

-- `tr.Mode() == "udp" && ar.serverFlags&proto.FlagFragment != 0`
abbrev pub uses_fragments : Bool → AuthResult → Bool
uses_fragments over_udp ar = over_udp && not (bit_and ar.server_flags flag_fragment == 0)
