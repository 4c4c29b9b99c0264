-- ===== src/Server/State.antt =====
-- cmd/supervpn-server/main.go: Session and Server. A path is the number of a `sendReply` closure: a UDP
-- peer at one of the two sockets, or a stream connection. Times are in nanoseconds.
use supervpn.Update.Inband.{File}
use supervpn.Base.{◌*◌, ◌++◌, ◌∷◌, ℕ, List, Bool, true, false, Option}
use supervpn.Config.Defaults.{HubConfig, FecConfig}
use supervpn.Crypto.Keys.{KeySource}
use supervpn.Crypto.Packet.{Aead, Cipher}
use supervpn.Crypto.Replay.{ReplayWindow}
use supervpn.Proto.Header.{Header, frame_auth, marshal}
use supervpn.Proto.Auth.Message.{auth_msg_error}
use supervpn.Proto.Auth.Reply.{marshal_error}
use supervpn.Fec.Pipe.{Pipe, Wire}
use supervpn.Fec.Shards.{ReedSolomon}
use supervpn.Fragment.Reassembler.{Pending}
use supervpn.Hub.Manager.{Manager}

-- The strings "udp", "udp2", "tls" and "reality".
pub data Mode : Type 0 where
  udp udp2 tls reality : Mode

abbrev pub is_udp : Mode → Bool
is_udp udp = true
is_udp _ = false

-- Code that is not in the repository: the AEAD under a key, the Reed-Solomon code, SHA-256 and HKDF,
-- bcrypt's comparison of a password with a stored hash, and the text of a time. `writes` says whether
-- sending a packet of the pipe on a path succeeds.
pub record Outside : Type 0 where
  pub aead_of : List ℕ → Aead
  pub reed_solomon : ReedSolomon
  pub keys : KeySource
  pub check_password : List ℕ → List ℕ → Bool
  pub format_time : ℕ → List ℕ
  pub writes : ℕ → Wire → Bool
  -- The version, the names of the assets, what reading one of them gives, and which calls of sendReply
  -- succeed for the replies of an update.
  pub version : List ℕ
  pub assets : List (List ℕ)
  pub open_asset : List ℕ → Option File
  pub reply_sent : ℕ → Bool

pub record Session : Type 0 where
  pub id : ℕ
  pub hub_id : ℕ
  pub login : List ℕ
  pub remote_addr : List ℕ
  pub mode : Mode
  pub connected_at : ℕ
  pub send_raw : ℕ
  pub send_raw2 : Option ℕ
  pub secondary_addr : List ℕ
  pub close_conn : ℕ
  pub close_conn2 : Option ℕ
  pub key : List ℕ
  pub cipher : Cipher
  pub replay : ReplayWindow
  pub pipe : Pipe
  pub frag_enabled : Bool
  pub frag_id : ℕ
  pub reasm : Pending
  pub last_seen : ℕ
  pub frames_rx : ℕ
  pub frames_tx : ℕ
  pub hub_send_calls : ℕ

pub record Server : Type 0 where
  pub hubs : List HubConfig
  pub fec : FecConfig
  pub manager : Manager
  pub sessions : List (ℕ × Session)
  pub kicked : List (List ℕ × ℕ)
  pub banned_ips : List (List ℕ)
  pub ip_to_logins : List (List ℕ × List (List ℕ))
  pub banned_logins : List (List ℕ × List ℕ)

-- What a handler does to the outside: it sends a packet on a path, closes the path's connection, or
-- cancels the background work of a session.
pub data Effect : Type 0 where
  sends : ℕ → List ℕ → Effect
  closes : ℕ → Effect
  cancels : ℕ → Effect

abbrev pub second : ℕ
second = 1_000_000_000

-- In nanoseconds.
abbrev pub kick_block_duration : ℕ
kick_block_duration = 5 * 60 * second

-- The header of a reply, with only its type and session set.
abbrev pub reply_header : ℕ → ℕ → Header
reply_header frame_type session_id = record {
  frame_type = frame_type;
  hub_id = 0;
  session_id = session_id;
  seq = 0;
}

-- A FrameAuth packet with an AuthError of this message.
unfoldable pub auth_error_packet : ℕ → List ℕ → List ℕ
auth_error_packet session_id message =
    marshal (reply_header frame_auth session_id) ++ (auth_msg_error ∷ marshal_error message)
