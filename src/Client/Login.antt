-- ===== src/Client/Login.antt =====
-- internal/vpnclient/client.go: authenticate. The packets that the transport receives are a list, at
-- whose end Recv fails.
use supervpn.Base.{
  ◌≡◌, refl, true, arith, ℕ, List, [], ◌∷◌, ◌++◌, ltb, ◌==◌, if◌then◌else◌, length, Option, none,
  some, Go, ok, err, panic,
}
use supervpn.Base.Text.{codes, decimal}
use supervpn.Proto.Header.{Header, frame_auth, marshal, parse_header}
use supervpn.Proto.Auth.Message.{auth_msg_hello, auth_msg_ok, auth_msg_error, flag_fragment}
use supervpn.Proto.Auth.Hello.{AuthHello, marshal_hello}
use supervpn.Proto.Auth.Reply.{AuthOk, ReplyError, parse_ok, parse_error}
use supervpn.Crypto.Keys.{KeySource, derive_key}
use supervpn.Crypto.Packet.{Cipher}
use supervpn.Link.Packet.{payload_of}
use supervpn.Client.Address.{wire_hash_hex}

-- The settings of ClientConfig that a login uses.
pub record Account : Type 0 where
  pub hub_id : ℕ
  pub login : List ℕ
  pub password : List ℕ

-- The key is what the cipher was made from.
pub record AuthResult : Type 0 where
  pub session_id : ℕ
  pub key : List ℕ
  pub cipher : Cipher
  pub server_k : ℕ
  pub server_r : ℕ
  pub server_repair_delay : ℕ
  pub server_flags : ℕ

pub data LoginError : Type 0 where
  waiting_for_response derive_key_error new_cipher_error : LoginError
  parse_auth_ok : ReplyError → LoginError
  server_rejected : List ℕ → LoginError

-- The message of an AuthError; ParseAuthError's error leaves it empty.
abbrev pub message_of : Go ReplyError (List ℕ) → List ℕ
message_of (ok message) = message
message_of (err e) = []
message_of panic = []

module _ (source : KeySource) (account : Account) where
  unfoldable pub hello_packet : List ℕ
  hello_packet =
      let header : Header = record {
        frame_type = frame_auth;
        hub_id = account.hub_id;
        session_id = 0;
        seq = 0;
      } in
      let hello : AuthHello = record {
        hub_id = account.hub_id;
        login = account.login;
        pw_hash = source.sha256 account.password;
        flags = flag_fragment;
      } in
      marshal header ++ (auth_msg_hello ∷ marshal_hello hello)

  -- The salt is what the random source gives to NewCipher.
  unfoldable pub use_auth_ok : List ℕ → Go ReplyError AuthOk → Go LoginError AuthResult
  use_auth_ok salt (err e) = err (parse_auth_ok e)
  use_auth_ok salt panic = panic
  use_auth_ok salt (ok message) =
      let hub_name = codes "hub" ++ decimal account.hub_id in
      elim (derive_key source (wire_hash_hex source account.password) hub_name account.login
        (codes "server")) [
          | none ↦ err derive_key_error
          | some key ↦
              if ltb (length key) 16
              then err new_cipher_error
              else ok (record {
                session_id = message.session_id;
                key = key;
                cipher = record { counter = 0; peer_id = message.session_id; salt = salt };
                server_k = message.fec_k;
                server_r = message.fec_r;
                server_repair_delay = message.fec_repair_delay;
                server_flags = message.flags;
              })
        ]

  -- What the loop does with the payload of a FrameAuth; `none` is to wait for the next packet.
  unfoldable pub on_auth_payload : List ℕ → List ℕ → Option (Go LoginError AuthResult)
  on_auth_payload salt [] = none
  on_auth_payload salt (kind ∷ body) =
      if kind == auth_msg_ok
      then some (use_auth_ok salt (parse_ok body))
      else if kind == auth_msg_error
      then some (err (server_rejected (message_of (parse_error body))))
      else none

  unfoldable pub on_reply : List ℕ → List ℕ → Option (Go LoginError AuthResult)
  on_reply salt pkt = elim (parse_header pkt) [
    | none ↦ none
    | some hdr ↦
        if hdr.frame_type == frame_auth then on_auth_payload salt (payload_of pkt) else none
  ]

  pub on_reply_auth :
      (salt pkt : List ℕ) (hdr : Header)
      → parse_header pkt ≡ some hdr
      → hdr.frame_type ≡ frame_auth
      → on_reply salt pkt ≡ on_auth_payload salt (payload_of pkt)
  unfolding on_reply
  on_reply_auth salt pkt hdr e t =
      let is_auth : (hdr.frame_type == frame_auth) ≡ true = ground arith in
      rw (on_reply, e, is_auth) refl

  unfoldable pub wait_reply : List ℕ → List (List ℕ) → Go LoginError AuthResult
  wait_reply salt [] = err waiting_for_response
  wait_reply salt (pkt ∷ pkts) = elim (on_reply salt pkt) [
    | some result ↦ result
    | none ↦ wait_reply salt pkts
  ]
