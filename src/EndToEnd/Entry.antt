-- ===== src/EndToEnd/Entry.antt =====
-- The hello of authenticate, and what handleAuth makes of it where it lets the client in.
use supervpn.Base.{
  ℕ, ◌^◌, ◌<◌, ◌≡◌, refl, List, [], ◌∷◌, ◌++◌, ltb, length, is_empty, if◌then◌else◌, none, some,
  true, false, ok, arith, ap, ◌∙◌, All, IsByte, inl, inr, Bool-cases,
}
use supervpn.Base.Text.{codes, hex_encode}
use supervpn.Proto.Header.{Header, InRange, frame_auth, marshal, parse_header-marshal}
use supervpn.Proto.Auth.Message.{auth_msg_hello, flag_fragment}
use supervpn.Proto.Auth.Hello.{
  AuthHello, IsHello, marshal_hello, parse_hello, parse_hello-marshal_hello,
}
use supervpn.Config.Defaults.{fec_with_defaults}
use supervpn.Crypto.Keys.{KeySource, derive_key}
use supervpn.Fec.Pipe.{Pipe, new_pipe}
use supervpn.Hub.Switch.{Hub}
use supervpn.Hub.Manager.{get}
use supervpn.Link.Packet.{payload-marshal}
use supervpn.Server.State.{Outside, Session, Server}
use supervpn.Server.Lifecycle.{new_session_id}
use supervpn.Server.Admission.{
  Peer, Draw, unsigned, delay_of, is_banned, stored_hash, hub_net_name, kick_until, login_banned,
  new_session, enter, start_session, admit_user, admit_hello, admit_request, admit_payload,
  handle_auth,
}
use supervpn.Server.Dispatch.{dispatch, handle_packet, handle_packet_parsed}
use supervpn.Client.Login.{Account, hello_packet}

abbrev pub hello_of : KeySource → Account → AuthHello
hello_of source a = record {
  hub_id = a.hub_id;
  login = a.login;
  pw_hash = source.sha256 a.password;
  flags = flag_fragment;
}

-- The account can be written into a hello, and SHA-256 gives 32 bytes.
pub record IsAccount (source : KeySource) (a : Account) : Type 0 where
  pub hub_lt : a.hub_id < 2 ^ 16
  pub login_short : length a.login < 2 ^ 8
  pub digest_length : length (source.sha256 a.password) ≡ 32
  pub digest_bytes : All IsByte (source.sha256 a.password)

module _ (env : Outside) (now : ℕ) (draw : Draw) (peer : Peer) (srv : Server) where
  -- The server knows the account and lets it in.
  pub record Welcomes (a : Account) (h : Hub) (key : List ℕ) (pipe : Pipe) : Type 0 where
    pub address_allowed : is_banned peer.addr srv ≡ false
    pub hub_found : get a.hub_id srv.manager ≡ some h
    pub known : is_empty (stored_hash a.login a.hub_id srv.hubs []) ≡ false
    pub password_right :
        env.check_password
          (hex_encode (env.keys.sha256 a.password))
          (stored_hash a.login a.hub_id srv.hubs [])
        ≡ true
    pub not_kicked : kick_until now a.login srv ≡ none
    pub login_allowed : login_banned a.login a.hub_id srv ≡ false
    pub derived :
        derive_key env.keys
          (hex_encode (env.keys.sha256 a.password))
          (hub_net_name a.hub_id)
          (codes "server")
          a.login
        ≡ some key
    pub key_long : ltb (length key) 16 ≡ false
    pub piped :
        new_pipe env.reed_solomon
          (unsigned (fec_with_defaults srv.fec).k)
          (unsigned (fec_with_defaults srv.fec).r)
          (delay_of (fec_with_defaults srv.fec).repair_delay)
          true
        ≡ ok pipe

  abbrev pub session_of : Account → List ℕ → Pipe → Session
  session_of a key pipe =
      new_session env now (new_session_id draw.session) key draw.salt pipe (hello_of env.keys a)
        peer

  let_in :
      (a : Account) (h : Hub) (key : List ℕ) (pipe : Pipe)
      → Welcomes a h key pipe
      → admit_hello env now draw (hello_of env.keys a) peer srv
        ≡ enter env (session_of a key pipe) h (fec_with_defaults srv.fec) srv
  unfolding admit_hello admit_user start_session
  let_in a h key pipe w =
      rw
        (
          admit_hello, w.hub_found, w.known, w.password_right, admit_user, w.not_kicked,
          w.login_allowed, start_session, w.derived, w.key_long, w.piped,
        )
        refl

  hello_header : Account → Header
  hello_header a = record { frame_type = frame_auth; hub_id = a.hub_id; session_id = 0; seq = 0 }

  hello_header-InRange : (a : Account) → IsAccount env.keys a → InRange (hello_header a)
  unfolding hello_header
  hello_header-InRange a v = record {
    type_lt = omega arith;
    hub_lt = v.hub_lt;
    session_lt = omega arith;
    seq_lt = omega arith;
  }

  hello_of-IsHello : (a : Account) → IsAccount env.keys a → IsHello (hello_of env.keys a)
  hello_of-IsHello a v = record {
    hub_lt = v.hub_lt;
    login_short = v.login_short;
    hash_length = v.digest_length;
  }

  asks :
      (a : Account)
      → handle_auth env now draw (auth_msg_hello ∷ marshal_hello (hello_of env.keys a)) peer srv ≡ (
          if is_banned peer.addr srv
          then handle_auth env now draw [] peer srv
          else admit_request env now draw
              (parse_hello (marshal_hello (hello_of env.keys a)))
              peer
              srv)
  unfolding handle_auth admit_payload
  asks a = elim (Bool-cases (is_banned peer.addr srv)) [
    | inl banned ↦ rw banned refl
    | inr allowed ↦ rw allowed refl
  ]

  pub server_enters :
      (a : Account) (h : Hub) (key : List ℕ) (pipe : Pipe)
      → IsAccount env.keys a
      → Welcomes a h key pipe
      → handle_packet env now draw (hello_packet env.keys a) peer false srv
        ≡ enter env (session_of a key pipe) h (fec_with_defaults srv.fec) srv
  unfolding dispatch hello_packet hello_header admit_request
  server_enters a h key pipe v w =
      let message = auth_msg_hello ∷ marshal_hello (hello_of env.keys a) in
      let pkt = marshal (hello_header a) ++ message in
      handle_packet_parsed env now draw pkt peer false srv (hello_header a)
        (parse_header-marshal (hello_header a) message (hello_header-InRange a v))
      ∙ ap (λ p. handle_auth env now draw p peer srv) (payload-marshal (hello_header a) message)
      ∙ asks a
      ∙ rw
          (
            w.address_allowed,
            parse_hello-marshal_hello (hello_of env.keys a) (hello_of-IsHello a v),
          )
          (let_in a h key pipe w)

-- What the client keeps of an AuthOK.
