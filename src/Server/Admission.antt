-- ===== src/Server/Admission.antt =====
-- cmd/supervpn-server/main.go: handleAuth. The random session id and the salt of the new cipher are
-- arguments, and so is the clock.
pub mod Known
pub mod Grant
use supervpn.Base.{
  ℕ, suc, ◌-◌, ◌*◌, ◌%◌, ◌^◌, List, [], ◌∷◌, ◌++◌, ltb, ◌==◌, ◌&&◌, not, is_empty, if◌then◌else◌,
  length, Option, none, some, Bool, true, false, bit_and, Go, ok, err, panic,
}
use supervpn.Base.Assoc.{store}
use supervpn.Base.Ints.{ℤ, pos, negsuc}
use supervpn.Base.Net.{split_host_port}
use supervpn.Base.Text.{codes, same_bytes, find_text, has_text, decimal, hex_encode}
use supervpn.Proto.Header.{frame_auth, marshal}
use supervpn.Proto.Auth.Message.{auth_msg_hello, auth_msg_ok, flag_fragment}
use supervpn.Proto.Auth.Hello.{AuthHello, HelloError, parse_hello}
use supervpn.Proto.Auth.Reply.{AuthOk, marshal_ok}
use supervpn.Config.Defaults.{HubConfig, UserConfig, FecConfig, fec_with_defaults}
use supervpn.Crypto.Keys.{derive_key}
use supervpn.Crypto.Replay.{initial}
use supervpn.Fec.Pipe.{Pipe, new_pipe}
use supervpn.Hub.Switch.{Hub, join}
use supervpn.Hub.Manager.{get}
use supervpn.Server.State.{
  Outside, Session, Server, Mode, is_udp, Effect, sends, reply_header, auth_error_packet,
}
use supervpn.Server.Range.{holds_id}
use supervpn.Server.Lifecycle.{new_session_id}

-- The replies, the new session's id or 0, and the server afterwards.
abbrev pub Admitted : Type 0
Admitted = List Effect × ℕ × Server

-- `replyError(msg); return 0`
abbrev pub reject : List ℕ → ℕ → Server → Admitted
reject message path srv = (sends path (auth_error_packet 0 message) ∷ [], 0, srv)

-- An int as an unsigned 64-bit number, of which `uint8` and `uint16` keep the low bits.
abbrev pub unsigned : ℤ → ℕ
unsigned (pos n) = n
unsigned (negsuc n) = 2 ^ 64 - suc n

-- A delay below 0 is none.
abbrev pub delay_of : ℤ → ℕ
delay_of (pos n) = n * 1_000_000
delay_of (negsuc n) = 0

unfoldable pub is_banned : List ℕ → Server → Bool
is_banned addr srv = elim (split_host_port addr) [
  | none ↦ false
  | some (host, port) ↦ has_text host srv.banned_ips
]

-- The last user of that login, and the last hub of that id, count.
unfoldable pub user_hash : List ℕ → List UserConfig → List ℕ → List ℕ
user_hash login [] stored = stored
user_hash login (u ∷ users) stored =
    user_hash login users (if same_bytes u.login login then u.password_hash else stored)

unfoldable pub stored_hash : List ℕ → ℕ → List HubConfig → List ℕ → List ℕ
stored_hash login hub_id [] stored = stored
stored_hash login hub_id (h ∷ hubs) stored =
    stored_hash login hub_id hubs
      (if h.id == hub_id then user_hash login h.users stored else stored)

unfoldable pub hub_net_name : ℕ → List ℕ
hub_net_name id = codes "hub" ++ decimal id

-- `time.Now().Before(blockedUntil)`
unfoldable pub kick_until : ℕ → List ℕ → Server → Option ℕ
kick_until now login srv = elim (find_text login srv.kicked) [
  | none ↦ none
  | some until ↦ if ltb now until then some until else none
]

unfoldable pub login_banned : List ℕ → ℕ → Server → Bool
login_banned login hub_id srv = elim (find_text login srv.banned_logins) [
  | none ↦ false
  | some ids ↦ holds_id hub_id ids
]

-- Fragments go to UDP clients that understand them.
abbrev pub wants_fragments : Mode → AuthHello → Bool
wants_fragments mode hello = is_udp mode && not (bit_and hello.flags flag_fragment == 0)

unfoldable pub ok_packet : ℕ → FecConfig → Bool → List ℕ
ok_packet id f frag_enabled =
    let message : AuthOk = record {
      session_id = id;
      fec_k = unsigned f.k % 2 ^ 8;
      fec_r = unsigned f.r % 2 ^ 8;
      fec_repair_delay = unsigned f.repair_delay % 2 ^ 16;
      flags = if frag_enabled then flag_fragment else 0;
    } in
    marshal (reply_header frame_auth 0) ++ (auth_msg_ok ∷ marshal_ok message)

-- Where the request came from: the path that answers it, its address and its transport.
pub record Peer : Type 0 where
  pub path : ℕ
  pub addr : List ℕ
  pub mode : Mode

-- What the random source gives for a session.
pub record Draw : Type 0 where
  pub session : ℕ
  pub salt : List ℕ

module _ (env : Outside) where
  abbrev pub new_session : ℕ → ℕ → List ℕ → List ℕ → Pipe → AuthHello → Peer → Session
  new_session now id key salt pipe hello peer = record {
    id = id;
    hub_id = hello.hub_id;
    login = hello.login;
    remote_addr = peer.addr;
    mode = peer.mode;
    connected_at = now;
    send_raw = peer.path;
    send_raw2 = none;
    secondary_addr = [];
    close_conn = peer.path;
    close_conn2 = none;
    key = key;
    cipher = record { counter = 0; peer_id = id; salt = salt };
    replay = initial;
    pipe = pipe;
    frag_enabled = wants_fragments peer.mode hello;
    frag_id = 0;
    reasm = [];
    last_seen = now;
    frames_rx = 0;
    frames_tx = 0;
    hub_send_calls = 0;
  }

  -- The session enters the map and its hub, and the client is told.
  unfoldable pub enter : Session → Hub → FecConfig → Server → Admitted
  enter sess h f srv = (
    sends sess.send_raw (ok_packet sess.id f sess.frag_enabled) ∷ [],
    sess.id,
    record srv {
      sessions = store sess.id sess srv.sessions;
      manager =
          store sess.hub_id (join (record { session_id = sess.id; login = sess.login }) h)
            srv.manager;
    },
  )

  -- The part of handleAuth from newSessionID on.
  unfoldable pub start_session : ℕ → Draw → List ℕ → AuthHello → Hub → Peer → Server → Admitted
  start_session now draw wire hello h peer srv =
      let f = fec_with_defaults srv.fec in
      let id = new_session_id draw.session in
      let internal = reject (codes "internal error") peer.path srv in
      elim (derive_key env.keys wire (hub_net_name hello.hub_id) (codes "server") hello.login) [
        | none ↦ internal
        | some key ↦
            if ltb (length key) 16
            then internal
            else (elim (new_pipe env.reed_solomon (unsigned f.k) (unsigned f.r)
                (delay_of f.repair_delay) true) [
                  | ok pipe ↦ enter (new_session now id key draw.salt pipe hello peer) h f srv
                  | err e ↦ internal
                  | panic ↦ internal
                ])
      ]

  -- Both bans are looked up after the password was found right.
  unfoldable pub admit_user : ℕ → Draw → List ℕ → AuthHello → Hub → Peer → Server → Admitted
  admit_user now draw wire hello h peer srv = elim (kick_until now hello.login srv) [
    | some until ↦ reject (codes "kicked: reconnect after " ++ env.format_time until) peer.path srv
    | none ↦
        if login_banned hello.login hello.hub_id srv
        then reject (codes "banned") peer.path srv
        else start_session now draw wire hello h peer srv
  ]

  unfoldable pub admit_hello : ℕ → Draw → AuthHello → Peer → Server → Admitted
  admit_hello now draw hello peer srv = elim (get hello.hub_id srv.manager) [
    | none ↦ reject (codes "hub not found") peer.path srv
    | some h ↦
        let stored = stored_hash hello.login hello.hub_id srv.hubs [] in
        let wire = hex_encode hello.pw_hash in
        if is_empty stored
        then reject (codes "invalid credentials") peer.path srv
        else if not (env.check_password wire stored)
        then reject (codes "invalid credentials") peer.path srv
        else admit_user now draw wire hello h peer srv
  ]

  -- ParseAuthHello does not panic.
  unfoldable pub admit_request : ℕ → Draw → Go HelloError AuthHello → Peer → Server → Admitted
  admit_request now draw (ok hello) peer srv = admit_hello now draw hello peer srv
  admit_request now draw (err e) peer srv = reject (codes "malformed auth request") peer.path srv
  admit_request now draw panic peer srv = ([], 0, srv)

  unfoldable pub admit_payload : ℕ → Draw → List ℕ → Peer → Server → Admitted
  admit_payload now draw [] peer srv = ([], 0, srv)
  admit_payload now draw (kind ∷ request) peer srv =
      if kind == auth_msg_hello
      then admit_request now draw (parse_hello request) peer srv
      else ([], 0, srv)

  unfoldable pub handle_auth : ℕ → Draw → List ℕ → Peer → Server → Admitted
  handle_auth now draw payload peer srv =
      if is_banned peer.addr srv
      then reject (codes "banned") peer.path srv
      else admit_payload now draw payload peer srv
