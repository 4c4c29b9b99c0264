-- ===== src/Server/Bans.antt =====
-- cmd/supervpn-server/main.go: what the requests for a kick, an IP ban and a login ban do to the server.
-- The HTTP request has been parsed; writing the ban files is left out.
use supervpn.Base.{
  ℕ, ◌+◌, List, [], ◌∷◌, ◌==◌, ◌&&◌, is_empty, if◌then◌else◌, Option, none, some, Bool, false,
}
use supervpn.Base.Assoc.{find, erase}
use supervpn.Base.Net.{split_host_port}
use supervpn.Base.Text.{same_bytes, find_text, store_text, erase_text, has_text, remove_text}
use supervpn.Server.State.{Session, Server, Effect, closes, kick_block_duration}
use supervpn.Server.Lifecycle.{close_second, leave_hub}
use supervpn.Server.Range.{holds_id, keys, range_where}

abbrev pub add_text : List ℕ → List (List ℕ) → List (List ℕ)
add_text t texts = if has_text t texts then texts else t ∷ texts

-- `s.ipToLogins[ip][login] = true`
unfoldable pub note_login :
    List ℕ → List ℕ → List (List ℕ × List (List ℕ)) → List (List ℕ × List (List ℕ))
note_login ip login logins = elim (find_text ip logins) [
  | none ↦ store_text ip (login ∷ []) logins
  | some known ↦ store_text ip (add_text login known) logins
]

abbrev pub close_both : Session → List Effect
close_both sess = closes sess.close_conn ∷ close_second sess

-- The session is gone from the map and its login blocked for a while; afterwards its connections are
-- closed and it leaves the hub. A session stands in the map under its own ID.
unfoldable pub kick : ℕ → ℕ → Session → Server → List Effect × Server
kick now id sess srv = (
  close_both sess,
  record srv {
    sessions = erase id srv.sessions;
    kicked = store_text sess.login (now + kick_block_duration) srv.kicked;
    manager = leave_hub id sess.hub_id srv.manager;
  },
)

-- The host of the session's address, or "".
abbrev pub host_of : List ℕ → List ℕ
host_of addr = elim (split_host_port addr) [ none ↦ [] | some (host, port) ↦ host ]

abbrev pub ban_host : List ℕ → List ℕ → Server → Server
ban_host ip login srv = record srv {
  banned_ips = add_text ip srv.banned_ips;
  ip_to_logins = note_login ip login srv.ip_to_logins;
}

-- POST /api/hubs/{hub_id}/kick/{session_id}; `none` is "session not found".
unfoldable pub kick_session : ℕ → ℕ → Server → Option (List Effect × Server)
kick_session now id srv = elim (find id srv.sessions) [
  | none ↦ none
  | some sess ↦
      let (out, left) = kick now id sess srv in
      let ip = host_of sess.remote_addr in
      some (out, (if is_empty ip then left else ban_host ip sess.login left))
]

abbrev pub is_from : List ℕ → Session → Bool
is_from ip sess = elim (split_host_port sess.remote_addr) [
  | none ↦ false
  | some (host, port) ↦ same_bytes host ip
]

unfoldable pub kick_noting : ℕ → List ℕ → ℕ → Session → Server → List Effect × Server
kick_noting now ip id sess srv =
    let (out, left) = kick now id sess srv in
    (out, record left { ip_to_logins = note_login ip sess.login left.ip_to_logins })

unfoldable pub kick_sessions_by_ip : ℕ → List ℕ → Server → List Effect × Server
kick_sessions_by_ip now ip srv =
    range_where (is_from ip) (kick_noting now ip) (keys srv.sessions) srv

-- POST /api/ips/{ip}/ban
unfoldable pub ban_ip : ℕ → List ℕ → Server → List Effect × Server
ban_ip now ip srv =
    kick_sessions_by_ip now ip (record srv { banned_ips = add_text ip srv.banned_ips })

unfoldable pub erase_logins {ℓ} :
    {A : Type ℓ} → List (List ℕ) → List (List ℕ × A) → List (List ℕ × A)
erase_logins [] kicked = kicked
erase_logins (login ∷ logins) kicked = erase_logins logins (erase_text login kicked)

-- POST /api/ips/{ip}/unban: the logins that were kicked from there may come back at once.
unfoldable pub unban_ip : List ℕ → Server → Server
unban_ip ip srv = record srv {
  banned_ips = remove_text ip srv.banned_ips;
  kicked = elim (find_text ip srv.ip_to_logins) [
    | none ↦ srv.kicked
    | some logins ↦ erase_logins logins srv.kicked
  ];
  ip_to_logins = erase_text ip srv.ip_to_logins;
}

abbrev pub is_user : List ℕ → ℕ → Session → Bool
is_user login hub_id sess = same_bytes sess.login login && sess.hub_id == hub_id

unfoldable pub kick_sessions_by_login : ℕ → List ℕ → ℕ → Server → List Effect × Server
kick_sessions_by_login now login hub_id srv =
    range_where (is_user login hub_id) (kick now) (keys srv.sessions) srv

abbrev pub add_id : ℕ → List ℕ → List ℕ
add_id id ids = if holds_id id ids then ids else id ∷ ids

unfoldable pub remove_id : ℕ → List ℕ → List ℕ
remove_id id [] = []
remove_id id (i ∷ ids) = let rest = remove_id id ids in if i == id then rest else i ∷ rest

abbrev pub bans_of : List ℕ → Server → List ℕ
bans_of login srv = elim (find_text login srv.banned_logins) [ none ↦ [] | some ids ↦ ids ]

-- POST /api/hubs/{hub_id}/loginbans/{login}
unfoldable pub ban_login : ℕ → List ℕ → ℕ → Server → List Effect × Server
ban_login now login hub_id srv = kick_sessions_by_login now login hub_id (record srv {
  banned_logins = store_text login (add_id hub_id (bans_of login srv)) srv.banned_logins;
})

-- POST /api/hubs/{hub_id}/loginunbans/{login}
unfoldable pub unban_login : List ℕ → ℕ → Server → Server
unban_login login hub_id srv =
    let left = remove_id hub_id (bans_of login srv) in
    record srv {
      banned_logins =
          if is_empty left
          then erase_text login srv.banned_logins
          else store_text login left srv.banned_logins;
    }
