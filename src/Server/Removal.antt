-- ===== src/Server/Removal.antt =====
-- cmd/supervpn-server/main.go: which sessions the cleanup and the bans remove.
use supervpn.Base.{ℕ, ◌≡◌, List, some, true, refl, Bool-cases, inl, inr}
use supervpn.Base.Assoc.{find}
use supervpn.Base.Net.{split_host_port}
use supervpn.Base.Text.{codes, has_text, same_bytes_self}
use supervpn.Server.State.{Outside, Server}
use supervpn.Server.Range.{keys, unless_test, range_where-sessions, range_where_keeps}
use supervpn.Server.Lifecycle.{end_session, is_silent, cleanup_sessions}
use supervpn.Server.Admission.{Peer, Draw, reject, is_banned, handle_auth}
use supervpn.Server.Bans.{is_from, kick, kick_noting, ban_ip, kick_sessions_by_ip, add_text}

-- The cleanup takes away the sessions that were silent for 15 seconds, and leaves every other session as
-- it is.
pub cleanup_sessions-sessions :
    (now : ℕ) (srv : Server) (t : ℕ)
    → find t (cleanup_sessions now srv).1.sessions
      ≡ unless_test (is_silent now) end_session (find t srv.sessions)
unfolding cleanup_sessions end_session
cleanup_sessions-sessions now srv t =
    range_where-sessions (is_silent now) end_session (λ id sess s. refl) srv t

has_text-add_text : (t : List ℕ) (texts : List (List ℕ)) → has_text t (add_text t texts) ≡ true
unfolding has_text
has_text-add_text t texts = elim (Bool-cases (has_text t texts)) [
  | inl has ↦ rw has has
  | inr has_not ↦ rw (has_not, same_bytes_self t) refl
]

-- A ban of an address removes the sessions from that address and no others, and the server that it leaves
-- answers every authentication request from there with an error.
pub ban_ip-shuts_out :
    (env : Outside) (now : ℕ) (ip : List ℕ) (srv : Server)
    → let left = (ban_ip now ip srv).1 in
      ((t : ℕ)
        → find t left.sessions
          ≡ unless_test (is_from ip) (kick_noting now ip) (find t srv.sessions))
      × ((later : ℕ) (draw : Draw) (payload : List ℕ) (peer : Peer) (port : List ℕ)
          → split_host_port peer.addr ≡ some (ip, port)
          → handle_auth env later draw payload peer left ≡ reject (codes "banned") peer.path left)
unfolding ban_ip kick_sessions_by_ip kick_noting kick handle_auth is_banned
ban_ip-shuts_out env now ip srv = (
  (λ t.
      range_where-sessions (is_from ip) (kick_noting now ip) (λ id sess s. refl)
        (record srv { banned_ips = add_text ip srv.banned_ips }) t),
  (λ later draw payload peer port split.
      rw (handle_auth, is_banned, split, kept, has_text-add_text ip srv.banned_ips) refl),
)
  where
    kept : (ban_ip now ip srv).1.banned_ips ≡ add_text ip srv.banned_ips
    kept =
        range_where_keeps (is_from ip) (kick_noting now ip)
          (λ s. s.banned_ips ≡ add_text ip srv.banned_ips) (λ id sess s found e. e)
          (keys srv.sessions) (record srv { banned_ips = add_text ip srv.banned_ips }) refl
