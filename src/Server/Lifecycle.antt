-- ===== src/Server/Lifecycle.antt =====
-- cmd/supervpn-server/main.go: newSessionID, removeSession, cleanupSessions, handlePing, handleJoin and
-- handleListHubs.
use supervpn.Base.{
  ℕ, ◌-◌, ◌*◌, List, [], ◌∷◌, ◌++◌, ltb, ◌==◌, not, if◌then◌else◌, none, some, Bool,
}
use supervpn.Base.Assoc.{find, store, erase}
use supervpn.Base.Text.{codes, keep_text}
use supervpn.Proto.Header.{Header, frame_pong, frame_list_hubs, marshal}
use supervpn.Proto.HubList.{HubInfo, marshal_hub_list}
use supervpn.Config.Defaults.{HubConfig}
use supervpn.Hub.Switch.{leave}
use supervpn.Hub.Manager.{Manager, get}
use supervpn.Server.Range.{keys, range_where}
use supervpn.Server.State.{
  Session, Server, Effect, sends, closes, cancels, second, reply_header, auth_error_packet,
}

-- The argument is the 32-bit number that the random source gave.
unfoldable pub new_session_id : ℕ → ℕ
new_session_id draw = if draw == 0 then 1 else draw

unfoldable pub leave_hub : ℕ → ℕ → Manager → Manager
leave_hub id hub_id m = elim (get hub_id m) [ none ↦ m | some h ↦ store hub_id (leave id h) m ]

abbrev pub close_second : Session → List Effect
close_second sess = elim sess.close_conn2 [ none ↦ [] | some path ↦ closes path ∷ [] ]

-- The session leaves the map and its hub, its background work is cancelled and its second connection
-- closed.
unfoldable pub end_session : ℕ → Session → Server → List Effect × Server
end_session id sess srv = (
  cancels id ∷ close_second sess,
  record srv { sessions = erase id srv.sessions; manager = leave_hub id sess.hub_id srv.manager },
)

unfoldable pub remove_session : ℕ → Server → List Effect × Server
remove_session id srv = elim (find id srv.sessions) [
  | none ↦ ([], srv)
  | some sess ↦ end_session id sess srv
]

-- `Before(deadline)`, the deadline being 15 seconds ago.
abbrev pub is_silent : ℕ → Session → Bool
is_silent now sess = ltb sess.last_seen (now - 15 * second)

unfoldable pub cleanup_sessions : ℕ → Server → List Effect × Server
cleanup_sessions now srv =
    let (out, left) = range_where (is_silent now) end_session (keys srv.sessions) srv in
    (out, record left { kicked = keep_text (λ until. not (ltb until now)) left.kicked })

abbrev pub session_expired : List ℕ
session_expired = codes "session expired"

unfoldable pub handle_ping : ℕ → Header → ℕ → Server → List Effect × Server
handle_ping now hdr path srv = elim (find hdr.session_id srv.sessions) [
  | none ↦ (sends path (auth_error_packet hdr.session_id session_expired) ∷ [], srv)
  | some sess ↦ (
    sends path (marshal (reply_header frame_pong hdr.session_id)) ∷ [],
    record srv { sessions = store hdr.session_id (record sess { last_seen = now }) srv.sessions },
  )
]

-- The second TLS connection of a session becomes its secondary path.
unfoldable pub join_second : ℕ → List ℕ → Session → Session
join_second path addr sess = elim sess.send_raw2 [
  | some p ↦ sess
  | none ↦ record sess { send_raw2 = some path; secondary_addr = addr; close_conn2 = some path }
]

unfoldable pub handle_join : Header → ℕ → List ℕ → Server → Server
handle_join hdr path addr srv =
    if hdr.session_id == 0 then srv else (elim (find hdr.session_id srv.sessions) [
      | none ↦ srv
      | some sess ↦ record srv {
        sessions = store hdr.session_id (join_second path addr sess) srv.sessions;
      }
    ])

unfoldable pub hub_infos : List HubConfig → List HubInfo
hub_infos [] = []
hub_infos (h ∷ hubs) = record { id = h.id; name = h.name } ∷ hub_infos hubs

unfoldable pub handle_list_hubs : ℕ → Server → List Effect
handle_list_hubs path srv =
    sends path (marshal (reply_header frame_list_hubs 0) ++ marshal_hub_list (hub_infos srv.hubs))
    ∷ []
