-- ===== src/Server/Tests.antt =====
-- Runs of the server, and its theorems at concrete inputs.
use supervpn.Base.{ℕ, ◌≡◌, refl, List, [], ◌∷◌, ◌++◌, some, inl, ◌⊎◌, false}
use supervpn.Base.Assoc.{find}
use supervpn.Base.Text.{codes}
use supervpn.Proto.Header.{Header, parse_header, marshal}
use supervpn.Link.Packet.{payload_of}
use supervpn.Base.Net.{split_host_port}
use supervpn.Server.Bans.{ban_ip, is_from, kick_noting}
use supervpn.Server.State.{Server}
use supervpn.Server.Range.{unless_test}
use supervpn.Server.Lifecycle.{new_session_id, end_session, is_silent, cleanup_sessions}
use supervpn.Server.Start.{new_server}
use supervpn.Server.Admission.{Peer, Draw, reject, handle_auth}
use supervpn.Server.Admission.Grant.{Refused, Granted, handle_auth-Granted}
use supervpn.Server.Dispatch.{handle_packet}
use supervpn.Server.Members.Invariant.{Agrees}
use supervpn.Server.Members.Steps.{
  Relays, IsReached, packet, started, then_step, Reachable-Agrees, Reachable-Forwards,
}
use supervpn.Server.Removal.{cleanup_sessions-sessions, ban_ip-shuts_out}
use supervpn.Client.Login.{hello_packet}
use supervpn.Lab.{lab, ann, office, pairs, ready, caller, drawn}

-- After ann's hello.
abbrev logged_in : Server
logged_in = (handle_packet lab 1_000 drawn (hello_packet lab.keys ann) caller false ready).2

reached : IsReached lab (office ∷ []) pairs [] [] logged_in
unfolding new_server new_session_id find
reached =
    then_step _ _ started (packet 1_000 drawn (hello_packet lab.keys ann) caller false ready refl)

Reachable-Agrees_example : Agrees logged_in
Reachable-Agrees_example = Reachable-Agrees lab (office ∷ []) pairs [] [] logged_in reached

abbrev data_header : Header
data_header = record { frame_type = 1; hub_id = 1; session_id = 900; seq = 5 }

frame_parsed : parse_header (marshal data_header ++ codes "sealed frame") ≡ some data_header
unfolding parse_header marshal
frame_parsed = refl

Reachable-Forwards_example : Relays 900 logged_in (
    handle_packet lab 2_000 drawn
      (marshal data_header ++ codes "sealed frame")
      caller
      false
      logged_in)
Reachable-Forwards_example =
    Reachable-Forwards lab (office ∷ []) pairs [] [] logged_in 2_000 drawn
      (marshal data_header ++ codes "sealed frame") caller false data_header reached frame_parsed
      (inl refl)

cleanup_sessions-sessions_example :
    find 900 (cleanup_sessions 20_000_000_000 logged_in).1.sessions
    ≡ unless_test (is_silent 20_000_000_000) end_session (find 900 logged_in.sessions)
cleanup_sessions-sessions_example = cleanup_sessions-sessions 20_000_000_000 logged_in 900

ban_ip-shuts_out_example :
    let left = (ban_ip 3_000 (codes "10.0.0.7") logged_in).1 in
    ((t : ℕ)
      → find t left.sessions
        ≡ unless_test
            (is_from (codes "10.0.0.7"))
            (kick_noting 3_000 (codes "10.0.0.7"))
            (find t logged_in.sessions))
    × ((later : ℕ) (draw : Draw) (payload : List ℕ) (peer : Peer) (port : List ℕ)
        → split_host_port peer.addr ≡ some (codes "10.0.0.7", port)
        → handle_auth lab later draw payload peer left ≡ reject (codes "banned") peer.path left)
ban_ip-shuts_out_example = ban_ip-shuts_out lab 3_000 (codes "10.0.0.7") logged_in

abbrev request : List ℕ
request = payload_of (hello_packet lab.keys ann)

handle_auth-Granted_example :
    let r = handle_auth lab 1_000 drawn request caller ready in
    Refused ready r ⊎ Granted lab 1_000 drawn caller ready request r
handle_auth-Granted_example = handle_auth-Granted lab 1_000 drawn caller ready request
