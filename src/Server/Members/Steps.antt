-- ===== src/Server/Members/Steps.antt =====
-- The states that the server reaches from its start.
use supervpn.Base.{
  ℕ, ◌≡◌, List, [], ◌∷◌, Option, none, some, Bool, All, ◌⊎◌, inl, inr, refl, ◌∙◌, sym, ap, subst,
}
use supervpn.Base.Assoc.{find, find-store_self, find-store_ne}
use supervpn.Base.Related.{same_or_not, some_inj}
use supervpn.Hub.Clients.{IsKeyed}
use supervpn.Hub.Targets.{OfClients}
use supervpn.Server.Members.Forwarding.{MemberOf}
use supervpn.Config.Defaults.{HubConfig, FecConfig}
use supervpn.Hub.Switch.{Hub, new}
use supervpn.Hub.Manager.{Manager, get, add, new_manager}
use supervpn.Proto.Header.{Header, parse_header, frame_data, frame_repair, frame_data_frag}
use supervpn.Link.Packet.{payload_of}
use supervpn.Server.State.{Outside, Server, Effect}
use supervpn.Server.Start.{add_hubs, new_server}
use supervpn.Server.Lifecycle.{new_session_id, remove_session, cleanup_sessions}
use supervpn.Server.Admission.{Admitted, Peer, Draw}
use supervpn.Server.Incoming.{handle_data, handle_frag, handle_repair}
use supervpn.Server.Dispatch.{no_id, dispatch, handle_packet, handle_packet_parsed, second_round}
use supervpn.Server.Bans.{kick_session, ban_ip, unban_ip, ban_login, unban_login}
use supervpn.Server.Members.Invariant.{Agrees}
use supervpn.Server.Members.Packets.{
  Forwards, ToHubOf, Forwards-handle_data, Forwards-handle_frag, Forwards-handle_repair,
}
use supervpn.Server.Members.Handlers.{
  kicked_or, Agrees-handle_packet, Agrees-second_round, Agrees-remove_session,
  Agrees-cleanup_sessions, Agrees-kick_session, Agrees-ban_ip, Agrees-ban_login,
}

-- A packet, the end of a stream, a read of a second connection, the cleanup, and the requests of the
-- administration. A new session's id is not in use.
pub data Step (env : Outside) : Server → Server → Type 0 where
  packet :
      (now : ℕ) (draw : Draw) (pkt : List ℕ) (peer : Peer) (secondary : Bool) (srv : Server)
      → find (new_session_id draw.session) srv.sessions ≡ none
      → Step env srv (handle_packet env now draw pkt peer secondary srv).2
  stream_end : (id : ℕ) (srv : Server) → Step env srv (remove_session id srv).1
  second_read :
      (now : ℕ) (read : Option (List ℕ)) (peer : Peer) (id : ℕ) (srv : Server)
      → Step env srv (second_round env now read peer id srv).2
  cleanup : (now : ℕ) (srv : Server) → Step env srv (cleanup_sessions now srv).1
  kicked : (now id : ℕ) (srv : Server) → Step env srv (kicked_or srv (kick_session now id srv))
  ip_ban : (now : ℕ) (ip : List ℕ) (srv : Server) → Step env srv (ban_ip now ip srv).1
  ip_unban : (ip : List ℕ) (srv : Server) → Step env srv (unban_ip ip srv)
  login_ban :
      (now : ℕ) (login : List ℕ) (hub_id : ℕ) (srv : Server)
      → Step env srv (ban_login now login hub_id srv).1
  login_unban :
      (login : List ℕ) (hub_id : ℕ) (srv : Server) → Step env srv (unban_login login hub_id srv)

pub data Reachable (env : Outside) (start : Server) : Server → Type 0 where
  started : Reachable env start start
  then_step :
      (srv next : Server) → Reachable env start srv → Step env srv next → Reachable env start next

Agrees-Step : (env : Outside) (srv next : Server) → Step env srv next → Agrees srv → Agrees next
unfolding unban_ip unban_login
Agrees-Step env _ _ (packet now draw pkt peer secondary srv fresh) v =
    Agrees-handle_packet env now draw pkt peer secondary srv v fresh
Agrees-Step env _ _ (stream_end id srv) v = Agrees-remove_session id srv v
Agrees-Step env _ _ (second_read now read peer id srv) v =
    Agrees-second_round env now read peer id srv v
Agrees-Step env _ _ (cleanup now srv) v = Agrees-cleanup_sessions now srv v
Agrees-Step env _ _ (kicked now id srv) v = Agrees-kick_session now id srv v
Agrees-Step env _ _ (ip_ban now ip srv) v = Agrees-ban_ip now ip srv v
Agrees-Step env _ _ (ip_unban ip srv) v = v
Agrees-Step env _ _ (login_ban now login hub_id srv) v = Agrees-ban_login now login hub_id srv v
Agrees-Step env _ _ (login_unban login hub_id srv) v = v

abbrev NoClients : Manager → Type 0
NoClients m = (id : ℕ) (h : Hub) → get id m ≡ some h → h.clients ≡ []

add_hubs-NoClients :
    (hubs : List HubConfig) (m : Manager) → NoClients m → NoClients (add_hubs hubs m)
unfolding add_hubs add get new
add_hubs-NoClients [] m v = v
add_hubs-NoClients (c ∷ hubs) m v = add_hubs-NoClients hubs (add (new c.id c.name) m) (λ id h e.
    elim (same_or_not c.id id) [
      | inl same ↦
          ap (λ (x : Hub). x.clients)
            (some_inj h (new c.id c.name) (
              sym e
              ∙ ap (λ k. find k (add (new c.id c.name) m)) (sym same)
              ∙ find-store_self c.id (new c.id c.name) m))
      | inr other ↦ v id h (sym (find-store_ne c.id id (new c.id c.name) m other) ∙ e)
    ])

Agrees-new_server :
    (hubs : List HubConfig) (fec : FecConfig) (ips : List (List ℕ))
    (logins : List (List ℕ × List ℕ))
    → Agrees (new_server hubs fec ips logins)
unfolding new_server get find
Agrees-new_server hubs fec ips logins hub_id h e =
    let empty : h.clients ≡ [] = add_hubs-NoClients hubs new_manager (λ id g f. cc) hub_id h e in
    subst (λ clients. IsKeyed clients × OfClients (MemberOf [] hub_id) clients) (sym empty) (tt, tt)

abbrev pub IsTraffic : ℕ → Type 0
IsTraffic frame_type =
    (frame_type ≡ frame_data) ⊎ ((frame_type ≡ frame_data_frag) ⊎ (frame_type ≡ frame_repair))

abbrev pub Relays : ℕ → Server → Admitted → Type 0
Relays src srv (out, id, next) = All (ToHubOf src srv next) out

module _ (env : Outside) (now : ℕ) (draw : Draw) (hdr : Header) (payload : List ℕ) (peer : Peer)
    (secondary : Bool) (srv : Server) where
  dispatch-handle_data :
      hdr.frame_type ≡ frame_data
      → dispatch env now draw hdr payload peer secondary srv
        ≡ no_id (handle_data env now hdr payload peer.path peer.addr secondary srv)
  unfolding dispatch
  dispatch-handle_data e = rw (dispatch, e) refl

  dispatch-handle_frag :
      hdr.frame_type ≡ frame_data_frag
      → dispatch env now draw hdr payload peer secondary srv
        ≡ no_id (handle_frag env now hdr payload peer.path peer.addr secondary srv)
  unfolding dispatch
  dispatch-handle_frag e = rw (dispatch, e) refl

  dispatch-handle_repair :
      hdr.frame_type ≡ frame_repair
      → dispatch env now draw hdr payload peer secondary srv
        ≡ no_id (handle_repair env now hdr payload peer.path peer.addr secondary srv)
  unfolding dispatch
  dispatch-handle_repair e = rw (dispatch, e) refl

relayed :
    (src : ℕ) (srv : Server) (r : List Effect × Server)
    → Forwards src srv r
    → Relays src srv (no_id r)
relayed src srv (out, next) f = f.0

module _ (env : Outside) (hubs : List HubConfig) (fec : FecConfig) (ips : List (List ℕ))
    (logins : List (List ℕ × List ℕ)) where
  abbrev pub IsReached : Server → Type 0
  IsReached = Reachable env (new_server hubs fec ips logins)

  -- In every state that the server reaches without giving a new session an id that is in use, each client
  -- of a hub stands under its own id and is a session of that hub.
  pub Reachable-Agrees : (srv : Server) → IsReached srv → Agrees srv
  Reachable-Agrees _ started = Agrees-new_server hubs fec ips logins
  Reachable-Agrees _ (then_step srv next reached step) =
      Agrees-Step env srv next step (Reachable-Agrees srv reached)

  -- In every state that the server reaches without giving a new session an id that is in use, the packets
  -- that follow from a data, fragment or repair packet go to the paths of sessions other than the one that
  -- the packet names, and of the same hub.
  pub Reachable-Forwards :
      (srv : Server) (now : ℕ) (draw : Draw) (pkt : List ℕ) (peer : Peer) (secondary : Bool)
      (hdr : Header)
      → IsReached srv
      → parse_header pkt ≡ some hdr
      → IsTraffic hdr.frame_type
      → Relays hdr.session_id srv (handle_packet env now draw pkt peer secondary srv)
  Reachable-Forwards srv now draw pkt peer secondary hdr reached parsed (inl e) =
      let r = handle_data env now hdr (payload_of pkt) peer.path peer.addr secondary srv in
      subst (Relays hdr.session_id srv)
        (sym (
          handle_packet_parsed env now draw pkt peer secondary srv hdr parsed
          ∙ dispatch-handle_data env now draw hdr (payload_of pkt) peer secondary srv e))
        (relayed hdr.session_id srv r (
          Forwards-handle_data env now hdr (payload_of pkt) peer.path peer.addr secondary srv
            (Reachable-Agrees srv reached)))
  Reachable-Forwards srv now draw pkt peer secondary hdr reached parsed (inr (inl e)) =
      let r = handle_frag env now hdr (payload_of pkt) peer.path peer.addr secondary srv in
      subst (Relays hdr.session_id srv)
        (sym (
          handle_packet_parsed env now draw pkt peer secondary srv hdr parsed
          ∙ dispatch-handle_frag env now draw hdr (payload_of pkt) peer secondary srv e))
        (relayed hdr.session_id srv r (
          Forwards-handle_frag env now hdr (payload_of pkt) peer.path peer.addr secondary srv
            (Reachable-Agrees srv reached)))
  Reachable-Forwards srv now draw pkt peer secondary hdr reached parsed (inr (inr e)) =
      let r = handle_repair env now hdr (payload_of pkt) peer.path peer.addr secondary srv in
      subst (Relays hdr.session_id srv)
        (sym (
          handle_packet_parsed env now draw pkt peer secondary srv hdr parsed
          ∙ dispatch-handle_repair env now draw hdr (payload_of pkt) peer secondary srv e))
        (relayed hdr.session_id srv r (
          Forwards-handle_repair env now hdr (payload_of pkt) peer.path peer.addr secondary srv
            (Reachable-Agrees srv reached)))
