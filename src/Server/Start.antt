-- ===== src/Server/Start.antt =====
-- cmd/supervpn-server/main.go: the server that main builds from its configuration and the ban files.
use supervpn.Base.{List, [], ◌∷◌, ℕ}
use supervpn.Config.Defaults.{HubConfig, FecConfig}
use supervpn.Hub.Switch.{new}
use supervpn.Hub.Manager.{Manager, new_manager, add}
use supervpn.Server.State.{Server}

unfoldable pub add_hubs : List HubConfig → Manager → Manager
add_hubs [] m = m
add_hubs (h ∷ hubs) m = add_hubs hubs (add (new h.id h.name) m)

-- The bans are what the two files hold.
unfoldable pub new_server :
    List HubConfig → FecConfig → List (List ℕ) → List (List ℕ × List ℕ) → Server
new_server hubs fec banned_ips banned_logins = record {
  hubs = hubs;
  fec = fec;
  manager = add_hubs hubs new_manager;
  sessions = [];
  kicked = [];
  banned_ips = banned_ips;
  ip_to_logins = [];
  banned_logins = banned_logins;
}
