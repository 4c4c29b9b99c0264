-- ===== src/Config/Tests.antt =====
-- Runs of the configuration, and a theorem at a concrete input.
use supervpn.Base.{◌≡◌, refl, [], ◌∷◌, some, true, false}
use supervpn.Base.Ints.{pos, negsuc}
use supervpn.Base.Net.{split_host_port, join_host_port, cut_last, has_byte}
use supervpn.Base.Text.{codes, same_bytes}
use supervpn.Config.Ports.{
  ClientAddrs, remap_port, migrate_client_config, migrate_client_config-twice,
}
use supervpn.Config.Defaults.{
  fec_with_defaults, repair_delay_duration, validate_client, login_required, validate_server,
  validate_hubs, hub_without_name,
}

delay_run :
    repair_delay_duration
      (fec_with_defaults (record { k = pos 1; r = negsuc 0; repair_delay = pos 0 }))
    ≡ pos 50_000_000
unfolding repair_delay_duration fec_with_defaults
delay_run = refl

login_run : validate_client (1 ∷ []) (2 ∷ []) [] ≡ some login_required
unfolding validate_client
login_run = refl

hub_run :
    validate_server (1 ∷ []) (record { id = 3; name = []; users = [] } ∷ [])
    ≡ some (hub_without_name 3)
unfolding validate_server validate_hubs
hub_run = refl

-- Both addresses still have the ports of an old configuration.
abbrev old_addrs : ClientAddrs
old_addrs = record { server_tcp = codes "vpn.example:443"; reality_addr = codes "vpn.example:8443" }

migrate_client_config_run : migrate_client_config old_addrs ≡ (
  record { server_tcp = codes "vpn.example:8443"; reality_addr = codes "vpn.example:443" },
  true,
)
unfolding migrate_client_config remap_port split_host_port join_host_port cut_last has_byte
    same_bytes
migrate_client_config_run = refl

migrate_client_config-twice_example :
    migrate_client_config (migrate_client_config old_addrs).0
    ≡ ((migrate_client_config old_addrs).0, false)
migrate_client_config-twice_example = migrate_client_config-twice old_addrs
