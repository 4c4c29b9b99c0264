-- ===== src/Config/Defaults.antt =====
-- internal/config/config.go: WithDefaults and Validate.
use supervpn.Base.{
  ℕ, zero, suc, ◌*◌, ◌+◌, List, [], ◌∷◌, ◌==◌, ◌||◌, if◌then◌else◌, length, Option, none, some,
}
use supervpn.Base.Ints.{ℤ, pos, negsuc}

-- `x == 0` and the default for it.
abbrev pub or_default : ℤ → ℕ → ℤ
or_default (pos zero) d = pos d
or_default (pos (suc n)) d = pos (suc n)
or_default (negsuc n) d = negsuc n

abbrev pub or_text : List ℕ → List ℕ → List ℕ
or_text [] d = d
or_text (c ∷ cs) d = c ∷ cs

pub record FecConfig : Type 0 where
  pub k : ℤ
  pub r : ℤ
  pub repair_delay : ℤ

unfoldable pub fec_with_defaults : FecConfig → FecConfig
fec_with_defaults f = record {
  k = or_default f.k 4;
  r = or_default f.r 2;
  repair_delay = or_default f.repair_delay 50;
}

-- In nanoseconds.
unfoldable pub repair_delay_duration : FecConfig → ℤ
repair_delay_duration f = elim f.repair_delay [ pos n ↦ pos (n * 1_000_000) | negsuc n ↦ scaled n ]
  where
    -- minus (n + 1) times a million
    scaled : ℕ → ℤ
    scaled n = negsuc (n * 1_000_000 + 999_999)

pub record UdpConfig : Type 0 where
  pub knock_count : ℤ
  pub knock_size : ℤ
  pub attempts : ℤ

unfoldable pub udp_with_defaults : UdpConfig → UdpConfig
udp_with_defaults u = record {
  knock_count = or_default u.knock_count 3;
  knock_size = or_default u.knock_size 16;
  attempts = or_default u.attempts 3;
}

pub record UserConfig : Type 0 where
  pub login : List ℕ
  pub password_hash : List ℕ

pub record HubConfig : Type 0 where
  pub id : ℕ
  pub name : List ℕ
  pub users : List UserConfig

pub data ConfigError : Type 0 where
  listen_required server_required login_required : ConfigError
  hub_without_name : ℕ → ConfigError

unfoldable pub validate_hubs : List HubConfig → Option ConfigError
validate_hubs [] = none
validate_hubs (h ∷ hubs) =
    let rest = validate_hubs hubs in
    if length h.name == 0 then some (hub_without_name h.id) else rest

-- `none` is nil. The fields that Validate reads are its arguments.
unfoldable pub validate_server : List ℕ → List HubConfig → Option ConfigError
validate_server listen hubs =
    if length listen == 0 then some listen_required else validate_hubs hubs

unfoldable pub validate_client : List ℕ → List ℕ → List ℕ → Option ConfigError
validate_client server login password =
    if length server == 0
    then some server_required
    else if length login == 0 || length password == 0
    then some login_required
    else none
