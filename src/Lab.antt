-- ===== src/Lab.antt =====
-- A small server and the code around it, for runs of the server, the client and both.
use supervpn.Base.{ℕ, [], ◌∷◌, ◌%◌, length, replicate, true, none, zero, suc, All, IsByte, arith}
use supervpn.Base.Ints.{pos}
use supervpn.Base.Text.{codes, same_bytes, hex_encode}
use supervpn.Config.Defaults.{HubConfig, FecConfig}
use supervpn.Crypto.Plain.{plain}
use supervpn.Fec.StandIn.{stand_in}
use supervpn.Server.State.{Outside, Server, udp}
use supervpn.Server.Start.{new_server}
use supervpn.Server.Admission.{Peer, Draw}
use supervpn.Client.Login.{Account}

abbrev pub lab : Outside
lab = record {
  aead_of = λ key. plain;
  reed_solomon = stand_in;
  keys = record {
    sha256 = λ text. replicate 32 (length text % 256);
    hkdf = λ secret info. replicate 16 9;
  };
  check_password = λ wire stored. same_bytes wire stored;
  format_time = λ t. [];
  writes = λ path w. true;
  version = [];
  assets = [];
  open_asset = λ name. none;
  reply_sent = λ call. true;
}

-- Its password is "sesame".
abbrev pub ann : Account
ann = record { hub_id = 1; login = codes "ann"; password = codes "sesame" }

abbrev pub office : HubConfig
office = record {
  id = 1;
  name = codes "office";
  users = record { login = codes "ann"; password_hash = hex_encode (replicate 32 6) } ∷ [];
}

abbrev pub pairs : FecConfig
pairs = record { k = pos 2; r = pos 1; repair_delay = pos 50 }

abbrev pub ready : Server
ready = new_server (office ∷ []) pairs [] []

abbrev pub caller : Peer
caller = record { path = 40; addr = codes "10.0.0.7:5000"; mode = udp }

abbrev pub drawn : Draw
drawn = record { session = 900; salt = 1 ∷ 2 ∷ 3 ∷ 4 ∷ [] }

replicate-IsByte : (n b : ℕ) → IsByte b → All IsByte (replicate n b)
replicate-IsByte zero b v = tt
replicate-IsByte (suc n) b v = (v, replicate-IsByte n b v)

pub ann-IsByte : All IsByte (lab.keys.sha256 ann.password)
ann-IsByte = replicate-IsByte 32 6 (omega arith)
