-- ===== src/Client/Tests.antt =====
-- Theorems of the client at concrete inputs.
use supervpn.Base.{ℕ, ◌-◌, ◌≤◌, ◌≡◌, refl, List, [], ◌∷◌, Bool, false, true, drop, length, none}
use supervpn.Base.Text.{codes}
use supervpn.Crypto.Plain.{plain}
use supervpn.Crypto.Replay.{initial}
use supervpn.Fec.Decoder.{empty_decoder}
use supervpn.Fec.Pipe.{Pipe}
use supervpn.Fec.StandIn.{stand_in}
use supervpn.Client.Address.{wire_hash_hex, wire_hash}
use supervpn.Client.Address.Hex.{wire_hash_hex-wire_hash}
use supervpn.Client.Connect.{Attempt, try_udp, try_reality, try_tls}
use supervpn.Client.Log.{logf_all, empty_log, max_log_lines}
use supervpn.Client.Log.Kept.{logf_all-last_lines}
use supervpn.Client.Login.{hello_packet}
use supervpn.Client.State.{Loop, Receiver}
use supervpn.Client.Outgoing.{ping_packet}
use supervpn.Client.Incoming.{recv_loop}
use supervpn.Client.Incoming.Frames.{Adds, recv_loop-Adds}
use supervpn.Lab.{lab, ann, ann-IsByte}

abbrev messages : List (List ℕ)
messages = codes "connected" ∷ codes "session lost" ∷ []

logf_all-last_lines_example :
    ((logf_all messages empty_log).log_lines ≡ drop (length messages - max_log_lines) messages)
    × (length (logf_all messages empty_log).log_lines ≤ max_log_lines)
logf_all-last_lines_example = logf_all-last_lines messages

wire_hash_hex-wire_hash_example :
    wire_hash_hex lab.keys (codes "sesame") ≡ wire_hash lab.keys (codes "sesame")
wire_hash_hex-wire_hash_example = wire_hash_hex-wire_hash lab.keys (codes "sesame") ann-IsByte refl

-- Only TLS gets through.
abbrev only_tls : Attempt → Bool
only_tls (try_udp n) = false
only_tls try_reality = false
only_tls (try_tls addr) = true

abbrev idle : Pipe
idle = record {
  enc = record { k = 2; r = 1; buf = []; block_id = 0 };
  dec = empty_decoder;
  repair_delay = 0;
  sends_repair = true;
  pkt_idx = 0;
  repair_ch = none;
}

abbrev receiver : Receiver
receiver = record {
  pipe = idle;
  reasm = [];
  last_pong = 0;
  stats = record {
    data_recv = 0;
    repair_recv = 0;
    recovered = 0;
    unrecoverable = 0;
    bytes_tx = 0;
    bytes_rx = 0;
  };
  out = [];
}

abbrev listening : Loop
listening = record { replay = initial; mismatch_logged = false }

abbrev arrivals : List (ℕ × List ℕ)
arrivals = (5, ping_packet 900 1) ∷ (6, hello_packet lab.keys ann) ∷ []

recv_loop-Adds_example : Adds [] (recv_loop plain stand_in 900 arrivals listening receiver).2.out
recv_loop-Adds_example = recv_loop-Adds plain stand_in 900 arrivals listening receiver
