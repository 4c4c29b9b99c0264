-- ===== src/EndToEnd/Tests.antt =====
-- Theorems on both ends at concrete inputs.
use supervpn.Base.{
  ℕ, ◌≡◌, ◌%◌, ◌^◌, ◌+◌, refl, List, [], ◌∷◌, false, true, some, ok, arith, replicate,
}
use supervpn.Base.Assoc.{find, store}
use supervpn.Base.Net.{split_host_port, cut_last, has_byte}
use supervpn.Base.Text.{codes, same_bytes, has_text, find_text, hex_encode, hex_digit}
use supervpn.Config.Defaults.{fec_with_defaults}
use supervpn.Crypto.Packet.{Cipher, IsCipher}
use supervpn.Crypto.Keys.{derive_key}
use supervpn.Crypto.Plain.{plain}
use supervpn.Crypto.Replay.{initial, check}
use supervpn.Fec.Encoder.{new_encoder}
use supervpn.Fec.Decoder.{new_decoder, empty_decoder}
use supervpn.Fec.Pipe.{Pipe, new_pipe}
use supervpn.Fec.StandIn.{stand_in}
use supervpn.Hub.Switch.{Hub, new}
use supervpn.Hub.Manager.{get, add}
use supervpn.Server.State.{Session, Server, sends}
use supervpn.Server.Start.{new_server, add_hubs}
use supervpn.Server.Lifecycle.{new_session_id}
use supervpn.Server.Admission.{is_banned, stored_hash, user_hash, kick_until, login_banned}
use supervpn.Server.Dispatch.{no_id, handle_packet}
use supervpn.Server.Outgoing.{on_both, send_fec_data}
use supervpn.Client.Login.{hello_packet, on_reply}
use supervpn.Client.State.{Sender, Loop, Receiver}
use supervpn.Client.Outgoing.{send_on_both, send_data, ping_packet}
use supervpn.Client.Incoming.{recv_step}
use supervpn.EndToEnd.Entry.{IsAccount, Welcomes, session_of}
use supervpn.EndToEnd.Handshake.{result_of, on_reply-handle_packet}
use supervpn.EndToEnd.Upstream.{IsData, decoded, handle_packet-send_data}
use supervpn.EndToEnd.Downstream.{taken, recv_step-send_fec_data}
use supervpn.EndToEnd.Keepalive.{noted, understood, recv_step-handle_packet}
use supervpn.Lab.{lab, ann, ann-IsByte, ready, caller, drawn}

abbrev paired : Pipe
paired = record {
  enc = record { k = 2; r = 1; buf = []; block_id = 0 };
  dec = empty_decoder;
  repair_delay = 50_000_000;
  sends_repair = true;
  pkt_idx = 0;
  repair_ch = some [];
}

abbrev key : List ℕ
key = replicate 16 9

abbrev office_hub : Hub
office_hub = new 1 (codes "office")

ann-IsAccount : IsAccount lab.keys ann
ann-IsAccount = record {
  hub_lt = omega arith;
  login_short = omega arith;
  digest_length = refl;
  digest_bytes = ann-IsByte;
}

ann-Welcomes : Welcomes lab 1_000 drawn caller ready ann office_hub key paired
unfolding is_banned split_host_port cut_last has_byte has_text get add_hubs add new_server
    stored_hash user_hash same_bytes kick_until find_text login_banned derive_key new_pipe
    new_encoder new_decoder fec_with_defaults find store new hex_encode hex_digit
ann-Welcomes = record {
  address_allowed = refl;
  hub_found = refl;
  known = refl;
  password_right = refl;
  not_kicked = refl;
  login_allowed = refl;
  derived = refl;
  key_long = refl;
  piped = refl;
}

on_reply-handle_packet_example :
    let r = handle_packet lab 1_000 drawn (hello_packet lab.keys ann) caller false ready in
    let sess = session_of lab 1_000 drawn caller ready ann key paired in
    (reply : List ℕ) × (r.0 ≡ sends 40 reply ∷ [])
    × (find r.1 r.2.sessions ≡ some sess)
    × (on_reply lab.keys ann (7 ∷ 7 ∷ 7 ∷ 7 ∷ []) reply
        ≡ some (
            ok (
              result_of r.1
                (fec_with_defaults ready.fec)
                sess.frag_enabled
                sess.key
                (7 ∷ 7 ∷ 7 ∷ 7 ∷ []))))
on_reply-handle_packet_example =
    on_reply-handle_packet lab 1_000 drawn caller ready ann office_hub key (7 ∷ 7 ∷ 7 ∷ 7 ∷ [])
      paired ann-IsAccount ann-Welcomes (omega arith)

-- The server after ann has logged in, and what her client keeps.
abbrev session : Session
session = session_of lab 1_000 drawn caller ready ann key paired

abbrev serving : Server
serving = record ready { sessions = (900, session) ∷ [] }

abbrev client_cipher : Cipher
client_cipher = record { counter = 0; peer_id = 900; salt = 7 ∷ 7 ∷ 7 ∷ 7 ∷ [] }

abbrev sender : Sender
sender = record {
  session_id = 900;
  hub_id = 1;
  cipher = client_cipher;
  pipe = paired;
  second = false;
  frag_enabled = true;
  frag_id = 0;
  bytes_tx = 0;
}

abbrev listening : Loop
listening = record { replay = initial; mismatch_logged = false }

abbrev receiver : Receiver
receiver = record {
  pipe = paired;
  reasm = [];
  last_pong = 0;
  stats = record {
    data_recv = 0;
    repair_recv = 0;
    recovered = 0;
    unrecoverable = 0;
    bytes_tx = 0;
    bytes_rx = 0;
  };
  out = [];
}

ids_fit : IsData 1 900 0 0
ids_fit = record {
  hub_lt = omega arith;
  session_lt = omega arith;
  block_lt = omega arith;
  idx_lt = omega arith;
}

client_cipher-IsCipher : IsCipher client_cipher
client_cipher-IsCipher = record { counter_lt = omega arith; salt_length = refl }

server_cipher-IsCipher : IsCipher session.cipher
server_cipher-IsCipher = record { counter_lt = omega arith; salt_length = refl }

first_is_fresh : (check initial ((0 + 1) % 2 ^ 64)).0 ≡ true
unfolding initial check
first_is_fresh = refl

session_found : find 900 serving.sessions ≡ some session
unfolding find
session_found = refl

abbrev hello_frame : List ℕ
hello_frame = codes "an Ethernet frame"

handle_packet-send_data_example :
    (pkt : List ℕ) × ((send_data plain stand_in (λ w. true) 0 0 hello_frame sender).0
      ≡ send_on_both false pkt)
    × (handle_packet lab 2_000 drawn pkt caller false serving
        ≡ no_id (
            decoded lab 2_000 caller false serving session
              (check session.replay ((0 + 1) % 2 ^ 64)).1
              0
              0
              hello_frame))
unfolding new_session_id
handle_packet-send_data_example =
    handle_packet-send_data lab 2_000 caller false serving drawn (λ w. true) sender session 0 0
      hello_frame client_cipher-IsCipher ids_fit refl session_found first_is_fresh

recv_step-send_fec_data_example :
    (pkt : List ℕ) × ((send_fec_data lab 0 0 hello_frame session).0 ≡ on_both session pkt)
    × (recv_step plain stand_in 3_000 session.id pkt listening receiver
        ≡ taken plain stand_in 3_000 listening receiver
            (check initial ((0 + 1) % 2 ^ 64)).1
            0
            0
            hello_frame)
unfolding new_session_id
recv_step-send_fec_data_example =
    recv_step-send_fec_data lab 3_000 session stand_in listening receiver 0 0 hello_frame
      server_cipher-IsCipher ids_fit first_is_fresh

recv_step-handle_packet_example :
    let known = find 900 serving.sessions in
    (reply : List ℕ) × (handle_packet lab 4_000 drawn (ping_packet 900 1) caller false serving
      ≡ (sends 40 reply ∷ [], 0, noted 4_000 900 known serving))
    × (recv_step plain stand_in 5_000 900 reply listening receiver
        ≡ understood 5_000 known listening receiver)
recv_step-handle_packet_example =
    recv_step-handle_packet lab 4_000 5_000 900 1 drawn caller false serving plain stand_in
      listening receiver (omega arith) (omega arith)
