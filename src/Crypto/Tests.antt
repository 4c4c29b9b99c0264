-- ===== src/Crypto/Tests.antt =====
-- Runs of the window and the cipher, and their theorems at concrete inputs.
use supervpn.Base.{ℕ, ◌≡◌, refl, List, [], ◌∷◌, ◌++◌, replicate, arith, true, false}
use supervpn.Crypto.Plain.{plain, strip_tag}
use supervpn.Crypto.Replay.{initial, check}
use supervpn.Crypto.Replay.Refine.{answers, expected, answers-expected}
use supervpn.Crypto.Replay.History.{after, check-no_replay, check-accepts}
use supervpn.Crypto.Packet.{
  Cipher, opened, err_decrypt, seal_packet, open_packet, open_packet-seal_packet,
}
use supervpn.Crypto.Packet.Session.{send_all, receive_all, receive_all-send_all}
use supervpn.Crypto.Packet.Forgery.{with_counter, open_packet-with_counter, open_packet-forged}

answers_run :
    answers initial (5 ∷ 3 ∷ 5 ∷ 600 ∷ 88 ∷ 89 ∷ 0 ∷ [])
    ≡ true ∷ true ∷ false ∷ true ∷ false ∷ true ∷ false ∷ []
unfolding answers initial check
answers_run = refl

answers-expected_example : answers initial (5 ∷ 3 ∷ 5 ∷ []) ≡ expected [] (5 ∷ 3 ∷ 5 ∷ [])
answers-expected_example = answers-expected (5 ∷ 3 ∷ 5 ∷ [])

check-no_replay_example : (check (after (check (after initial (5 ∷ [])) 3).1 (9 ∷ [])) 3).0 ≡ false
unfolding initial after check
check-no_replay_example = check-no_replay (5 ∷ []) (9 ∷ []) 3 refl

check-accepts_example : (check (after initial (5 ∷ [])) 3).0 ≡ true
check-accepts_example = check-accepts (5 ∷ []) 3 (omega arith) refl (omega arith)

abbrev sender : Cipher
sender = record { counter = 0; peer_id = 77; salt = 1 ∷ 2 ∷ 3 ∷ 4 ∷ [] }

abbrev sealed : List ℕ
sealed =
    0
    ∷ 0
    ∷ 0
    ∷ 77
    ∷ 0
    ∷ 0
    ∷ 0
    ∷ 0
    ∷ 0
    ∷ 0
    ∷ 0
    ∷ 1
    ∷ 0
    ∷ 0
    ∷ 0
    ∷ 0
    ∷ 0
    ∷ 0
    ∷ 0
    ∷ 1
    ∷ 1
    ∷ 2
    ∷ 3
    ∷ 4
    ∷ (replicate 16 7 ++ (42 ∷ []))

sealed_run : (seal_packet plain sender (42 ∷ [])).0 ≡ sealed
unfolding seal_packet
sealed_run = refl

abbrev forged : List ℕ
forged = 0 ∷ 0 ∷ 0 ∷ 77 ∷ 0 ∷ 0 ∷ 0 ∷ 0 ∷ 0 ∷ 0 ∷ 3 ∷ 0 ∷ replicate 28 0

open_packet-seal_packet_example :
    open_packet plain (seal_packet plain sender (42 ∷ [])).0 initial
    ≡ (opened (42 ∷ []), (check initial 1).1)
unfolding initial check
open_packet-seal_packet_example =
    open_packet-seal_packet plain sender (42 ∷ []) initial (omega arith)

receive_all-send_all_example :
    receive_all plain initial (send_all plain sender ((42 ∷ []) ∷ [] ∷ []))
    ≡ opened (42 ∷ []) ∷ opened [] ∷ []
unfolding initial
receive_all-send_all_example =
    receive_all-send_all plain sender initial ((42 ∷ []) ∷ [] ∷ []) refl (omega arith) (omega arith)

open_packet-with_counter_example :
    (open_packet plain (with_counter 9 sealed) (check initial 1).1).0 ≡ opened (42 ∷ [])
unfolding initial check open_packet strip_tag
open_packet-with_counter_example =
    open_packet-with_counter plain sealed (42 ∷ []) 9 initial (check initial 1).1 refl (omega arith)
      refl

open_packet-forged_example : (open_packet plain forged initial).0 ≡ err_decrypt
unfolding initial open_packet strip_tag
open_packet-forged_example =
    (open_packet-forged plain forged sealed 768 1 initial (omega arith) (omega arith) refl refl refl
      (omega arith) (omega arith)).0
