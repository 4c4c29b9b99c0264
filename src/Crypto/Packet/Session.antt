-- ===== src/Crypto/Packet/Session.antt =====
-- internal/crypto/crypto.go: a whole session, from Seal on one side to Open on the other.
use supervpn.Base.{
  ℕ, ◌+◌, ◌%◌, ◌^◌, ◌≤◌, ◌<◌, ◌≡◌, refl, ap, ap₂, ◌∙◌, List, [], ◌∷◌, length, arith,
}
use mathlib.Core.List.{map}
use supervpn.Crypto.Replay.{ReplayWindow, check, check_ahead}
use supervpn.Crypto.Packet.{
  Aead, Cipher, Opened, opened, seal_packet, open_packet, open_packet-seal_packet,
}

module _ (aead : Aead) where
  unfoldable pub send_all : Cipher → List (List ℕ) → List (List ℕ)
  send_all c [] = []
  send_all c (p ∷ ps) = let (pkt, c') = seal_packet aead c p in pkt ∷ send_all c' ps

  unfoldable pub receive_all : ReplayWindow → List (List ℕ) → List Opened
  receive_all w [] = []
  receive_all w (pkt ∷ pkts) = let (r, w') = open_packet aead pkt w in r ∷ receive_all w' pkts

  -- Packets that arrive in order are all opened, in order, until the 64-bit counter is used up.
  pub receive_all-send_all :
      (c : Cipher) (w : ReplayWindow) (ps : List (List ℕ))
      → length c.salt ≡ 4
      → w.max_seen ≤ c.counter
      → c.counter + length ps < 2 ^ 64
      → receive_all w (send_all c ps) ≡ map opened ps
  unfolding receive_all send_all
  receive_all-send_all c w [] hs hw hc = refl
  receive_all-send_all c w (p ∷ ps) hs hw hc =
      let n : (c.counter + 1) % 2 ^ 64 ≡ c.counter + 1 = omega arith in
      let (acc, top) = check_ahead w (c.counter + 1) (omega arith) in
      let sealed =
        open_packet-seal_packet aead c p w
          (record { counter_lt = omega arith; salt_length = hs }) in
      let first = rw (n, acc) at sealed in
      let later =
        receive_all-send_all (seal_packet aead c p).1 (check w (c.counter + 1)).1 ps
          (unfold seal_packet in hs) (unfold seal_packet in omega arith)
          (unfold seal_packet in omega arith) in
      ap₂ ◌∷◌ (ap (λ r. r.0) first)
        (ap (λ r. receive_all r.1 (send_all (seal_packet aead c p).1 ps)) first ∙ later)
