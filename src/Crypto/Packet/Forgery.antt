-- ===== src/Crypto/Packet/Forgery.antt =====
-- internal/crypto/crypto.go: what Open does with packets that the peer did not send. The counter in
-- bytes 4 to 12 is not covered by the AEAD, and the window is updated before decryption.
use supervpn.Base.{
  ℕ, ◌+◌, ◌^◌, ◌≤◌, ◌<◌, ◌≡◌, refl, ap, ◌∙◌, List, ◌∷◌, ◌++◌, length, take, drop, arith, true,
  false, put_u64, big_endian, big_endian-put_u64, le→ltb-false,
}
use supervpn.Crypto.Replay.{ReplayWindow, check, check_ahead, check_behind}
use supervpn.Crypto.Packet.{
  Aead, opened, err_replay, err_decrypt, decrypt, open_packet, min_pkt_size,
}

-- The packet with the counter field overwritten.
unfoldable pub with_counter : ℕ → List ℕ → List ℕ
with_counter n pkt = take 4 pkt ++ (put_u64 n ++ drop 12 pkt)

module _ (aead : Aead) where
  decrypt-with_counter :
      (n : ℕ) (pkt : List ℕ)
      → min_pkt_size ≤ length pkt
      → (decrypt aead (with_counter n pkt) ≡ decrypt aead pkt)
        × (length (with_counter n pkt) ≡ length pkt)
        × (big_endian (take 8 (drop 4 (with_counter n pkt))) ≡ big_endian (put_u64 n))
  unfolding decrypt with_counter
  decrypt-with_counter n (b0 ∷ b1 ∷ b2 ∷ b3 ∷ b4 ∷ b5 ∷ b6 ∷ b7 ∷ b8 ∷ b9 ∷ b10 ∷ b11 ∷ rest) h =
      (refl, refl, refl)
  decrypt-with_counter n pkt h = absurd (omega arith)

  opened_inv :
      (pkt plain : List ℕ) (w : ReplayWindow)
      → (open_packet aead pkt w).0 ≡ opened plain
      → (min_pkt_size ≤ length pkt) × (decrypt aead pkt ≡ opened plain)
  unfolding open_packet
  opened_inv pkt plain w e = (ground arith, ground arith)

  checked :
      (pkt : List ℕ) (n : ℕ) (w : ReplayWindow)
      → min_pkt_size ≤ length pkt
      → big_endian (take 8 (drop 4 pkt)) ≡ n
      → (check w n).0 ≡ true
      → open_packet aead pkt w ≡ (decrypt aead pkt, (check w n).1)
  unfolding open_packet
  checked pkt n w h e acc = rw (le→ltb-false (length pkt) min_pkt_size h, e, acc)

  refused :
      (pkt : List ℕ) (c : ℕ) (w : ReplayWindow)
      → min_pkt_size ≤ length pkt
      → big_endian (take 8 (drop 4 pkt)) ≡ c
      → (check w c).0 ≡ false
      → (open_packet aead pkt w).0 ≡ err_replay
  unfolding open_packet
  refused pkt c w h e rej = rw (le→ltb-false (length pkt) min_pkt_size h, e, rej)

  -- A recorded packet is opened again when its counter field is replaced by one that the window
  -- accepts.
  pub open_packet-with_counter :
      (pkt plain : List ℕ) (n : ℕ) (w w' : ReplayWindow)
      → (open_packet aead pkt w).0 ≡ opened plain
      → n < 2 ^ 64
      → (check w' n).0 ≡ true
      → (open_packet aead (with_counter n pkt) w').0 ≡ opened plain
  open_packet-with_counter pkt plain n w w' e lt acc =
      let (long, same) = opened_inv pkt plain w e in
      let (dec, len, cnt) = decrypt-with_counter n pkt long in
      ap (λ r. r.0)
        (checked (with_counter n pkt) n w' (omega arith) (cnt ∙ big_endian-put_u64 n lt) acc)
      ∙ dec
      ∙ same

  -- A forged packet with a high counter moves the window although its tag is wrong: what the peer
  -- sends next under a counter that is 512 or more behind is refused.
  pub open_packet-forged :
      (forged pkt : List ℕ) (n c : ℕ) (w : ReplayWindow)
      → min_pkt_size ≤ length forged
      → min_pkt_size ≤ length pkt
      → big_endian (take 8 (drop 4 forged)) ≡ n
      → big_endian (take 8 (drop 4 pkt)) ≡ c
      → decrypt aead forged ≡ err_decrypt
      → w.max_seen < n
      → c + 512 ≤ n
      → let (r, w') = open_packet aead forged w in
        (r ≡ err_decrypt) × ((open_packet aead pkt w').0 ≡ err_replay)
  open_packet-forged forged pkt n c w hf hp ef ec bad ahead old =
      let (acc, top) = check_ahead w n ahead in
      rw (checked forged n w hf ef acc)
        (bad, refused pkt c (check w n).1 hp ec (check_behind (check w n).1 c (omega arith)))
