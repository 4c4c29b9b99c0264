-- ===== src/Crypto/Packet.antt =====
-- internal/crypto/crypto.go: Cipher.Seal and Cipher.Open. The AEAD of crypto/cipher under the
-- session's key is a parameter; its nonce is 12 bytes and its tag 16.
pub mod Session
pub mod Forgery
use supervpn.Base.{
  ℕ, zero, suc, ◌+◌, ◌-◌, ◌*◌, ◌/◌, ◌%◌, ◌^◌, ◌≤◌, ◌<◌, ◌≡◌, ◌≢◌, refl, ap, ap₂, ◌∙◌, sym, List, [],
  ◌∷◌, ◌++◌, ltb, leb, if◌then◌else◌, length, take, drop, arith, inl, inr, Bool-cases, true, false,
  Bool, Option, none, some, put_u32, put_u64, big_endian, big_endian-put_u64, length-append,
  append_assoc, lt→ltb, le→ltb-false, take-append_length, drop-append_length, get_or, byte,
}
use supervpn.Crypto.Replay.{ReplayWindow, check}

abbrev pub header_size : ℕ
header_size = 4 + 8 + 12

abbrev pub tag_size : ℕ
tag_size = 16

abbrev pub min_pkt_size : ℕ
min_pkt_size = header_size + tag_size

-- What cipher.AEAD documents of Seal and Open, for one key: arguments nonce, text, additional data.
pub record Aead : Type 0 where
  pub seal : List ℕ → List ℕ → List ℕ → List ℕ
  pub unseal : List ℕ → List ℕ → List ℕ → Option (List ℕ)
  pub unseal-seal :
      (nonce text extra : List ℕ) → unseal nonce (seal nonce text extra) extra ≡ some text
  pub length-seal :
      (nonce text extra : List ℕ) → length (seal nonce text extra) ≡ length text + tag_size

pub record Cipher : Type 0 where
  pub counter : ℕ
  pub peer_id : ℕ
  pub salt : List ℕ

pub record IsCipher (c : Cipher) : Type 0 where
  pub counter_lt : c.counter < 2 ^ 64
  pub salt_length : length c.salt ≡ 4

pub data Opened : Type 0 where
  opened : List ℕ → Opened
  err_too_short : ℕ → Opened
  err_replay : Opened
  err_decrypt : Opened

module _ (aead : Aead) where
  abbrev nonce_of : ℕ → List ℕ → List ℕ
  nonce_of cnt salt = put_u64 cnt ++ salt

  -- `buf` before the ciphertext is appended.
  abbrev header_of : ℕ → ℕ → List ℕ → List ℕ
  header_of peer cnt salt = put_u32 peer ++ (put_u64 cnt ++ nonce_of cnt salt)

  unfoldable pub seal_packet : Cipher → List ℕ → List ℕ × Cipher
  seal_packet c plaintext =
      let cnt = (c.counter + 1) % 2 ^ 64 in
      let buf = header_of c.peer_id cnt c.salt in
      (buf ++ aead.seal (nonce_of cnt c.salt) plaintext (take 4 buf), record c { counter = cnt })

  pub decrypt : List ℕ → Opened
  decrypt pkt = elim (aead.unseal (take 12 (drop 12 pkt)) (drop header_size pkt) (take 4 pkt)) [
    | none ↦ err_decrypt
    | some plain ↦ opened plain
  ]

  -- The window is a shared object: `Check` has changed it even when decryption fails afterwards.
  unfoldable pub open_packet : List ℕ → ReplayWindow → Opened × ReplayWindow
  unfolding decrypt
  open_packet pkt replay =
      if ltb (length pkt) min_pkt_size
      then (err_too_short (length pkt), replay)
      else let cnt = big_endian (take 8 (drop 4 pkt)) in
        let (fresh, replay') = check replay cnt in
        if fresh then (decrypt pkt, replay') else (err_replay, replay')

  decrypt_sealed :
      (peer cnt : ℕ) (salt text : List ℕ)
      → length salt ≡ 4
      → let buf = header_of peer cnt salt in
        decrypt (buf ++ aead.seal (nonce_of cnt salt) text (take 4 buf)) ≡ opened text
  unfolding decrypt
  decrypt_sealed peer cnt salt text h = ground (
    arith,
    take-append_length salt (aead.seal (nonce_of cnt salt) text (put_u32 peer)) 4,
    drop-append_length salt (aead.seal (nonce_of cnt salt) text (put_u32 peer)) 4,
    aead.unseal-seal (nonce_of cnt salt) text (put_u32 peer),
  )

  -- The receiver sees a sealed packet exactly when the window accepts the sender's next counter.
  pub open_packet-seal_packet :
      (c : Cipher) (plaintext : List ℕ) (w : ReplayWindow)
      → IsCipher c
      → let (fresh, w') = check w ((c.counter + 1) % 2 ^ 64) in
        open_packet (seal_packet c plaintext).0 w
        ≡ ((if fresh then opened plaintext else err_replay), w')
  unfolding open_packet seal_packet
  open_packet-seal_packet c plaintext w v =
      let cnt = (c.counter + 1) % 2 ^ 64 in
      let sealed = aead.seal (nonce_of cnt c.salt) plaintext (put_u32 c.peer_id) in
      ground (
        arith,
        v.salt_length,
        length-append c.salt sealed,
        aead.length-seal (nonce_of cnt c.salt) plaintext (put_u32 c.peer_id),
        big_endian-put_u64 cnt,
        decrypt_sealed c.peer_id cnt c.salt plaintext,
      )
