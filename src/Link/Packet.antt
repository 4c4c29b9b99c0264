-- ===== src/Link/Packet.antt =====
-- cmd/supervpn-server/main.go and internal/vpnclient/client.go: the header, the encrypted payload behind
-- it, and the receiver's view of both.
use supervpn.Base.{
  true, ◌∙◌, ℕ, ◌+◌, ◌%◌, ◌^◌, ◌≡◌, refl, List, ◌++◌, if◌then◌else◌, length, drop, Option, none,
  some, sym, drop-append_length, Bool-cases, inl, inr,
}
use supervpn.Proto.Header.{
  Header, InRange, header_size, marshal, parse_header, parse_header-marshal,
}
use supervpn.Crypto.Packet.{
  Aead, Cipher, IsCipher, Opened, opened, err_replay, err_decrypt, err_too_short, seal_packet,
  open_packet, open_packet-seal_packet,
}
use supervpn.Crypto.Replay.{ReplayWindow, check}

-- `if err != nil { return }` after Open.
abbrev pub plaintext : Opened → Option (List ℕ)
plaintext (opened frame) = some frame
plaintext (err_too_short n) = none
plaintext err_replay = none
plaintext err_decrypt = none

abbrev pub payload_of : List ℕ → List ℕ
payload_of pkt = drop header_size pkt

module _ (aead : Aead) where
  -- `Header.Marshal` into the first 15 bytes, and the sealed packet behind it.
  unfoldable pub sealed_frame : Header → Cipher → List ℕ → List ℕ × Cipher
  sealed_frame hdr c frame =
      let (encrypted, c') = seal_packet aead c frame in (marshal hdr ++ encrypted, c')

  unfoldable pub unsealed : List ℕ → ReplayWindow → Option (List ℕ) × ReplayWindow
  unsealed payload w = let (result, w') = open_packet aead payload w in (plaintext result, w')

pub length-marshal : (h : Header) → length (marshal h) ≡ 15
unfolding marshal
length-marshal h = refl

pub payload-marshal : (h : Header) (rest : List ℕ) → payload_of (marshal h ++ rest) ≡ rest
payload-marshal h rest = drop-append_length (marshal h) rest 15 (sym (length-marshal h))

-- The header of a packet that was sent is read back, and its payload opens to the frame, if the window
-- takes the counter.
pub sealed_frame-parsed :
    (aead : Aead) (hdr : Header) (c : Cipher) (frame : List ℕ)
    → InRange hdr
    → parse_header (sealed_frame aead hdr c frame).0 ≡ some hdr
unfolding sealed_frame
sealed_frame-parsed aead hdr c frame r = parse_header-marshal hdr (seal_packet aead c frame).0 r

pub unsealed-sealed_frame :
    (aead : Aead) (hdr : Header) (c : Cipher) (frame : List ℕ) (w : ReplayWindow)
    → IsCipher c
    → let (fresh, w') = check w ((c.counter + 1) % 2 ^ 64) in
      unsealed aead (payload_of (sealed_frame aead hdr c frame).0) w
      ≡ ((if fresh then some frame else none), w')
unfolding sealed_frame unsealed
unsealed-sealed_frame aead hdr c frame w v = rw (payload-marshal hdr (seal_packet aead c frame).0) (
    rw (open_packet-seal_packet aead c frame w v)
      (elim (Bool-cases (check w ((c.counter + 1) % 2 ^ 64)).0) [
        | inl fresh ↦ rw fresh refl
        | inr known ↦ rw known refl
      ]))

pub unsealed-sealed_frame_fresh :
    (aead : Aead) (hdr : Header) (c : Cipher) (frame : List ℕ) (w : ReplayWindow)
    → IsCipher c
    → (check w ((c.counter + 1) % 2 ^ 64)).0 ≡ true
    → unsealed aead (payload_of (sealed_frame aead hdr c frame).0) w
      ≡ (some frame, (check w ((c.counter + 1) % 2 ^ 64)).1)
unsealed-sealed_frame_fresh aead hdr c frame w v fresh =
    unsealed-sealed_frame aead hdr c frame w v ∙ rw fresh refl
