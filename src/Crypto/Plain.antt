-- ===== src/Crypto/Plain.antt =====
-- A stand-in for AES-GCM with the documented behaviour: a fixed tag stands before the text.
use supervpn.Base.{
  ℕ, zero, suc, ◌==◌, ◌+◌, ◌≡◌, refl, List, [], ◌∷◌, ◌++◌, length, replicate, some, none, Option,
  arith, if◌then◌else◌,
}
use supervpn.Crypto.Packet.{Aead}

unfoldable pub strip_tag : ℕ → List ℕ → Option (List ℕ)
strip_tag zero text = some text
strip_tag (suc n) [] = none
strip_tag (suc n) (x ∷ xs) = let rest = strip_tag n xs in if x == 7 then rest else none

pub unseal_plain : (nonce text extra : List ℕ) → strip_tag 16 (replicate 16 7 ++ text) ≡ some text
unfolding strip_tag
unseal_plain nonce text extra = refl

pub length_plain : (nonce text extra : List ℕ) → length (replicate 16 7 ++ text) ≡ length text + 16
length_plain nonce text extra = omega arith

abbrev pub plain : Aead
plain = record {
  seal = λ nonce text extra. replicate 16 7 ++ text;
  unseal = λ nonce text extra. strip_tag 16 text;
  unseal-seal = unseal_plain;
  length-seal = length_plain;
}
