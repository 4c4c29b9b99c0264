-- ===== src/Crypto/Keys.antt =====
-- internal/crypto/crypto.go: DeriveKey, with SHA-256 and HKDF as parameters.
use supervpn.Base.{
  ℕ, ◌≡◌, refl, List, [], ◌∷◌, ◌++◌, is_empty, if◌then◌else◌, Option, none, some, inl, inr,
  Bool-cases,
}
use supervpn.Base.Text.{is_after, is_after_one_way, is_after_neither}

-- "myvpn-tunnel:"
abbrev pub tunnel_label : List ℕ
tunnel_label =
    b'm' ∷ b'y' ∷ b'v' ∷ b'p' ∷ b'n' ∷ b'-' ∷ b't' ∷ b'u' ∷ b'n' ∷ b'n' ∷ b'e' ∷ b'l' ∷ b':' ∷ []

-- What the key is bound to: the network and the two names in order.
unfoldable pub info_of : List ℕ → List ℕ → List ℕ → List ℕ
info_of network a b = tunnel_label ++ (network ++ (b':' ∷ (a ++ (b':' ∷ b))))

-- `sha256.Sum256`, and the first 16 bytes that HKDF-SHA-256 expands from a secret and an info.
pub record KeySource : Type 0 where
  pub sha256 : List ℕ → List ℕ
  pub hkdf : List ℕ → List ℕ → List ℕ

module _ (source : KeySource) where
  -- `none` is an error. Reading 16 bytes from HKDF does not fail.
  unfoldable pub derive_key : List ℕ → List ℕ → List ℕ → List ℕ → Option (List ℕ)
  derive_key token network name_a name_b =
      let info =
        if is_after name_a name_b
        then info_of network name_b name_a
        else info_of network name_a name_b in
      if is_empty token then none else some (source.hkdf (source.sha256 token) info)

  -- Both ends derive the same key, whichever of the two names each of them puts first.
  pub derive_key-swap :
      (token network name_a name_b : List ℕ)
      → derive_key token network name_a name_b ≡ derive_key token network name_b name_a
  unfolding derive_key
  derive_key-swap token network name_a name_b = elim (Bool-cases (is_after name_a name_b)) [
    | inl after ↦ rw (after, is_after_one_way name_a name_b after) refl
    | inr not_after ↦ elim (Bool-cases (is_after name_b name_a)) [
      | inl after ↦ rw (not_after, after) refl
      | inr neither ↦ rw (is_after_neither name_a name_b not_after neither) refl
    ]
  ]
