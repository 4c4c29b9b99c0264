-- ===== src/Server/Admission/Known.antt =====
-- cmd/supervpn-server/main.go: where the password hash that handleAuth compares comes from.
use supervpn.Base.{
  ℕ, ◌≡◌, refl, ◌==◌, List, [], ◌∷◌, is_empty, if◌then◌else◌, true, false, ◌⊎◌, inl, inr,
  Bool-cases, sym, ◌∙◌, arith, ap,
}
use supervpn.Base.Text.{same_bytes, same_bytes→≡}
use supervpn.Config.Defaults.{UserConfig, HubConfig}
use supervpn.Server.Admission.{user_hash, stored_hash}

-- One of the users has this login and this hash.
abbrev pub HasUser : List ℕ → List ℕ → List UserConfig → Type 0
HasUser login hash [] = ⊥
HasUser login hash (u ∷ users) =
    ((u.login ≡ login) × (u.password_hash ≡ hash)) ⊎ HasUser login hash users

-- One of the hubs has this id and such a user.
abbrev pub IsConfigured : List ℕ → ℕ → List ℕ → List HubConfig → Type 0
IsConfigured login hub_id hash [] = ⊥
IsConfigured login hub_id hash (h ∷ hubs) =
    ((h.id ≡ hub_id) × HasUser login hash h.users) ⊎ IsConfigured login hub_id hash hubs

user_hash-cases :
    (login : List ℕ) (users : List UserConfig) (stored hash : List ℕ)
    → hash ≡ user_hash login users stored
    → (hash ≡ stored) ⊎ HasUser login hash users
unfolding user_hash
user_hash-cases login [] stored hash e = inl e
user_hash-cases login (u ∷ users) stored hash e =
    let next = if same_bytes u.login login then u.password_hash else stored in
    elim (user_hash-cases login users next hash e) [
      | inr has ↦ inr (inr has)
      | inl kept ↦ elim (Bool-cases (same_bytes u.login login)) [
        | inl same ↦ inr (inl (same_bytes→≡ u.login login same, sym (rw same at kept)))
        | inr other ↦ inl (rw other at kept)
      ]
    ]

stored_hash-cases :
    (login : List ℕ) (hub_id : ℕ) (hubs : List HubConfig) (stored hash : List ℕ)
    → hash ≡ stored_hash login hub_id hubs stored
    → (hash ≡ stored) ⊎ IsConfigured login hub_id hash hubs
unfolding stored_hash
stored_hash-cases login hub_id [] stored hash e = inl e
stored_hash-cases login hub_id (h ∷ hubs) stored hash e =
    let next = if h.id == hub_id then user_hash login h.users stored else stored in
    elim (stored_hash-cases login hub_id hubs next hash e) [
      | inr has ↦ inr (inr has)
      | inl kept ↦ elim (Bool-cases (h.id == hub_id)) [
        | inr other ↦ inl (rw other at kept)
        | inl same ↦ elim (user_hash-cases login h.users stored hash (rw same at kept)) [
          | inl old ↦ inl old
          | inr has ↦ inr (inl (ground arith, has))
        ]
      ]
    ]

-- A hash that is not empty is that of a configured user of the hub.
pub stored_hash-IsConfigured :
    (login : List ℕ) (hub_id : ℕ) (hubs : List HubConfig)
    → is_empty (stored_hash login hub_id hubs []) ≡ false
    → IsConfigured login hub_id (stored_hash login hub_id hubs []) hubs
stored_hash-IsConfigured login hub_id hubs known =
    elim (stored_hash-cases login hub_id hubs [] _ refl) [
      | inr has ↦ has
      | inl none_found ↦ absurd (true_ne_false (sym (ap is_empty none_found) ∙ known))
    ]
  where
    true_ne_false : true ≡ false → ⊥
    true_ne_false e = cc
