-- ===== src/Config/Ports.antt =====
-- internal/config/config.go: samePort, remapPort and MigrateClientConfig.
use supervpn.Base.{
  ℕ, ◌≡◌, refl, List, [], ◌∷◌, ◌++◌, ◌||◌, not, is_empty, if◌then◌else◌, Option, none, some, Bool,
  true, false, Option-cases, Bool-cases, inl, inr, if_both, ◌==◌, get_or, drop, ◌⊎◌,
}
use supervpn.Base.Net.{
  cut_first, cut_last, has_byte, split_bracketed, split_host_port, join_host_port,
}
use supervpn.Base.Text.{codes, same_bytes}

unfoldable pub same_port : List ℕ → List ℕ → Bool
same_port a b = elim (split_host_port a) [
  | none ↦ false
  | some (host_a, port_a) ↦ (elim (split_host_port b) [
    | none ↦ false
    | some (host_b, port_b) ↦ same_bytes port_a port_b
  ])
]

-- `none` is an address that is left as it is.
unfoldable pub remap_port : List ℕ → List ℕ → List ℕ → Option (List ℕ)
remap_port addr old_port new_port = if is_empty addr then none else (elim (split_host_port addr) [
  | none ↦ none
  | some (host, port) ↦
      if not (same_bytes port old_port) then none else some (join_host_port host new_port)
])

-- The two addresses of a client's configuration that are migrated.
pub record ClientAddrs : Type 0 where
  pub server_tcp : List ℕ
  pub reality_addr : List ℕ

abbrev pub or_kept : List ℕ → Option (List ℕ) → List ℕ
or_kept addr none = addr
or_kept addr (some new_addr) = new_addr

abbrev pub has_changed : Option (List ℕ) → Bool
has_changed none = false
has_changed (some new_addr) = true

abbrev pub tls_port : List ℕ
tls_port = codes "8443"

abbrev pub https_port : List ℕ
https_port = codes "443"

-- The configuration, and whether anything changed.
unfoldable pub migrate_client_config : ClientAddrs → ClientAddrs × Bool
migrate_client_config cfg =
    let tcp = remap_port cfg.server_tcp https_port tls_port in
    let reality = remap_port cfg.reality_addr tls_port https_port in
    (
      record {
        server_tcp = or_kept cfg.server_tcp tcp;
        reality_addr = or_kept cfg.reality_addr reality;
      },
      has_changed tcp || has_changed reality,
    )

cut_last-append :
    (c : ℕ) (host rest front port : List ℕ)
    → cut_last c rest ≡ some (front, port)
    → cut_last c (host ++ rest) ≡ some (host ++ front, port)
unfolding cut_last
cut_last-append c [] rest front port e = e
cut_last-append c (b ∷ host) rest front port e = rw (cut_last-append c host rest front port e) refl

-- The port is what stands behind the last colon.
abbrev HasPort : List ℕ → Option (List ℕ × List ℕ) → Type 0
HasPort port r = (h p : List ℕ) → r ≡ some (h, p) → p ≡ port

no_port : (port : List ℕ) → HasPort port none
no_port port h p e = cc

that_port : (host port : List ℕ) → HasPort port (some (host, port))
that_port host port h p e = cc

split_bracketed-port : (inner port : List ℕ) → HasPort port (split_bracketed inner port)
unfolding split_bracketed
split_bracketed-port inner port = elim (Option-cases (cut_first b']' inner)) [
  | inl open_ ↦ rw (split_bracketed, open_) (no_port port)
  | inr ((host, after), cut) ↦
      rw (split_bracketed, cut) (if_both (HasPort port) _ _ _ (no_port port) (that_port host port))
]

split_host_port-port :
    (addr front port : List ℕ)
    → cut_last b':' addr ≡ some (front, port)
    → HasPort port (split_host_port addr)
unfolding split_host_port
split_host_port-port addr front port e =
    rw (split_host_port, e)
      (if_both (HasPort port) (get_or addr 0 0 == b'[') _ _
        (split_bracketed-port (drop 1 front) port)
        (if_both (HasPort port) _ _ _ (no_port port) (that_port front port)))

-- A joined address has the port that it was joined with.
join_host_port-port :
    (host port : List ℕ)
    → cut_last b':' (b':' ∷ port) ≡ some ([], port)
    → HasPort port (split_host_port (join_host_port host port))
unfolding join_host_port cut_last
join_host_port-port host port e = elim (Bool-cases (has_byte b':' host)) [
  | inl six ↦
      rw (join_host_port, six)
        (split_host_port-port (b'[' ∷ (host ++ (b']' ∷ b':' ∷ port))) _ port (
          cut_last-append b':' (b'[' ∷ host) (b']' ∷ b':' ∷ port) (b']' ∷ []) port
            (cut_last-append b':' (b']' ∷ []) (b':' ∷ port) [] port e)))
  | inr four ↦
      rw (join_host_port, four)
        (split_host_port-port (host ++ (b':' ∷ port)) _ port
          (cut_last-append b':' host (b':' ∷ port) [] port e))
]

-- A second time there is nothing to do.
module _ (old_port new_port : List ℕ) (differ : same_bytes new_port old_port ≡ false)
    (plain : cut_last b':' (b':' ∷ new_port) ≡ some ([], new_port)) where
  other_port :
      (addr : List ℕ)
      → HasPort new_port (split_host_port addr)
      → remap_port addr old_port new_port ≡ none
  unfolding remap_port
  other_port addr has = elim (Option-cases (split_host_port addr)) [
    | inl bad ↦
        rw (remap_port, bad)
          (if_both (λ (o : Option (List ℕ)). o ≡ none) (is_empty addr) _ _ refl refl)
    | inr ((host, port), split) ↦
        let here : port ≡ new_port = has host port split in
        rw (remap_port, split, here, differ)
          (if_both (λ (o : Option (List ℕ)). o ≡ none) (is_empty addr) _ _ refl refl)
  ]

  remapped_or_not :
      (addr : List ℕ)
      → (remap_port addr old_port new_port ≡ none)
        ⊎ ((host : List ℕ) × (remap_port addr old_port new_port
              ≡ some (join_host_port host new_port)))
  unfolding remap_port
  remapped_or_not addr = elim (Bool-cases (is_empty addr)) [
    | inl empty ↦ rw (remap_port, empty) (inl refl)
    | inr some_addr ↦ elim (Option-cases (split_host_port addr)) [
      | inl bad ↦ rw (remap_port, some_addr, bad) (inl refl)
      | inr ((host, port), split) ↦ elim (Bool-cases (same_bytes port old_port)) [
        | inl old ↦ rw (remap_port, some_addr, split, old) (inr (host, refl))
        | inr other ↦ rw (remap_port, some_addr, split, other) (inl refl)
      ]
    ]
  ]

  remap_port-twice :
      (addr : List ℕ)
      → remap_port (or_kept addr (remap_port addr old_port new_port)) old_port new_port ≡ none
  remap_port-twice addr = elim (remapped_or_not addr) [
    | inl kept ↦ rw kept kept
    | inr (host, moved) ↦
        rw moved
          (other_port (join_host_port host new_port) (join_host_port-port host new_port plain))
  ]

-- Migrating a migrated configuration changes nothing and says so.
pub migrate_client_config-twice :
    (cfg : ClientAddrs)
    → migrate_client_config (migrate_client_config cfg).0 ≡ ((migrate_client_config cfg).0, false)
unfolding migrate_client_config same_bytes cut_last
migrate_client_config-twice cfg =
    rw
      (
        migrate_client_config,
        remap_port-twice https_port tls_port refl refl cfg.server_tcp,
        remap_port-twice tls_port https_port refl refl cfg.reality_addr,
      )
      refl
