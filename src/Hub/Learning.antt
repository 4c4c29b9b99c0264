-- ===== src/Hub/Learning.antt =====
-- internal/hub/hub.go: where Forward sends frames.
use supervpn.Base.{
  ℕ, ◌+◌, ◌≤◌, ◌≡◌, ◌≢◌, refl, List, [], ◌∷◌, ltb, ◌==◌, if◌then◌else◌, length, arith, false,
  Option, none, some, All, Bool-cases, Option-cases, inl, inr, ◌∙◌, ap, ap₂, sym, le→ltb-false,
  ne→==-false,
}
use supervpn.Base.Assoc.{find, store, find-store_self, find-store_ne}
use supervpn.Hub.Switch.{
  Client, MacEntry, Hub, dst_mac, src_mac, has_moved, needs_update, count_flap, learn, targets,
  is_group, route, forward, new_ip, mac_table_ttl,
}

targets-ne : (src : ℕ) (clients : List (ℕ × Client)) → All (λ s. s ≢ src) (targets src clients)
unfolding targets
targets-ne src [] = tt
targets-ne src ((key, c) ∷ clients) = elim (Bool-cases (c.session_id == src)) [
  | inl own ↦ rw own (targets-ne src clients)
  | inr other ↦ rw other ((λ e. ground (arith, other, e)), targets-ne src clients)
]

route-ne :
    (src : ℕ) (frame : List ℕ) (entry : Option MacEntry) (clients : List (ℕ × Client))
    → All (λ s. s ≢ src) (route src frame entry clients)
unfolding route
route-ne src frame none clients = targets-ne src clients
route-ne src frame (some e) clients = elim (Bool-cases (is_group frame)) [
  | inl group ↦ rw group (targets-ne src clients)
  | inr single ↦ rw single (elim (Option-cases (find e.session_id clients)) [
    | inl gone ↦ rw gone (targets-ne src clients)
    | inr (c, found) ↦ rw found (elim (Bool-cases (c.session_id == src)) [
      | inl own ↦ rw own tt
      | inr other ↦ rw other ((λ e. ground (arith, other, e)), tt)
    ])
  ])
]

-- A frame never goes back to the session that it came from.
pub forward-ne_source :
    (now src : ℕ) (frame : List ℕ) (h : Hub) → All (λ s. s ≢ src) (forward now src frame h).0
unfolding forward
forward-ne_source now src frame h = elim (Bool-cases (ltb (length frame) 12)) [
  | inl short ↦ rw short tt
  | inr long ↦ rw long (route-ne src frame _ _)
]

learn-mac_table :
    (now src : ℕ) (frame : List ℕ) (h : Hub)
    → (learn now src frame h).mac_table ≡ (
        if needs_update now (find (src_mac frame) h.mac_table) src
        then store
            (src_mac frame)
            (record {
              session_id = src;
              expires = now + mac_table_ttl;
              ip = new_ip (find (src_mac frame) h.mac_table) frame;
            })
            h.mac_table
        else h.mac_table)
unfolding learn count_flap
learn-mac_table now src frame h =
    elim (Bool-cases (needs_update now (find (src_mac frame) h.mac_table) src)) [
      | inl write ↦ rw write (elim (Bool-cases (has_moved (find (src_mac frame) h.mac_table) src)) [
        | inl moved ↦ rw moved refl
        | inr stayed ↦ rw stayed refl
      ])
      | inr keeps ↦ rw keeps (elim (Bool-cases (has_moved (find (src_mac frame) h.mac_table) src)) [
        | inl moved ↦ rw moved refl
        | inr stayed ↦ rw stayed refl
      ])
    ]

pub learn-clients :
    (now src : ℕ) (frame : List ℕ) (h : Hub) → (learn now src frame h).clients ≡ h.clients
unfolding learn count_flap
learn-clients now src frame h =
    elim (Bool-cases (needs_update now (find (src_mac frame) h.mac_table) src)) [
      | inl write ↦ rw write (elim (Bool-cases (has_moved (find (src_mac frame) h.mac_table) src)) [
        | inl moved ↦ rw moved refl
        | inr stayed ↦ rw stayed refl
      ])
      | inr keeps ↦ rw keeps (elim (Bool-cases (has_moved (find (src_mac frame) h.mac_table) src)) [
        | inl moved ↦ rw moved refl
        | inr stayed ↦ rw stayed refl
      ])
    ]

fresh_entry :
    (now src : ℕ) (entry : Option MacEntry)
    → needs_update now entry src ≡ false
    → (e : MacEntry) × (entry ≡ some e) × (e.session_id ≡ src)
fresh_entry now src none h = cc
fresh_entry now src (some e) h = (e, refl, ground (arith, h))

-- After a frame from a session, its source address stands for that session.
learn-known :
    (now src : ℕ) (frame : List ℕ) (h : Hub)
    → (e : MacEntry) × (find (src_mac frame) (learn now src frame h).mac_table ≡ some e)
      × (e.session_id ≡ src)
learn-known now src frame h =
    elim (Bool-cases (needs_update now (find (src_mac frame) h.mac_table) src)) [
      | inl write ↦
          rw (learn-mac_table now src frame h, write) (_, find-store_self (src_mac frame) _ _, refl)
      | inr fresh ↦ rw (learn-mac_table now src frame h, fresh) (fresh_entry now src _ fresh)
    ]

-- Another address keeps its entry.
learn-other :
    (now src mac : ℕ) (frame : List ℕ) (h : Hub)
    → src_mac frame ≢ mac
    → find mac (learn now src frame h).mac_table ≡ find mac h.mac_table
learn-other now src mac frame h ne =
    elim (Bool-cases (needs_update now (find (src_mac frame) h.mac_table) src)) [
      | inl write ↦
          rw (learn-mac_table now src frame h, write)
            (find-store_ne (src_mac frame) mac _ h.mac_table ne)
      | inr fresh ↦ rw (learn-mac_table now src frame h, fresh) refl
    ]

route-found :
    (src : ℕ) (frame : List ℕ) (e : MacEntry) (c : Client) (clients : List (ℕ × Client))
    → is_group frame ≡ false
    → find e.session_id clients ≡ some c
    → c.session_id ≢ src
    → route src frame (some e) clients ≡ c.session_id ∷ []
unfolding route
route-found src frame e c clients single found ne =
    let other = ne→==-false c.session_id src ne in rw (single, found, other) refl

pub forward-long :
    (now src : ℕ) (frame : List ℕ) (h : Hub)
    → 12 ≤ length frame
    → forward now src frame h ≡ (
      route src frame
          (find (dst_mac frame) (learn now src frame h).mac_table)
          (learn now src frame h).clients,
      learn now src frame h,
    )
unfolding forward
forward-long now src frame h le = let long = le→ltb-false (length frame) 12 le in rw long refl

-- After a frame of 12 bytes or more from a station of a connected client, the next frame, if it is for
-- that station and from another session and another station, goes to that client only, if the address
-- is neither broadcast nor multicast.
pub forward-learned :
    (now later src other : ℕ) (frame reply : List ℕ) (c : Client) (h : Hub)
    → 12 ≤ length frame
    → 12 ≤ length reply
    → find src h.clients ≡ some c
    → c.session_id ≡ src
    → src ≢ other
    → dst_mac reply ≡ src_mac frame
    → src_mac reply ≢ src_mac frame
    → is_group reply ≡ false
    → (forward later other reply (forward now src frame h).1).0 ≡ src ∷ []
forward-learned now later src other frame reply c h long long' connected own ne to from single =
    let h' : Hub = learn now src frame h in
    let (e, known, is_src) = learn-known now src frame h in
    let first = ap (λ x. x.1) (forward-long now src frame h long) in
    let second = ap (λ x. x.0) (forward-long later other reply h' long') in
    ap (λ x. (forward later other reply x).0) first
    ∙ second
    ∙ ap₂ (route other reply)
        (ap (λ m. find m (learn later other reply h').mac_table) to
          ∙ learn-other later other (src_mac frame) reply h' from
          ∙ known)
        (learn-clients later other reply h' ∙ learn-clients now src frame h)
    ∙ route-found other reply e c h.clients single (ap (λ s. find s h.clients) is_src ∙ connected)
        (λ q. ne (sym own ∙ q))
    ∙ ap (λ s. s ∷ []) own
