-- ===== src/Hub/Delivery.antt =====
-- internal/hub/hub.go: which clients a frame reaches after Join and Leave.
use supervpn.Base.{
  ℕ, ◌≤◌, ◌≡◌, ◌≢◌, refl, List, ltb, length, true, Option, none, some, Bool-cases, inl, inr, ◌∙◌,
  ap, sym, subst,
}
use supervpn.Base.Assoc.{find}
use supervpn.Hub.Switch.{
  Client, MacEntry, Hub, dst_mac, learn, targets, is_group, route, forward, join, leave, new,
  purge_mac_table,
}
use supervpn.Hub.Learning.{learn-clients, forward-long}
use supervpn.Hub.Clients.{
  Avoids, is_among, IsKeyed, store-IsKeyed, erase-IsKeyed, targets-found, find-IsKeyed, route-erase,
}

-- What happens to a hub: a client joins or leaves, a frame is forwarded, the table is purged.
pub data Step : Hub → Hub → Type 0 where
  joins : {h : Hub} (c : Client) → Step h (join c h)
  leaves : {h : Hub} (session_id : ℕ) → Step h (leave session_id h)
  forwards : {h : Hub} (now src : ℕ) (frame : List ℕ) → Step h (forward now src frame h).1
  purges : {h : Hub} (now : ℕ) → Step h (purge_mac_table now h)

-- The hubs that a server can have.
pub data Reachable : Hub → Type 0 where
  started : (id : ℕ) (name : List ℕ) → Reachable (new id name)
  goes_on : {h h' : Hub} → Reachable h → Step h h' → Reachable h'

Step-IsKeyed : {h h' : Hub} → Step h h' → IsKeyed h.clients → IsKeyed h'.clients
unfolding join leave forward purge_mac_table
Step-IsKeyed {h} (joins c) v = store-IsKeyed c h.clients v
Step-IsKeyed {h} (leaves s) v = erase-IsKeyed s h.clients v
Step-IsKeyed {h} (forwards now src frame) v = elim (Bool-cases (ltb (length frame) 12)) [
  | inl short ↦ rw short v
  | inr long ↦ rw long (subst IsKeyed (sym (learn-clients now src frame h)) v)
]
Step-IsKeyed (purges now) v = v

Reachable-IsKeyed : {h : Hub} → Reachable h → IsKeyed h.clients
unfolding new
Reachable-IsKeyed (started id name) = tt
Reachable-IsKeyed (goes_on r s) = Step-IsKeyed s (Reachable-IsKeyed r)

-- In a hub that came about by any steps, a frame after Leave never goes to the session that left.
pub forward-left :
    (now src left : ℕ) (frame : List ℕ) (h : Hub)
    → Reachable h
    → Avoids left (forward now src frame (leave left h)).0
unfolding forward leave
forward-left now src left frame h r = elim (Bool-cases (ltb (length frame) 12)) [
  | inl short ↦ rw short tt
  | inr long ↦ rw long (
      subst
        (λ cs. Avoids left (
          route src frame (find (dst_mac frame) (learn now src frame (leave left h)).mac_table) cs))
        (sym (learn-clients now src frame (leave left h)))
        (route-erase left src frame _ h.clients (Reachable-IsKeyed r)))
]

route-group :
    (src : ℕ) (frame : List ℕ) (entry : Option MacEntry) (clients : List (ℕ × Client))
    → is_group frame ≡ true
    → route src frame entry clients ≡ targets src clients
unfolding route
route-group src frame none clients g = refl
route-group src frame (some e) clients g = rw g refl

-- A broadcast or multicast frame of 12 bytes or more reaches every client that joined and did not leave
-- since, but the source.
pub forward-group :
    (now src session : ℕ) (frame : List ℕ) (c : Client) (h : Hub)
    → Reachable h
    → 12 ≤ length frame
    → is_group frame ≡ true
    → find session h.clients ≡ some c
    → session ≢ src
    → is_among session (forward now src frame h).0 ≡ true
forward-group now src session frame c h r long group connected ne =
    let key = find-IsKeyed session c h.clients (Reachable-IsKeyed r) connected in
    ap (λ x. is_among session x.0) (forward-long now src frame h long)
    ∙ ap (is_among session) (
        route-group src frame _ (learn now src frame h).clients group
        ∙ ap (targets src) (learn-clients now src frame h))
    ∙ ap (λ s. is_among s (targets src h.clients)) (sym key)
    ∙ targets-found session src c h.clients connected (λ q. ne (sym key ∙ q))
