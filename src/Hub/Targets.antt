-- ===== src/Hub/Targets.antt =====
-- internal/hub/hub.go: what holds of every client holds of those that a frame goes to.
use supervpn.Base.{
  ℕ, ◌≡◌, refl, List, [], ◌∷◌, ltb, ◌==◌, length, Option, none, some, All, Bool-cases, Option-cases,
  inl, inr, sym, subst,
}
use supervpn.Base.Assoc.{find}
use supervpn.Base.Related.{some_inj}
use supervpn.Hub.Switch.{Client, MacEntry, Hub, targets, is_group, route, forward}
use supervpn.Hub.Learning.{learn-clients}

module _ (P : ℕ → Type 0) where
  abbrev pub OfClients : List (ℕ × Client) → Type 0
  OfClients clients = All (λ e. P e.1.session_id) clients

  targets-All :
      (src : ℕ) (clients : List (ℕ × Client)) → OfClients clients → All P (targets src clients)
  unfolding targets
  targets-All src [] v = tt
  targets-All src ((k, c) ∷ clients) v = elim (Bool-cases (c.session_id == src)) [
    | inl own ↦ rw own (targets-All src clients v.1)
    | inr other ↦ rw other (v.0, targets-All src clients v.1)
  ]

  find-OfClients :
      (t : ℕ) (c : Client) (clients : List (ℕ × Client))
      → OfClients clients
      → find t clients ≡ some c
      → P c.session_id
  unfolding find
  find-OfClients t c [] v e = cc
  find-OfClients t c ((k, d) ∷ clients) v e = elim (Bool-cases (k == t)) [
    | inl same ↦ subst (λ x. P x.session_id) (some_inj d c (rw same at e)) (v.0)
    | inr other ↦ find-OfClients t c clients v.1 (rw other at e)
  ]

  route-All :
      (src : ℕ) (frame : List ℕ) (entry : Option MacEntry) (clients : List (ℕ × Client))
      → OfClients clients
      → All P (route src frame entry clients)
  unfolding route
  route-All src frame none clients v = targets-All src clients v
  route-All src frame (some e) clients v = elim (Bool-cases (is_group frame)) [
    | inl group ↦ rw group (targets-All src clients v)
    | inr single ↦ elim (Option-cases (find e.session_id clients)) [
      | inl gone ↦ rw (single, gone) (targets-All src clients v)
      | inr (c, found) ↦ elim (Bool-cases (c.session_id == src)) [
        | inl own ↦ rw (single, found, own) tt
        | inr other ↦ rw (single, found, other) (find-OfClients e.session_id c clients v found, tt)
      ]
    ]
  ]

  pub forward-All :
      (now src : ℕ) (frame : List ℕ) (h : Hub)
      → OfClients h.clients
      → All P (forward now src frame h).0
  unfolding forward
  forward-All now src frame h v = elim (Bool-cases (ltb (length frame) 12)) [
    | inl short ↦ rw short tt
    | inr long ↦
        rw long (route-All src frame _ _ (subst OfClients (sym (learn-clients now src frame h)) v))
  ]

pub forward-clients :
    (now src : ℕ) (frame : List ℕ) (h : Hub) → (forward now src frame h).1.clients ≡ h.clients
unfolding forward
forward-clients now src frame h = elim (Bool-cases (ltb (length frame) 12)) [
  | inl short ↦ rw short refl
  | inr long ↦ rw long (learn-clients now src frame h)
]
