-- ===== src/Hub/Clients.antt =====
-- internal/hub/hub.go: the table of clients.
use supervpn.Base.{
  ℕ, ◌≡◌, ◌≢◌, refl, List, [], ◌∷◌, ◌==◌, ◌||◌, arith, true, false, Bool, Option, none, some, All,
  Bool-cases, Option-cases, inl, inr, ◌∙◌, ap, sym,
}
use supervpn.Base.Assoc.{find, store, erase, find-erase_self}
use supervpn.Hub.Switch.{Client, MacEntry, targets, is_group, route}

-- The sessions that are not s.
abbrev pub Avoids : ℕ → List ℕ → Type 0
Avoids s sessions = All (λ t. t ≢ s) sessions

-- s is among the sessions.
abbrev pub is_among : ℕ → List ℕ → Bool
is_among s [] = false
is_among s (t ∷ ts) = (t == s) || is_among s ts

-- Each client stands under its own session id.
abbrev pub IsKeyed : List (ℕ × Client) → Type 0
IsKeyed clients = All (λ e. e.1.session_id ≡ e.0) clients

pub store-IsKeyed :
    (c : Client) (clients : List (ℕ × Client))
    → IsKeyed clients
    → IsKeyed (store c.session_id c clients)
unfolding store
store-IsKeyed c [] v = (refl, tt)
store-IsKeyed c ((k, d) ∷ clients) v = elim (Bool-cases (k == c.session_id)) [
  | inl same ↦ rw same (refl, v.1)
  | inr other ↦ rw other (v.0, store-IsKeyed c clients v.1)
]

pub erase-IsKeyed :
    (s : ℕ) (clients : List (ℕ × Client)) → IsKeyed clients → IsKeyed (erase s clients)
unfolding erase
erase-IsKeyed s [] v = tt
erase-IsKeyed s ((k, d) ∷ clients) v = elim (Bool-cases (k == s)) [
  | inl same ↦ rw same (erase-IsKeyed s clients v.1)
  | inr other ↦ rw other (v.0, erase-IsKeyed s clients v.1)
]

targets-erase :
    (s src : ℕ) (clients : List (ℕ × Client))
    → IsKeyed clients
    → Avoids s (targets src (erase s clients))
unfolding targets erase
targets-erase s src [] v = tt
targets-erase s src ((k, d) ∷ clients) v = elim (Bool-cases (k == s)) [
  | inl same ↦ rw same (targets-erase s src clients v.1)
  | inr other ↦ rw other (elim (Bool-cases (d.session_id == src)) [
    | inl own ↦ rw own (targets-erase s src clients v.1)
    | inr far ↦ rw far ((λ e. ground (arith, other, e, v.0)), targets-erase s src clients v.1)
  ])
]

pub find-IsKeyed :
    (s : ℕ) (c : Client) (clients : List (ℕ × Client))
    → IsKeyed clients
    → find s clients ≡ some c
    → c.session_id ≡ s
unfolding find
find-IsKeyed s c [] v e = cc
find-IsKeyed s c ((k, d) ∷ clients) v e = elim (Bool-cases (k == s)) [
  | inl same ↦ let f = rw same at e in ground (arith, same, v.0, f)
  | inr other ↦ find-IsKeyed s c clients v.1 (rw other at e)
]

pub route-erase :
    (s src : ℕ) (frame : List ℕ) (entry : Option MacEntry) (clients : List (ℕ × Client))
    → IsKeyed clients
    → Avoids s (route src frame entry (erase s clients))
unfolding route
route-erase s src frame none clients v = targets-erase s src clients v
route-erase s src frame (some e) clients v = elim (Bool-cases (is_group frame)) [
  | inl group ↦ rw group (targets-erase s src clients v)
  | inr single ↦ rw single (elim (Option-cases (find e.session_id (erase s clients))) [
    | inl gone ↦ rw gone (targets-erase s src clients v)
    | inr (c, found) ↦ rw found (elim (Bool-cases (c.session_id == src)) [
      | inl own ↦ rw own tt
      | inr other ↦ rw other (
        (λ q.
            let key =
              sym (find-IsKeyed e.session_id c (erase s clients) (erase-IsKeyed s clients v) found)
              ∙ q in
            let none_left =
              sym found ∙ ap (λ i. find i (erase s clients)) key ∙ find-erase_self s clients in
            cc),
        tt,
      )
    ])
  ])
]

abbrev session_of : Option Client → ℕ
session_of none = 0
session_of (some c) = c.session_id

pub targets-found :
    (s src : ℕ) (c : Client) (clients : List (ℕ × Client))
    → find s clients ≡ some c
    → c.session_id ≢ src
    → is_among c.session_id (targets src clients) ≡ true
unfolding targets find
targets-found s src c [] e ne = cc
targets-found s src c ((k, d) ∷ clients) e ne = elim (Bool-cases (k == s)) [
  | inl same ↦
      let f = rw same at e in
      let g : d.session_id ≡ c.session_id = ap session_of f in
      let far : (d.session_id == src) ≡ false = ground (arith, g, ne) in rw far (ground (arith, g))
  | inr other ↦ elim (Bool-cases (d.session_id == src)) [
    | inl own ↦ rw own (targets-found s src c clients (rw other at e) ne)
    | inr far ↦ rw far (ground (arith, targets-found s src c clients (rw other at e) ne))
  ]
]
