-- ===== src/Server/Members/Invariant.antt =====
-- The hubs and the sessions agree: a client of a hub is a session of that hub.
use supervpn.Base.{
  ℕ, ◌≡◌, refl, List, Option, some, All, All-map, inl, inr, ◌∙◌, sym, ap, subst, Option-cases,
}
use supervpn.Base.Assoc.{find, store, find-store_self, find-store_ne}
use supervpn.Base.Related.{
  Related, Related-refl, Related-trans, Related-store, some_inj, same_or_not,
}
use supervpn.Hub.Switch.{Hub, Client}
use supervpn.Hub.Manager.{Manager, get}
use supervpn.Hub.Clients.{IsKeyed}
use supervpn.Hub.Targets.{OfClients}
use supervpn.Server.State.{Outside, Session, Server, Effect}
use supervpn.Server.Incoming.{Sessions, forward_frames, deliver, put_session}
use supervpn.Server.Members.Sending.{OnPath, SameLinks, SameLinks-refl}
use supervpn.Server.Members.Forwarding.{MemberOf, Linked, ToOther, RelaysFrom-forward_frames}

-- Every client stands under its own id, and is a session of the hub.
abbrev pub HubAgrees : Sessions → ℕ → Hub → Type 0
HubAgrees sessions hub_id h = IsKeyed h.clients × OfClients (MemberOf sessions hub_id) h.clients

abbrev pub Agrees : Server → Type 0
Agrees srv =
    (hub_id : ℕ) (h : Hub) → get hub_id srv.manager ≡ some h → HubAgrees srv.sessions hub_id h

abbrev pub SameHub : Session → Session → Type 0
SameHub s s' = s'.hub_id ≡ s.hub_id

-- The hubs of the second manager are hubs of the first, with the same clients.
abbrev pub SameClients : Manager → Manager → Type 0
SameClients m m' =
    (id : ℕ) (h' : Hub)
    → get id m' ≡ some h'
    → (h : Hub) × (get id m ≡ some h) × (h'.clients ≡ h.clients)

-- No session and no client has come or gone.
abbrev pub Keeps : Server → Server → Type 0
Keeps srv srv' = Related SameHub srv.sessions srv'.sessions × SameClients srv.manager srv'.manager

pub Keeps-refl : (srv : Server) → Keeps srv srv
Keeps-refl srv = (Related-refl SameHub (λ s. refl) srv.sessions, (λ id h e. (h, e, refl)))

pub Keeps-trans : (a b c : Server) → Keeps a b → Keeps b c → Keeps a c
Keeps-trans a b c (f, g) (f', g') = (
  Related-trans SameHub (λ x y z p q. q ∙ p) a.sessions b.sessions c.sessions f f',
  (λ id h e. let (h1, e1, s1) = g' id h e in let (h2, e2, s2) = g id h1 e1 in (h2, e2, s1 ∙ s2)),
)

MemberOf-Related :
    (m m' : Sessions) (hub_id t : ℕ)
    → Related SameHub m m'
    → MemberOf m hub_id t
    → MemberOf m' hub_id t
MemberOf-Related m m' hub_id t r (s, found, own) =
    let (s', here, same) = r t s found in (s', here, same ∙ own)

pub Agrees-Keeps : (srv srv' : Server) → Keeps srv srv' → Agrees srv → Agrees srv'
Agrees-Keeps srv srv' (related, clients) v hub_id h' e =
    let (h, found, same) = clients hub_id h' e in
    let (keyed, members) = v hub_id h found in
    (
      subst IsKeyed (sym same) keyed,
      subst (OfClients (MemberOf srv'.sessions hub_id)) (sym same) (
          All-map (λ (x : ℕ × Client). MemberOf srv.sessions hub_id x.1.session_id)
            (λ x. MemberOf srv'.sessions hub_id x.1.session_id)
            (λ x. MemberOf-Related srv.sessions srv'.sessions hub_id x.1.session_id related)
            h.clients members),
    )

SameClients-store :
    (m : Manager) (hub_id : ℕ) (h h' : Hub)
    → get hub_id m ≡ some h
    → h'.clients ≡ h.clients
    → SameClients m (store hub_id h' m)
unfolding get
SameClients-store m hub_id h h' found same id g e = elim (same_or_not hub_id id) [
  | inl own ↦
      let here : g ≡ h' =
        some_inj g h'
          (sym e ∙ ap (λ k. find k (store hub_id h' m)) (sym own) ∙ find-store_self hub_id h' m) in
      (h, ap (λ k. find k m) (sym own) ∙ found, ap (λ (x : Hub). x.clients) here ∙ same)
  | inr other ↦ (g, sym (find-store_ne hub_id id h' m other) ∙ e, refl)
]

module _ (env : Outside) where
  pub Keeps-put_session :
      (sess old : Session) (id : ℕ) (srv : Server)
      → find id srv.sessions ≡ some old
      → sess.hub_id ≡ old.hub_id
      → Keeps srv (put_session env sess id srv)
  Keeps-put_session sess old id srv found same = (
    Related-store SameHub (λ s. refl) id old sess srv.sessions found same,
    (λ i h e. (h, e, refl)),
  )

  -- A delivery keeps sessions and clients, and sends to other members of the hub only.
  pub deliver-ToOther :
      (now src hub_id : ℕ) (fs : List (Option (List ℕ))) (srv : Server)
      → Agrees srv
      → let r = deliver env now src hub_id fs srv in
        All (ToOther r.1.sessions hub_id src) r.0 × Keeps srv r.1
  unfolding deliver
  deliver-ToOther now src hub_id fs srv v = elim (Option-cases (get hub_id srv.manager)) [
    | inl gone ↦ rw (deliver, gone) (tt, Keeps-refl srv)
    | inr (h, found) ↦
        let (out, same, linked) =
          RelaysFrom-forward_frames env srv.sessions hub_id src now fs h srv.sessions
            ((v hub_id h found).1) (Related-refl SameLinks SameLinks-refl srv.sessions) in
        let r = forward_frames env now src fs h srv.sessions in
        rw (deliver, found)
          (
            All-map (ToOther srv.sessions hub_id src) (ToOther r.2 hub_id src)
                (λ e. moved srv.sessions r.2 e linked) r.0 out,
            (
              (λ t s e. let (s', here, links) = linked t s e in (s', here, links.hub)),
              SameClients-store srv.manager hub_id h r.1 found same,
            ),
          )
  ]
    where
      moved :
          (m m' : Sessions) (e : Effect)
          → Linked m m'
          → ToOther m hub_id src e
          → ToOther m' hub_id src e
      moved m m' e linked (t, s, ne, found, own, on) =
          let (s', here, links) = linked t s found in
          (
            t,
            s',
            ne,
            here,
            links.hub ∙ own,
            subst (λ x. OnPath s'.send_raw x e) (sym links.raw2)
                (subst (λ x. OnPath x s.send_raw2 e) (sym links.raw) on),
          )
