-- ===== src/Server/Members/Ends.antt =====
-- A session that starts or ends keeps the agreement of hubs and sessions.
use supervpn.Base.{
  ℕ, ◌≡◌, ◌≢◌, List, [], ◌∷◌, ◌==◌, none, some, All, All-map, inl, inr, ◌∙◌, sym, ap, subst,
  Bool-cases, Option-cases, arith,
}
use supervpn.Base.Assoc.{find, store, erase, find-store_self, find-store_ne, find-erase_ne}
use supervpn.Base.Related.{some_inj, same_or_not}
use supervpn.Config.Defaults.{FecConfig}
use supervpn.Hub.Switch.{Hub, Client, join, leave}
use supervpn.Hub.Manager.{get}
use supervpn.Hub.Clients.{IsKeyed, store-IsKeyed}
use supervpn.Hub.Targets.{OfClients}
use supervpn.Server.State.{Outside, Session, Server}
use supervpn.Server.Incoming.{Sessions}
use supervpn.Server.Lifecycle.{leave_hub}
use supervpn.Server.Admission.{enter}
use supervpn.Server.Members.Forwarding.{MemberOf}
use supervpn.Server.Members.Invariant.{HubAgrees, Agrees}

none-ne-some {ℓ} : {A : Type ℓ} (x : A) → none ≢ some x
none-ne-some x e = cc

store-All :
    {A : Type 0} (P : ℕ × A → Type 0) (key : ℕ) (a : A) (m : List (ℕ × A))
    → P (key, a)
    → All P m
    → All P (store key a m)
unfolding store
store-All P key a [] p v = (p, tt)
store-All P key a ((k, b) ∷ m) p v = elim (Bool-cases (k == key)) [
  | inl same ↦ rw same (p, v.1)
  | inr other ↦ rw other (v.0, store-All P key a m p v.1)
]

erase-All :
    {A : Type 0} (P : ℕ × A → Type 0) (key : ℕ) (m : List (ℕ × A))
    → All P m
    → All (λ e. P e × (e.0 ≢ key)) (erase key m)
unfolding erase
erase-All P key [] v = tt
erase-All P key ((k, b) ∷ m) v = elim (Bool-cases (k == key)) [
  | inl same ↦ rw same (erase-All P key m v.1)
  | inr other ↦ rw other ((v.0, (λ e. ground (arith, other, e))), erase-All P key m v.1)
]

-- A key stands under itself and its session belongs to the hub.
abbrev Good : Sessions → ℕ → ℕ × Client → Type 0
Good sessions hub_id e = (e.1.session_id ≡ e.0) × MemberOf sessions hub_id e.0

both :
    (sessions : Sessions) (hub_id : ℕ) (clients : List (ℕ × Client))
    → IsKeyed clients
    → OfClients (MemberOf sessions hub_id) clients
    → All (Good sessions hub_id) clients
both sessions hub_id [] k v = tt
both sessions hub_id ((i, c) ∷ clients) k v =
    ((k.0, subst (MemberOf sessions hub_id) (k.0) (v.0)), both sessions hub_id clients k.1 v.1)

apart :
    (sessions : Sessions) (hub_id : ℕ) (clients : List (ℕ × Client))
    → All (Good sessions hub_id) clients
    → IsKeyed clients × OfClients (MemberOf sessions hub_id) clients
apart sessions hub_id [] v = (tt, tt)
apart sessions hub_id ((i, c) ∷ clients) v =
    let (k, m) = apart sessions hub_id clients v.1 in
    ((v.0.0, k), (subst (MemberOf sessions hub_id) (sym (v.0.0)) (v.0.1), m))

module _ (id : ℕ) (sess : Session) (srv : Server) (found : find id srv.sessions ≡ some sess) where
  other_hub : (hub_id t : ℕ) → hub_id ≢ sess.hub_id → MemberOf srv.sessions hub_id t → id ≢ t
  other_hub hub_id t ne (s, e, own) same = ne (
      sym own
      ∙ ap (λ (x : Session). x.hub_id)
          (some_inj s sess (sym e ∙ ap (λ k. find k srv.sessions) (sym same) ∙ found)))

  still :
      (hub_id t : ℕ)
      → id ≢ t
      → MemberOf srv.sessions hub_id t
      → MemberOf (erase id srv.sessions) hub_id t
  still hub_id t ne (s, e, own) = (s, find-erase_ne id t srv.sessions ne ∙ e, own)

  -- The clients that stay have their sessions.
  stays :
      (hub_id : ℕ) (clients : List (ℕ × Client))
      → IsKeyed clients × OfClients (MemberOf srv.sessions hub_id) clients
      → IsKeyed (erase id clients)
        × OfClients (MemberOf (erase id srv.sessions) hub_id) (erase id clients)
  stays hub_id clients (keyed, members) = apart (erase id srv.sessions) hub_id (erase id clients) (
      All-map (λ (x : ℕ × Client). Good srv.sessions hub_id x × (x.0 ≢ id))
        (Good (erase id srv.sessions) hub_id)
        (λ x g. (g.0.0, still hub_id x.0 (λ same. g.1 (sym same)) (g.0.1))) (erase id clients)
        (erase-All (Good srv.sessions hub_id) id clients
          (both srv.sessions hub_id clients keyed members)))

  -- No client of another hub has left.
  untouched :
      (hub_id : ℕ) (h : Hub)
      → sess.hub_id ≢ hub_id
      → HubAgrees srv.sessions hub_id h
      → HubAgrees (erase id srv.sessions) hub_id h
  untouched hub_id h other (keyed, members) = (
    keyed,
    All-map (λ (x : ℕ × Client). MemberOf srv.sessions hub_id x.1.session_id)
        (λ x. MemberOf (erase id srv.sessions) hub_id x.1.session_id)
        (λ x m.
          still hub_id x.1.session_id (other_hub hub_id x.1.session_id (λ same. other (sym same)) m)
            m)
        h.clients members,
  )

  ended_in :
      (hub_id : ℕ) (h : Hub)
      → Agrees srv
      → get hub_id (leave_hub id sess.hub_id srv.manager) ≡ some h
      → HubAgrees (erase id srv.sessions) hub_id h
  unfolding leave_hub get leave
  ended_in hub_id h v e = elim (Option-cases (get sess.hub_id srv.manager)) [
    | inl gone ↦
        let here : get hub_id srv.manager ≡ some h = rw (leave_hub, gone) at e in
        untouched hub_id h
          (λ same. none-ne-some h (sym gone ∙ ap (λ k. find k srv.manager) same ∙ here))
          (v hub_id h here)
    | inr (h0, there) ↦
        let stored : get hub_id (store sess.hub_id (leave id h0) srv.manager) ≡ some h =
          rw (leave_hub, there) at e in
        elim (same_or_not sess.hub_id hub_id) [
          | inl own ↦
              let left : leave id h0 ≡ h = some_inj (leave id h0) h (
                sym (find-store_self sess.hub_id (leave id h0) srv.manager)
                ∙ ap (λ k. find k (store sess.hub_id (leave id h0) srv.manager)) own
                ∙ stored) in
              let was : get hub_id srv.manager ≡ some h0 =
                ap (λ k. find k srv.manager) (sym own) ∙ there in
              subst (HubAgrees (erase id srv.sessions) hub_id) left
                (stays hub_id h0.clients (v hub_id h0 was))
          | inr other ↦ untouched hub_id h other (
              v hub_id h
                (sym (find-store_ne sess.hub_id hub_id (leave id h0) srv.manager other) ∙ stored))
        ]
  ]

  pub Agrees-ended :
      Agrees srv
      → Agrees (record srv {
        sessions = erase id srv.sessions;
        manager = leave_hub id sess.hub_id srv.manager;
      })
  Agrees-ended v hub_id h e = ended_in hub_id h v e

-- A session under a fresh id enters a hub.
module _ (env : Outside) (sess : Session) (h0 : Hub) (srv : Server)
    (fresh : find sess.id srv.sessions ≡ none) (there : get sess.hub_id srv.manager ≡ some h0) where
  stays_member :
      (hub_id t : ℕ)
      → MemberOf srv.sessions hub_id t
      → MemberOf (store sess.id sess srv.sessions) hub_id t
  stays_member hub_id t (s, e, own) = (
    s,
    find-store_ne sess.id t sess srv.sessions
          (λ same. none-ne-some s (sym fresh ∙ ap (λ k. find k srv.sessions) same ∙ e))
        ∙ e,
    own,
  )

  stay_members :
      (hub_id : ℕ) (clients : List (ℕ × Client))
      → OfClients (MemberOf srv.sessions hub_id) clients
      → OfClients (MemberOf (store sess.id sess srv.sessions) hub_id) clients
  stay_members hub_id clients =
      All-map (λ (x : ℕ × Client). MemberOf srv.sessions hub_id x.1.session_id)
        (λ x. MemberOf (store sess.id sess srv.sessions) hub_id x.1.session_id)
        (λ x. stays_member hub_id x.1.session_id) clients

  pub Agrees-entered : (f : FecConfig) → Agrees srv → Agrees (enter env sess h0 f srv).2
  unfolding enter join get
  Agrees-entered f v hub_id h e = elim (same_or_not sess.hub_id hub_id) [
    | inr other ↦
        let (keyed, members) =
          v hub_id h (sym (find-store_ne sess.hub_id hub_id _ srv.manager other) ∙ e) in
        (keyed, stay_members hub_id h.clients members)
    | inl own ↦
        let joined : Hub = join (record { session_id = sess.id; login = sess.login }) h0 in
        let same : joined ≡ h = some_inj joined h (
          sym (find-store_self sess.hub_id joined srv.manager)
          ∙ ap (λ k. find k (store sess.hub_id joined srv.manager)) own
          ∙ e) in
        let (keyed, members) = v hub_id h0 (ap (λ k. find k srv.manager) (sym own) ∙ there) in
        subst (HubAgrees (store sess.id sess srv.sessions) hub_id) same (
          store-IsKeyed (record { session_id = sess.id; login = sess.login }) h0.clients keyed,
          store-All
              (λ (x : ℕ × Client). MemberOf (store sess.id sess srv.sessions) hub_id x.1.session_id)
              sess.id (record { session_id = sess.id; login = sess.login }) h0.clients
              (sess, find-store_self sess.id sess srv.sessions, own)
              (stay_members hub_id h0.clients members),
        )
  ]
