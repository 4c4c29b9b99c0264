-- ===== src/Server/Range.antt =====
-- cmd/supervpn-server/main.go: `for id, sess := range s.sessions` with a test on the session. A session
-- that an earlier round has removed is not met.
use supervpn.Base.{
  arith, ℕ, ◌≡◌, ◌≢◌, refl, List, [], ◌∷◌, ◌++◌, if◌then◌else◌, Option, none, some, Bool, true,
  false, inl, inr, ◌∙◌, sym, ap, Bool-cases, Option-cases, ◌==◌,
}
use supervpn.Base.Assoc.{find, erase, find-erase_self, find-erase_ne}
use supervpn.Base.Related.{same_or_not}
use supervpn.Server.State.{Session, Server, Effect}

-- The keys of a map in the order of the iteration.
unfoldable pub keys {ℓ} : {A : Type ℓ} → List (ℕ × A) → List ℕ
keys [] = []
keys ((k, a) ∷ m) = k ∷ keys m

unfoldable pub holds_id : ℕ → List ℕ → Bool
holds_id id [] = false
holds_id id (i ∷ ids) = let rest = holds_id id ids in if i == id then true else rest

keys-found :
    {A : Type 0} (t : ℕ) (a : A) (m : List (ℕ × A)) → find t m ≡ some a → holds_id t (keys m) ≡ true
unfolding find keys holds_id
keys-found t a [] e = cc
keys-found t a ((k, b) ∷ m) e = elim (Bool-cases (k == t)) [
  | inl same ↦ rw same refl
  | inr other ↦ rw other (keys-found t a m (rw other at e))
]

module _ (test : Session → Bool) (act : ℕ → Session → Server → List Effect × Server) where
  unfoldable pub visit : ℕ → Server → List Effect × Server
  visit id srv = elim (find id srv.sessions) [
    | none ↦ ([], srv)
    | some sess ↦ if test sess then act id sess srv else ([], srv)
  ]

  unfoldable pub range_where : List ℕ → Server → List Effect × Server
  range_where [] srv = ([], srv)
  range_where (id ∷ ids) srv =
      let (out, left) = visit id srv in
      let (more, last) = range_where ids left in (out ++ more, last)

  -- What stays true in a round stays true in the loop.
  pub range_where_keeps :
      (P : Server → Type 0)
      → ((id : ℕ) (sess : Session) (srv : Server)
          → find id srv.sessions ≡ some sess
          → P srv
          → P (act id sess srv).1)
      → (ids : List ℕ) (srv : Server) → P srv
      → P (range_where ids srv).1
  unfolding range_where visit
  range_where_keeps P keep [] srv v = v
  range_where_keeps P keep (id ∷ ids) srv v = range_where_keeps P keep ids (visit id srv).1 one
    where
      one : P (visit id srv).1
      one = elim (Option-cases (find id srv.sessions)) [
        | inl unknown ↦ rw (visit, unknown) v
        | inr (sess, found) ↦ elim (Bool-cases (test sess)) [
          | inl hit ↦ rw (visit, found, hit) (keep id sess srv found v)
          | inr miss ↦ rw (visit, found, miss) v
        ]
      ]

  -- The session, unless it passes the test.
  abbrev pub unless_test : Option Session → Option Session
  unless_test none = none
  unless_test (some sess) = if test sess then none else some sess

  unless_test_twice : (o : Option Session) → unless_test (unless_test o) ≡ unless_test o
  unless_test_twice none = refl
  unless_test_twice (some sess) = elim (Bool-cases (test sess)) [
    | inl hit ↦ rw hit refl
    | inr miss ↦ rw (miss, miss) refl
  ]

  module _
      (erases : (id : ℕ) (sess : Session) (srv : Server)
        → (act id sess srv).1.sessions ≡ erase id srv.sessions) where
    visit_self :
        (id : ℕ) (srv : Server)
        → find id (visit id srv).1.sessions ≡ unless_test (find id srv.sessions)
    unfolding visit
    visit_self id srv = elim (Option-cases (find id srv.sessions)) [
      | inl unknown ↦ rw (visit, unknown) unknown
      | inr (sess, found) ↦ elim (Bool-cases (test sess)) [
        | inl hit ↦ rw (visit, found, hit, erases id sess srv) (find-erase_self id srv.sessions)
        | inr miss ↦ rw (visit, found, miss) found
      ]
    ]

    visit_ne :
        (id t : ℕ) (srv : Server) → id ≢ t → find t (visit id srv).1.sessions ≡ find t srv.sessions
    unfolding visit
    visit_ne id t srv ne = elim (Option-cases (find id srv.sessions)) [
      | inl unknown ↦ rw (visit, unknown) refl
      | inr (sess, found) ↦ elim (Bool-cases (test sess)) [
        | inl hit ↦ rw (visit, found, hit, erases id sess srv) (find-erase_ne id t srv.sessions ne)
        | inr miss ↦ rw (visit, found, miss) refl
      ]
    ]

    range_missed :
        (ids : List ℕ) (srv : Server) (t : ℕ) (o : Option Session)
        → find t srv.sessions ≡ o
        → unless_test o ≡ o
        → find t (range_where ids srv).1.sessions ≡ o
    unfolding range_where
    range_missed [] srv t o e stays = e
    range_missed (id ∷ ids) srv t o e stays =
        range_missed ids (visit id srv).1 t o
          (elim (same_or_not id t) [
            | inl same ↦
                ap (λ k. find k (visit id srv).1.sessions) (sym same)
                ∙ visit_self id srv
                ∙ ap (λ k. unless_test (find k srv.sessions)) same
                ∙ ap unless_test e
                ∙ stays
            | inr other ↦ visit_ne id t srv other ∙ e
          ])
          stays

    range_met :
        (ids : List ℕ) (srv : Server) (t : ℕ) (o : Option Session)
        → find t srv.sessions ≡ o
        → holds_id t ids ≡ true
        → find t (range_where ids srv).1.sessions ≡ unless_test o
    unfolding range_where holds_id
    range_met [] srv t o e h = cc
    range_met (id ∷ ids) srv t o e h = elim (same_or_not id t) [
      | inl same ↦
          range_missed ids (visit id srv).1 t (unless_test o)
            (ap (λ k. find k (visit id srv).1.sessions) (sym same)
              ∙ visit_self id srv
              ∙ ap (λ k. unless_test (find k srv.sessions)) same
              ∙ ap unless_test e)
            (unless_test_twice o)
      | inr other ↦
          range_met ids (visit id srv).1 t o (visit_ne id t srv other ∙ e)
            (ground (arith, other, h))
    ]

    -- The loop removes the sessions that pass the test, and no others.
    pub range_where-sessions :
        (srv : Server) (t : ℕ)
        → find t (range_where (keys srv.sessions) srv).1.sessions
          ≡ unless_test (find t srv.sessions)
    range_where-sessions srv t = elim (Option-cases (find t srv.sessions)) [
      | inl unknown ↦ rw unknown (range_missed (keys srv.sessions) srv t none unknown refl)
      | inr (sess, found) ↦ rw found (
          range_met (keys srv.sessions) srv t (some sess) found
            (keys-found t sess srv.sessions found))
    ]
