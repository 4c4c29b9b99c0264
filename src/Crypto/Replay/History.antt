-- ===== src/Crypto/Replay/History.antt =====
-- internal/crypto/crypto.go: what the replay window promises over a whole sequence of packets.
use supervpn.Base.{
  ℕ, ◌+◌, ◌≤◌, ◌<◌, ◌≡◌, ◌≢◌, refl, ap, ◌∙◌, sym, List, [], ◌∷◌, arith, max, true, false,
}
use supervpn.Crypto.Replay.{ReplayWindow, initial, check}
use supervpn.Crypto.Replay.Spec.{contains, highest, remember, refused, fresh}
use supervpn.Crypto.Replay.Refine.{Represents, check-remember, initial-Represents}

-- The state after a sequence of counters.
unfoldable pub after : ReplayWindow → List ℕ → ReplayWindow
after w [] = w
after w (c ∷ cs) = after (check w c).1 cs

-- What the history keeps.
remembered : List ℕ → List ℕ → List ℕ
remembered accepted [] = accepted
remembered accepted (c ∷ cs) = remembered (remember accepted c).1 cs

after-Represents :
    (w : ReplayWindow) (accepted cs : List ℕ)
    → Represents w accepted
    → Represents (after w cs) (remembered accepted cs)
unfolding after remembered
after-Represents w accepted [] r = r
after-Represents w accepted (c ∷ cs) r =
    after-Represents (check w c).1 (remember accepted c).1 cs (check-remember w accepted c r).1

remembered_keeps :
    (accepted cs : List ℕ) (c : ℕ)
    → contains accepted c ≡ true
    → contains (remembered accepted cs) c ≡ true
unfolding remembered remember
remembered_keeps accepted [] c h = h
remembered_keeps accepted (d ∷ cs) c h =
    ground (arith, remembered_keeps (d ∷ accepted) cs c, remembered_keeps accepted cs c)

accepted_counter :
    (accepted : List ℕ) (c : ℕ)
    → (remember accepted c).0 ≡ true
    → contains (remember accepted c).1 c ≡ true
unfolding remember
accepted_counter accepted c h = ground arith

-- A counter that was accepted once is refused for ever after, whatever comes in between.
pub check-no_replay :
    (before between : List ℕ) (c : ℕ)
    → let (first, w) = check (after initial before) c in
      first ≡ true → (check (after w between) c).0 ≡ false
check-no_replay before between c first =
    let r = after-Represents initial [] before initial-Represents in
    let (same, r') = check-remember _ _ c r in
    let kept = remembered_keeps _ between c (accepted_counter _ c (sym same ∙ first)) in
    let later = check-remember _ _ c (after-Represents _ _ between r') in
    later.0 ∙ ap (λ p. p.0) (refused _ c kept)

-- The history holds only counters that were offered.
remembered_offered :
    (accepted cs : List ℕ) (c : ℕ)
    → contains accepted c ≡ false
    → contains cs c ≡ false
    → contains (remembered accepted cs) c ≡ false
unfolding remembered remember
remembered_offered accepted [] c h k = h
remembered_offered accepted (d ∷ cs) c h k =
    ground (arith, remembered_offered (d ∷ accepted) cs c, remembered_offered accepted cs c)

highest-remembered :
    (accepted cs : List ℕ) → highest (remembered accepted cs) ≤ max (highest accepted) (highest cs)
unfolding remembered remember
highest-remembered accepted [] = omega arith
highest-remembered accepted (d ∷ cs) =
    ground (arith, highest-remembered (d ∷ accepted) cs, highest-remembered accepted cs)

-- A counter other than 0 that is new and less than 512 behind all that were offered is accepted.
pub check-accepts :
    (before : List ℕ) (c : ℕ)
    → c ≢ 0
    → contains before c ≡ false
    → highest before < c + 512
    → (check (after initial before) c).0 ≡ true
check-accepts before c nz new near =
    let r = after-Represents initial [] before initial-Represents in
    (check-remember _ _ c r).0
    ∙ ap (λ p. p.0)
        (fresh (remembered [] before) c nz (omega (arith, highest-remembered [] before))
          (remembered_offered [] before c refl new))
