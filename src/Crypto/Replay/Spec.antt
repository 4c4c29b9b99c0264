-- ===== src/Crypto/Replay/Spec.antt =====
-- The specification of the replay window: the list of the counters accepted so far, and no window.
use supervpn.Base.{
  ℕ, ◌+◌, ◌≤◌, ◌<◌, ◌≡◌, ◌≢◌, refl, List, [], ◌∷◌, ◌==◌, leb, if◌then◌else◌, arith, max, true,
  false, Bool, ◌||◌,
}

abbrev pub contains : List ℕ → ℕ → Bool
contains [] c = false
contains (a ∷ accepted) c = a == c || contains accepted c

abbrev pub highest : List ℕ → ℕ
highest [] = 0
highest (a ∷ accepted) = max a (highest accepted)

-- A counter is accepted when it is not 0, less than 512 below the highest one, and new.
unfoldable pub remember : List ℕ → ℕ → Bool × List ℕ
remember accepted c =
    if c == 0 || leb (c + 512) (highest accepted) || contains accepted c
    then (false, accepted)
    else (true, c ∷ accepted)

abbrev pub bit_of : Bool → ℕ
bit_of true = 1
bit_of false = 0

pub contains_above :
    (accepted : List ℕ) (c : ℕ) → highest accepted < c → contains accepted c ≡ false
contains_above [] c h = refl
contains_above (a ∷ accepted) c h = ground (arith, contains_above accepted c)

pub refused :
    (accepted : List ℕ) (c : ℕ)
    → contains accepted c ≡ true
    → remember accepted c ≡ (false, accepted)
unfolding remember
refused accepted c h = ground arith

pub too_old :
    (accepted : List ℕ) (c : ℕ)
    → c + 512 ≤ highest accepted
    → remember accepted c ≡ (false, accepted)
unfolding remember
too_old accepted c h = ground arith

pub fresh :
    (accepted : List ℕ) (c : ℕ)
    → c ≢ 0
    → highest accepted < c + 512
    → contains accepted c ≡ false
    → remember accepted c ≡ (true, c ∷ accepted)
unfolding remember
fresh accepted c nz near new = ground arith
