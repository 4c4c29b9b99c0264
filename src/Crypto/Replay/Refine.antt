-- ===== src/Crypto/Replay/Refine.antt =====
-- internal/crypto/crypto.go: ReplayWindow against the history of the counters that it accepted.
use supervpn.Base.{
  ℕ, suc, ◌+◌, ◌-◌, ◌/◌, ◌%◌, ◌^◌, ◌≤◌, ◌<◌, ◌≡◌, ◌≢◌, refl, ap₂, List, [], ◌∷◌, bit_and, ltb, ◌==◌,
  leb, get_or, arith, inl, inr, Bool-cases, true, false, ltb→lt, leb→le, eq→==, ltb-false→le, Bool,
  not,
}
use supervpn.Base.Bits.{test_bit, test_bit-lt, bit_and-two_pow}
use supervpn.Base.Bits.Fields.{two_pow-lt}
use native.Mathlib.Nat.{pow-suc}
use supervpn.Crypto.Replay.{ReplayWindow, initial, advance, move_to, test_and_set, check}
use supervpn.Crypto.Replay.Spec.{
  contains, highest, remember, bit_of, contains_above, refused, too_old, fresh,
}
use supervpn.Crypto.Replay.Words.{IsWindow, bit_at}
use supervpn.Crypto.Replay.Window.{
  advance-IsWindow, bit_at-advance, mark, mark-IsWindow, bit_at-mark, initial-IsWindow,
}

-- The window of an implementation state holds the last 512 counters of the history.
pub record Represents (w : ReplayWindow) (accepted : List ℕ) : Type 0 where
  pub words : IsWindow w.window
  pub top : w.max_seen ≡ highest accepted
  pub bits :
      (k : ℕ)
      → k < 512
      → k < w.max_seen
      → bit_at w.window k ≡ bit_of (contains accepted (w.max_seen - k))

move_to-Represents :
    (w : ReplayWindow) (accepted : List ℕ) (c : ℕ)
    → Represents w accepted
    → w.max_seen < c
    → Represents (move_to w c) (c ∷ accepted)
unfolding move_to
move_to-Represents w accepted c r h = record {
  words = mark-IsWindow moved 0 v;
  top = omega (arith, r.top);
  bits = λ k lt below. ground (
    arith,
    bit_at-mark moved 0 k v,
    bit_at-advance (c - w.max_seen) w.window k r.words lt,
    contains_above accepted (c - k),
    r.top,
    r.bits (k - (c - w.max_seen)),
  );
}
  where
    moved : List ℕ
    moved = advance (c - w.max_seen) w.window

    v : IsWindow moved
    v = advance-IsWindow (c - w.max_seen) w.window r.words

-- A bit that is masked out of its word.
masked : (w d : ℕ) → (bit_and w (2 ^ d) == 0) ≡ (test_bit w d == 0)
masked w d = ground (arith, bit_and-two_pow d w, test_bit-lt w d, two_pow_pos d)
  where
    two_pow_pos : (n : ℕ) → 0 < 2 ^ n
    two_pow_pos n = omega (arith, two_pow-lt 0 (suc n) (omega arith), pow-suc 2 n)

-- What one call of the code and one step of the specification have in common.
abbrev pub Agrees : Bool × ReplayWindow → Bool × List ℕ → Type 0
Agrees (b, w) (b', accepted) = (b ≡ b') × Represents w accepted

test_and_set-Represents :
    (w : ReplayWindow) (accepted : List ℕ) (c : ℕ)
    → Represents w accepted
    → c ≢ 0
    → c ≤ w.max_seen
    → w.max_seen < c + 512
    → contains accepted c ≡ false
    → Represents (record w { window = mark w.window (w.max_seen - c) }) (c ∷ accepted)
test_and_set-Represents w accepted c r nz le near new = record {
  words = mark-IsWindow w.window (w.max_seen - c) r.words;
  top = omega (arith, r.top);
  bits = λ k lt below.
      ground (arith, bit_at-mark w.window (w.max_seen - c) k r.words, r.bits k lt below);
}

-- The tested bit says whether the counter was accepted before.
tested :
    (w : ReplayWindow) (accepted : List ℕ) (c : ℕ)
    → Represents w accepted
    → c ≢ 0
    → c ≤ w.max_seen
    → w.max_seen < c + 512
    → not (bit_and (get_or w.window ((w.max_seen - c) / 64) 0) (2 ^ ((w.max_seen - c) % 64)) == 0)
      ≡ contains accepted c
tested w accepted c r nz le near =
    let d = w.max_seen - c in
    let back : w.max_seen - d ≡ c = omega arith in
    let bit = r.bits d (omega arith) (omega arith) in
    rw (masked (get_or w.window (d / 64) 0) (d % 64), bit, back) (set_bit (contains accepted c))
  where
    set_bit : (b : Bool) → not (bit_of b == 0) ≡ b
    set_bit true = refl
    set_bit false = refl

behind :
    (w : ReplayWindow) (accepted : List ℕ) (c : ℕ)
    → Represents w accepted
    → c ≢ 0
    → c ≤ w.max_seen
    → Agrees (test_and_set w (w.max_seen - c)) (remember accepted c)
unfolding test_and_set
behind w accepted c r nz le = elim (Bool-cases (leb 512 (w.max_seen - c))) [
  | inl far ↦
      rw (far, too_old accepted c (omega (arith, r.top, leb→le 512 (w.max_seen - c) far))) (refl, r)
  | inr close ↦
      let near : w.max_seen < c + 512 = ground arith in
      let test = tested w accepted c r nz le near in
      elim (Bool-cases (contains accepted c)) [
        | inl old ↦ rw (close, test, old, refused accepted c old) (refl, r)
        | inr new ↦
            rw (close, test, new, fresh accepted c nz (omega (arith, r.top)) new)
              (refl, test_and_set-Represents w accepted c r nz le near new)
      ]
]

pub check-remember :
    (w : ReplayWindow) (accepted : List ℕ) (c : ℕ)
    → Represents w accepted
    → Agrees (check w c) (remember accepted c)
unfolding check
check-remember w accepted c r = elim (Bool-cases (c == 0)) [
  | inl z ↦ rw z (unfold remember in rw z (refl, r))
  | inr nz ↦ elim (Bool-cases (ltb w.max_seen c)) [
    | inl ahead ↦
        let above = ltb→lt w.max_seen c ahead in
        rw
          (
            nz,
            ahead,
            fresh accepted c (λ e. cc (eq→== c 0 e)) (omega (arith, r.top))
                (contains_above accepted c (omega (arith, r.top))),
          )
          (refl, move_to-Represents w accepted c r above)
    | inr within ↦
        rw (nz, within)
          (behind w accepted c r (λ e. cc (eq→== c 0 e)) (ltb-false→le w.max_seen c within))
  ]
]

-- The answers to a sequence of counters, by the code and by the specification.
unfoldable pub answers : ReplayWindow → List ℕ → List Bool
answers w [] = []
answers w (c ∷ cs) = let (b, w') = check w c in b ∷ answers w' cs

unfoldable pub expected : List ℕ → List ℕ → List Bool
expected accepted [] = []
expected accepted (c ∷ cs) = let (b, accepted') = remember accepted c in b ∷ expected accepted' cs

answers-expected_from :
    (w : ReplayWindow) (accepted cs : List ℕ)
    → Represents w accepted
    → answers w cs ≡ expected accepted cs
unfolding answers expected
answers-expected_from w accepted [] r = refl
answers-expected_from w accepted (c ∷ cs) r =
    let (same, r') = check-remember w accepted c r in
    ap₂ ◌∷◌ same (answers-expected_from (check w c).1 (remember accepted c).1 cs r')

pub initial-Represents : Represents initial []
unfolding initial
initial-Represents = record {
  words = initial-IsWindow;
  top = refl;
  bits = λ k lt below. absurd (omega arith);
}

-- On every sequence of counters the 512-bit window answers as the unbounded history does.
pub answers-expected : (cs : List ℕ) → answers initial cs ≡ expected [] cs
answers-expected cs = answers-expected_from initial [] cs initial-Represents
