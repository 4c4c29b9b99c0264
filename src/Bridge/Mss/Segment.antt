-- ===== src/Bridge/Mss/Segment.antt =====
-- internal/bridge/mssclamp.go: the sum of the 16-bit words of a TCP segment, which the Internet checksum is
-- made of, and what a changed word does to it.
use supervpn.Base.{
  ℕ, zero, suc, ◌+◌, ◌*◌, ◌/◌, ◌%◌, ◌^◌, ◌<◌, ◌≡◌, List, [], ◌∷◌, length, arith, ap, ◌∙◌, drop, set,
  get_or,
}
use supervpn.Bridge.Mss.{put_u16_at}

-- The sum of the words; an odd last byte counts as the high half of one.
abbrev pub sum16 : List ℕ → ℕ
sum16 [] = 0
sum16 (x ∷ []) = x * 256
sum16 (x ∷ y ∷ b) = x * 256 + y + sum16 b

sum16-set :
    (start n hi lo i : ℕ) (b : List ℕ)
    → i ≡ start + 2 * n
    → suc i < length b
    → sum16 (drop start (set (set b i hi) (suc i) lo)) + (get_or b i 0 * 256 + get_or b (suc i) 0)
      ≡ sum16 (drop start b) + (hi * 256 + lo)
sum16-set zero zero hi lo zero [] e h = absurd (omega arith)
sum16-set zero zero hi lo zero (x ∷ []) e h = absurd (omega arith)
sum16-set zero zero hi lo zero (x ∷ y ∷ b) e h = omega arith
sum16-set zero zero hi lo (suc i) b e h = absurd (omega arith)
sum16-set zero (suc n) hi lo zero b e h = absurd (omega arith)
sum16-set zero (suc n) hi lo (suc zero) b e h = absurd (omega arith)
sum16-set zero (suc n) hi lo (suc (suc i)) [] e h = absurd (omega arith)
sum16-set zero (suc n) hi lo (suc (suc i)) (x ∷ []) e h = absurd (omega arith)
sum16-set zero (suc n) hi lo (suc (suc i)) (x ∷ y ∷ b) e h =
    omega (arith, sum16-set zero n hi lo i b (omega arith) (omega arith))
sum16-set (suc start) n hi lo zero b e h = absurd (omega arith)
sum16-set (suc start) n hi lo (suc i) [] e h = absurd (omega arith)
sum16-set (suc start) n hi lo (suc i) (x ∷ b) e h =
    sum16-set start n hi lo i b (omega arith) (omega arith)

-- A word that starts at an even offset of the segment.
pub sum16-put_u16_at :
    (start n i v : ℕ) (b : List ℕ)
    → i ≡ start + 2 * n
    → i + 1 < length b
    → v < 2 ^ 16
    → sum16 (drop start (put_u16_at i v b)) + (get_or b i 0 * 256 + get_or b (i + 1) 0)
      ≡ sum16 (drop start b) + v
unfolding put_u16_at
sum16-put_u16_at start n i v b e h small = rw next (
    sum16-set start n (v / 256 % 256) (v % 256) i b e (omega arith)
    ∙ ap (λ w. sum16 (drop start b) + w) whole)
  where
    next : i + 1 ≡ suc i
    next = omega arith

    whole : v / 256 % 256 * 256 + v % 256 ≡ v
    whole = omega arith
