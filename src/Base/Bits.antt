-- ===== src/Base/Bits.antt =====
-- The bit operations of Go's unsigned integers at variables: one step on the lowest binary digit,
-- the value of each bit of a result, and equality from the bits.
pub mod Fields
pub mod Xor
use Prim.Native.Nat.{
  ℕ, zero, suc, ◌+◌, ◌-◌, ◌*◌, ◌/◌, ◌%◌, ◌^◌, ◌≤◌, ◌<◌, min, max, bit_and, bit_or, bit_xor, bitwise,
  digits, bit_and-bitwise, bit_or-bitwise, bit_xor-bitwise, differ,
}
use mathlib.Core.Path.{◌≡◌, refl, ap, ◌∙◌}
use mathlib.Core.Logic.{◌≢◌}
use mathlib.Core.WellFounded as Recursion
use mathlib.Core.WellFounded.{Acc, WellFounded}
use native.Mathlib.Nat.{pow-suc}
use native.Mathlib.Omega.{arith}

Acc-below : (k n : ℕ) → n < k → Acc ◌<◌ n
Acc-below zero n h = elim h [ ]
Acc-below (suc k) n h = Acc.intro n (λ m hm. Acc-below k m (omega arith))

unfoldable pub lt_wf : WellFounded ◌<◌
unfolding Acc-below
lt_wf = record { apply = λ n. Acc-below (suc n) n (omega arith) }

module _ (rest : ℕ → ℕ) (op : ℕ → ℕ → ℕ) where
  -- Any fuel that covers the first number gives the same digits.
  digits-fuel : (f g x y : ℕ) → x ≤ f → x ≤ g → digits rest op f x y ≡ digits rest op g x y
  digits-fuel zero zero x y p q = refl
  digits-fuel zero (suc g) zero y p q = refl
  digits-fuel (suc f) zero zero y p q = refl
  digits-fuel (suc f) (suc g) zero y p q = refl
  digits-fuel zero g (suc x) y p q = absurd (omega arith)
  digits-fuel f zero (suc x) y p q = absurd (omega arith)
  digits-fuel (suc f) (suc g) (suc x) y p q =
      let same = digits-fuel f g (suc x / 2) (y / 2) (omega arith) (omega arith) in
      ap (λ (high : ℕ). high * 2 + op (suc x % 2) (y % 2)) same

  bitwise-suc :
      (x y : ℕ)
      → bitwise rest op (suc x) y ≡ bitwise rest op (suc x / 2) (y / 2) * 2 + op (suc x % 2) (y % 2)
  bitwise-suc x y =
      let same = digits-fuel x (suc x / 2) (suc x / 2) (y / 2) (omega arith) (omega arith) in
      ap (λ (high : ℕ). high * 2 + op (suc x % 2) (y % 2)) same

pub bit_xor_step : (x y : ℕ) → bit_xor x y ≡ differ (x % 2) (y % 2) + 2 * bit_xor (x / 2) (y / 2)
bit_xor_step zero y = simp bit_xor-bitwise (omega arith)
bit_xor_step (suc x) y =
    let step = bitwise-suc (λ high. high) differ x y in simp bit_xor-bitwise (omega (arith, step))

pub bit_or_step : (x y : ℕ) → bit_or x y ≡ max (x % 2) (y % 2) + 2 * bit_or (x / 2) (y / 2)
bit_or_step zero y = simp bit_or-bitwise (omega arith)
bit_or_step (suc x) y =
    let step = bitwise-suc (λ high. high) max x y in simp bit_or-bitwise (omega (arith, step))

pub bit_and_step : (x y : ℕ) → bit_and x y ≡ min (x % 2) (y % 2) + 2 * bit_and (x / 2) (y / 2)
bit_and_step zero y = simp bit_and-bitwise (omega arith)
bit_and_step (suc x) y =
    let step = bitwise-suc (λ high. 0) min x y in simp bit_and-bitwise (omega (arith, step))

-- Bit k of a number.
unfoldable pub test_bit : ℕ → ℕ → ℕ
test_bit w zero = w % 2
test_bit w (suc k) = test_bit (w / 2) k

pub test_bit-lt : (w k : ℕ) → test_bit w k < 2
unfolding test_bit
test_bit-lt w zero = omega arith
test_bit-lt w (suc k) = test_bit-lt (w / 2) k

pub test_bit-zero : (k : ℕ) → test_bit 0 k ≡ 0
unfolding test_bit
test_bit-zero zero = refl
test_bit-zero (suc k) = test_bit-zero k

bit_and-zero : (a : ℕ) → bit_and a 0 ≡ 0
bit_and-zero a = Recursion.induction lt_wf {C = λ n. bit_and n 0 ≡ 0} a λ n ih. cases n ih
  where
    cases : (n : ℕ) → ((m : ℕ) → m < n → bit_and m 0 ≡ 0) → bit_and n 0 ≡ 0
    cases zero ih = refl
    cases (suc n) ih = omega (arith, bit_and_step (suc n) 0, ih (suc n / 2) (omega arith))

pub bit_or-zero : (a : ℕ) → bit_or a 0 ≡ a
bit_or-zero a = Recursion.induction lt_wf {C = λ n. bit_or n 0 ≡ n} a λ n ih. cases n ih
  where
    cases : (n : ℕ) → ((m : ℕ) → m < n → bit_or m 0 ≡ m) → bit_or n 0 ≡ n
    cases zero ih = refl
    cases (suc n) ih = omega (arith, bit_or_step (suc n) 0, ih (suc n / 2) (omega arith))

bit_or-half : (a b : ℕ) → bit_or a b / 2 ≡ bit_or (a / 2) (b / 2)
bit_or-half a b = omega (arith, bit_or_step a b)

bit_and-half : (a b : ℕ) → bit_and a b / 2 ≡ bit_and (a / 2) (b / 2)
bit_and-half a b = omega (arith, bit_and_step a b)

pub differ-lt : (x y : ℕ) → x < 2 → y < 2 → differ x y < 2
differ-lt zero y h k = k
differ-lt (suc zero) zero h k = omega arith
differ-lt (suc zero) (suc zero) h k = omega arith
differ-lt (suc zero) (suc (suc y)) h k = absurd (omega arith)
differ-lt (suc (suc x)) y h k = absurd (omega arith)

bit_xor-half : (a b : ℕ) → bit_xor a b / 2 ≡ bit_xor (a / 2) (b / 2)
bit_xor-half a b =
    omega (arith, bit_xor_step a b, differ-lt (a % 2) (b % 2) (omega arith) (omega arith))

pub test_bit-or : (k a b : ℕ) → test_bit (bit_or a b) k ≡ max (test_bit a k) (test_bit b k)
unfolding test_bit
test_bit-or zero a b = omega (arith, bit_or_step a b)
test_bit-or (suc k) a b = rw bit_or-half (test_bit-or k (a / 2) (b / 2))

pub test_bit-and : (k a b : ℕ) → test_bit (bit_and a b) k ≡ min (test_bit a k) (test_bit b k)
unfolding test_bit
test_bit-and zero a b = omega (arith, bit_and_step a b)
test_bit-and (suc k) a b = rw bit_and-half (test_bit-and k (a / 2) (b / 2))

pub test_bit-xor : (k a b : ℕ) → test_bit (bit_xor a b) k ≡ differ (test_bit a k) (test_bit b k)
unfolding test_bit
test_bit-xor zero a b =
    omega (arith, bit_xor_step a b, differ-lt (a % 2) (b % 2) (omega arith) (omega arith))
test_bit-xor (suc k) a b = rw bit_xor-half (test_bit-xor k (a / 2) (b / 2))

-- Two numbers with the same bits are equal.
eq_of_bits_fuel : (n a b : ℕ) → a ≤ n → b ≤ n → ((k : ℕ) → test_bit a k ≡ test_bit b k) → a ≡ b
unfolding test_bit
eq_of_bits_fuel zero a b p q h = omega arith
eq_of_bits_fuel (suc n) a b p q h =
    omega
      (arith, h 0, eq_of_bits_fuel n (a / 2) (b / 2) (omega arith) (omega arith) (λ k. h (suc k)))

pub eq_of_bits : (a b : ℕ) → ((k : ℕ) → test_bit a k ≡ test_bit b k) → a ≡ b
eq_of_bits a b h = eq_of_bits_fuel (max a b) a b (omega arith) (omega arith) h

pub double_pow : (w s : ℕ) → w * 2 ^ suc s ≡ 2 * (w * 2 ^ s)
double_pow w s = omega (arith, ap (λ (t : ℕ). w * t) (pow-suc 2 s))

-- Shifts to the left and to the right, and the cut to n bits.
pub test_bit-shl_low : (s k w : ℕ) → k < s → test_bit (w * 2 ^ s) k ≡ 0
unfolding test_bit
test_bit-shl_low zero k w h = absurd (omega arith)
test_bit-shl_low (suc s) zero w h = omega (arith, double_pow w s)
test_bit-shl_low (suc s) (suc k) w h =
    rw (half (w * 2 ^ s) (w * 2 ^ suc s) (double_pow w s)) (test_bit-shl_low s k w (omega arith))
  where
    half : (x y : ℕ) → y ≡ 2 * x → y / 2 ≡ x
    half x y e = omega arith

pub test_bit-shl_high : (s k w : ℕ) → s ≤ k → test_bit (w * 2 ^ s) k ≡ test_bit w (k - s)
unfolding test_bit
test_bit-shl_high zero k w h = ground arith
test_bit-shl_high (suc s) zero w h = absurd (omega arith)
test_bit-shl_high (suc s) (suc k) w h =
    ap (λ t. test_bit t k) (omega (arith, double_pow w s))
    ∙ test_bit-shl_high s k w (omega arith)
    ∙ ground arith

div_div : (x p : ℕ) → x / (p * 2) ≡ x / 2 / p
div_div x p = grind arith

div_pow-suc : (w s : ℕ) → w / 2 ^ suc s ≡ w / 2 / 2 ^ s
div_pow-suc w s = rw (pow-suc 2 s) (div_div w (2 ^ s))

suc-add : (s k : ℕ) → suc (s + k) ≡ suc s + k
suc-add s k = omega arith

pub test_bit-shr : (s k w : ℕ) → test_bit (w / 2 ^ s) k ≡ test_bit w (s + k)
unfolding test_bit
test_bit-shr zero k w = ground arith
test_bit-shr (suc s) k w =
    ap (λ t. test_bit t k) (div_pow-suc w s)
    ∙ test_bit-shr s k (w / 2)
    ∙ ap (test_bit w) (suc-add s k)

mod_half : (w p : ℕ) → w % (p * 2) / 2 ≡ w / 2 % p
mod_half w p = grind arith

mod_even : (w p : ℕ) → w % (p * 2) % 2 ≡ w % 2
mod_even w p = grind arith

pub test_bit-mod : (n k w : ℕ) → k < n → test_bit (w % 2 ^ n) k ≡ test_bit w k
unfolding test_bit
test_bit-mod zero k w h = absurd (omega arith)
test_bit-mod (suc n) zero w h = rw (pow-suc 2 n) (mod_even w (2 ^ n))
test_bit-mod (suc n) (suc k) w h =
    ap (λ t. test_bit t k) (rw (pow-suc 2 n) (mod_half w (2 ^ n)))
    ∙ test_bit-mod n k (w / 2) (omega arith)

-- A single bit.
pub test_bit-two_pow_self : (k : ℕ) → test_bit (2 ^ k) k ≡ 1
unfolding test_bit
test_bit-two_pow_self zero = refl
test_bit-two_pow_self (suc k) =
    ap (λ t. test_bit t k) (omega (arith, pow-suc 2 k)) ∙ test_bit-two_pow_self k

pub test_bit-two_pow_ne : (s k : ℕ) → s ≢ k → test_bit (2 ^ s) k ≡ 0
unfolding test_bit
test_bit-two_pow_ne zero zero h = absurd (h refl)
test_bit-two_pow_ne zero (suc k) h = test_bit-zero k
test_bit-two_pow_ne (suc s) zero h = omega (arith, pow-suc 2 s)
test_bit-two_pow_ne (suc s) (suc k) h =
    ap (λ t. test_bit t k) (omega (arith, pow-suc 2 s))
    ∙ test_bit-two_pow_ne s k (λ e. h (ap suc e))

half_pow : (k : ℕ) → 2 ^ suc k / 2 ≡ 2 ^ k
half_pow k = omega (arith, pow-suc 2 k)

-- `x & (1 << k)` is not 0 exactly when bit k is set.
pub bit_and-two_pow : (k w : ℕ) → bit_and w (2 ^ k) ≡ test_bit w k * 2 ^ k
unfolding test_bit
bit_and-two_pow zero w = omega (arith, bit_and_step w 1, bit_and-zero (w / 2))
bit_and-two_pow (suc k) w = omega (
  arith,
  bit_and_step w (2 ^ suc k),
  pow-suc 2 k,
  half_pow k,
  ap (λ (t : ℕ). bit_and (w / 2) t) (half_pow k),
  bit_and-two_pow k (w / 2),
  ap (λ (t : ℕ). test_bit (w / 2) k * t) (pow-suc 2 k),
)

-- A number below 2 ^ n has no bit from n on.
pub test_bit_high : (n k w : ℕ) → w < 2 ^ n → n ≤ k → test_bit w k ≡ 0
unfolding test_bit
test_bit_high zero k w h le = ap (λ t. test_bit t k) (omega arith) ∙ test_bit-zero k
test_bit_high (suc n) zero w h le = absurd (omega arith)
test_bit_high (suc n) (suc k) w h le =
    test_bit_high n k (w / 2) (omega (arith, pow-suc 2 n)) (omega arith)
