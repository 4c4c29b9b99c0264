-- ===== src/Base/Bits/Xor.antt =====
-- `^` is commutative, associative and its own inverse, and stays in its width.
use Prim.Native.Nat.{ℕ, zero, suc, ◌+◌, ◌/◌, ◌%◌, ◌^◌, ◌<◌, bit_xor, differ}
use mathlib.Core.Path.{◌≡◌, refl}
use native.Mathlib.Nat.{pow-suc}
use native.Mathlib.Omega.{arith}
use supervpn.Base.Bits.{
  bit_xor_step, test_bit, test_bit-lt, test_bit-xor, test_bit-zero, eq_of_bits, differ-lt,
}

differ_mod : (x y : ℕ) → x < 2 → y < 2 → differ x y ≡ (x + y) % 2
differ_mod zero zero h k = refl
differ_mod zero (suc zero) h k = refl
differ_mod (suc zero) zero h k = refl
differ_mod (suc zero) (suc zero) h k = refl
differ_mod x (suc (suc y)) h k = absurd (omega arith)
differ_mod (suc (suc x)) y h k = absurd (omega arith)

test_bit-xor_mod : (a b k : ℕ) → test_bit (bit_xor a b) k ≡ (test_bit a k + test_bit b k) % 2
test_bit-xor_mod a b k =
    rw test_bit-xor (differ_mod (test_bit a k) (test_bit b k) (test_bit-lt a k) (test_bit-lt b k))

pub bit_xor_comm : (a b : ℕ) → bit_xor a b ≡ bit_xor b a
bit_xor_comm a b =
    eq_of_bits (bit_xor a b) (bit_xor b a)
      λ k. omega (arith, test_bit-xor_mod a b k, test_bit-xor_mod b a k)

pub bit_xor_assoc : (a b c : ℕ) → bit_xor (bit_xor a b) c ≡ bit_xor a (bit_xor b c)
bit_xor_assoc a b c = eq_of_bits (bit_xor (bit_xor a b) c) (bit_xor a (bit_xor b c)) λ k. omega (
  arith,
  test_bit-xor_mod (bit_xor a b) c k,
  test_bit-xor_mod a b k,
  test_bit-xor_mod a (bit_xor b c) k,
  test_bit-xor_mod b c k,
)

pub bit_xor_self : (a : ℕ) → bit_xor a a ≡ 0
bit_xor_self a =
    eq_of_bits (bit_xor a a) 0 λ k. omega (arith, test_bit-xor_mod a a k, test_bit-zero k)

pub bit_xor-zero : (a : ℕ) → bit_xor a 0 ≡ a
bit_xor-zero a =
    eq_of_bits (bit_xor a 0) a
      λ k. omega (arith, test_bit-xor_mod a 0 k, test_bit-zero k, test_bit-lt a k)

pub bit_xor_cancel : (a b : ℕ) → bit_xor (bit_xor a b) b ≡ a
bit_xor_cancel a b = rw (bit_xor_assoc a b b, bit_xor_self b) (bit_xor-zero a)

pub bit_xor-lt : (k a b : ℕ) → a < 2 ^ k → b < 2 ^ k → bit_xor a b < 2 ^ k
bit_xor-lt zero a b p q = ground (arith, bit_xor-zero a)
bit_xor-lt (suc k) a b p q = omega (
  arith,
  bit_xor_step a b,
  differ-lt (a % 2) (b % 2) (omega arith) (omega arith),
  pow-suc 2 k,
  bit_xor-lt k (a / 2) (b / 2) (omega (arith, pow-suc 2 k)) (omega (arith, pow-suc 2 k)),
)
