-- ===== src/Crypto/Replay/Window.antt =====
-- internal/crypto/crypto.go: the window after it has moved, and after one bit of it is set.
use supervpn.Base.{
  ℕ, ◌-◌, ◌*◌, ◌/◌, ◌%◌, ◌^◌, ◌<◌, ◌≡◌, refl, ◌∙◌, List, bit_or, ltb, ◌==◌, leb, if◌then◌else◌,
  get_or, set, replicate, arith, inl, inr, Bool-cases, length-set, get_or-set_self, get_or-set_ne,
  get_or-set_out, get_or-replicate,
}
use supervpn.Base.Bits.{
  test_bit-or, test_bit-lt, test_bit-zero, test_bit-two_pow_self, test_bit-two_pow_ne,
}
use supervpn.Base.Bits.Fields.{bit_or-lt, two_pow-lt}
use supervpn.Crypto.Replay.{shifted_word, shift_words, advance}
use supervpn.Crypto.Replay.Words.{
  IsWindow, bit_at, length-shift_words, get_or-shift_words, word_bits_low, word_bits_high,
}

shifted_word-lt :
    (ws bs : ℕ) (window : List ℕ) (i : ℕ) → IsWindow window → shifted_word ws bs window i < 2 ^ 64
unfolding shifted_word
shifted_word-lt ws bs window i v = ground (
  arith,
  v.words (i - ws),
  v.words (i - ws - 1),
  bit_or-lt 64 (get_or window (i - ws) 0 * 2 ^ bs % 2 ^ 64)
      (get_or window (i - ws - 1) 0 / 2 ^ (64 - bs)),
)

shift_words-IsWindow :
    (ws bs : ℕ) (window : List ℕ) → IsWindow window → IsWindow (shift_words 8 ws bs window)
shift_words-IsWindow ws bs window v = record {
  eight = length-shift_words ws bs 8 window ∙ v.eight;
  words = λ i. ground (
    arith,
    get_or-shift_words ws bs 8 window i,
    shifted_word-lt ws bs window i v,
    v.words i,
    v.eight,
  );
}

pub initial-IsWindow : IsWindow (replicate 8 0)
initial-IsWindow = record {
  eight = refl;
  words = λ i. omega (arith, get_or-replicate {A = ℕ} 8 i 0);
}

pub advance-IsWindow :
    (shift : ℕ) (window : List ℕ) → IsWindow window → IsWindow (advance shift window)
unfolding advance
advance-IsWindow shift window v = elim (Bool-cases (leb 512 shift)) [
  | inl far ↦ rw far initial-IsWindow
  | inr near ↦ rw near (shift_words-IsWindow (shift / 64) (shift % 64) window v)
]

-- A shift moves every bit up by its distance, and clears the bits below.
pub bit_at-advance :
    (shift : ℕ) (window : List ℕ) (k : ℕ)
    → IsWindow window
    → k < 512
    → bit_at (advance shift window) k ≡ (if ltb k shift then 0 else bit_at window (k - shift))
unfolding advance
bit_at-advance shift window k v h = elim (Bool-cases (leb 512 shift)) [
  | inl far ↦ rw far (ground (arith, get_or-replicate {A = ℕ} 8 (k / 64) 0, test_bit-zero (k % 64)))
  | inr near ↦ rw near (
      ground (
        arith,
        get_or-shift_words (shift / 64) (shift % 64) 8 window (k / 64),
        v.eight,
        word_bits_low (shift / 64) (shift % 64) window v (omega arith) (k / 64) (k % 64),
        word_bits_high (shift / 64) (shift % 64) window v (omega arith) (k / 64) (k % 64),
      ))
]

abbrev pub mark : List ℕ → ℕ → List ℕ
mark window d = set window (d / 64) (bit_or (get_or window (d / 64) 0) (2 ^ (d % 64)))

pub mark-IsWindow : (window : List ℕ) (d : ℕ) → IsWindow window → IsWindow (mark window d)
mark-IsWindow window d v = record {
  eight = length-set window _ _ ∙ v.eight;
  words = λ i. ground (
    arith,
    v.eight,
    v.words i,
    v.words (d / 64),
    get_or-set_self window (d / 64) (bit_or (get_or window (d / 64) 0) (2 ^ (d % 64))) 0,
    get_or-set_ne window (d / 64) i (bit_or (get_or window (d / 64) 0) (2 ^ (d % 64))) 0,
    get_or-set_out window (d / 64) i (bit_or (get_or window (d / 64) 0) (2 ^ (d % 64))) 0,
    bit_or-lt 64 (get_or window (d / 64) 0) (2 ^ (d % 64)),
    two_pow-lt (d % 64) 64,
  );
}

pub bit_at-mark :
    (window : List ℕ) (d k : ℕ)
    → IsWindow window
    → d < 512
    → bit_at (mark window d) k ≡ (if d == k then 1 else bit_at window k)
bit_at-mark window d k v h = ground (
  arith,
  v.eight,
  get_or-set_self window (d / 64) (bit_or (get_or window (d / 64) 0) (2 ^ (d % 64))) 0,
  get_or-set_ne window (d / 64) (k / 64) (bit_or (get_or window (d / 64) 0) (2 ^ (d % 64))) 0,
  test_bit-or (k % 64) (get_or window (d / 64) 0) (2 ^ (d % 64)),
  test_bit-lt (get_or window (d / 64) 0) (k % 64),
  test_bit-two_pow_self (d % 64),
  test_bit-two_pow_ne (d % 64) (k % 64),
)
