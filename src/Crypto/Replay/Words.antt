-- ===== src/Crypto/Replay/Words.antt =====
-- internal/crypto/crypto.go: what the shift of the eight words does to each of the 512 bits.
use supervpn.Base.{
  ℕ, zero, suc, ◌+◌, ◌-◌, ◌*◌, ◌/◌, ◌%◌, ◌^◌, ◌≤◌, ◌<◌, ◌≡◌, refl, ◌∙◌, List, ltb, if◌then◌else◌,
  length, get_or, set, arith, inl, inr, Bool-cases, length-set, ltb→lt, ltb-false→le,
  get_or-set_self, get_or-set_ne, le→ltb-false,
}
use supervpn.Base.Bits.{
  test_bit, test_bit-or, test_bit-shl_low, test_bit-shl_high, test_bit-shr, test_bit-mod,
  test_bit-zero, test_bit_high,
}
use supervpn.Crypto.Replay.{shifted_word, shift_words}

-- Eight words of 64 bits.
pub record IsWindow (window : List ℕ) : Type 0 where
  pub eight : length window ≡ 8
  pub words : (i : ℕ) → get_or window i 0 < 2 ^ 64

-- Bit k of the whole window.
abbrev pub bit_at : List ℕ → ℕ → ℕ
bit_at window k = test_bit (get_or window (k / 64) 0) (k % 64)

position_of : (q r k : ℕ) → k ≡ 64 * q + r → r < 64 → (k / 64 ≡ q) × (k % 64 ≡ r)
position_of q r k e h = omega arith

module _ (ws bs : ℕ) where
  -- A word depends only on the words up to its own index.
  shifted_word-set :
      (window : List ℕ) (i j v : ℕ)
      → j < i
      → shifted_word ws bs (set window i v) j ≡ shifted_word ws bs window j
  unfolding shifted_word
  shifted_word-set window i j v h =
      ground (arith, get_or-set_ne window i (j - ws) v 0, get_or-set_ne window i (j - ws - 1) v 0)

  pub length-shift_words :
      (n : ℕ) (window : List ℕ) → length (shift_words n ws bs window) ≡ length window
  unfolding shift_words
  length-shift_words zero window = refl
  length-shift_words (suc i) window =
      length-shift_words i (set window i (shifted_word ws bs window i))
      ∙ length-set window i (shifted_word ws bs window i)

  -- The loop in place writes what one simultaneous assignment would.
  pub get_or-shift_words :
      (n : ℕ) (window : List ℕ) (j : ℕ)
      → n ≤ length window
      → get_or (shift_words n ws bs window) j 0
        ≡ (if ltb j n then shifted_word ws bs window j else get_or window j 0)
  unfolding shift_words
  get_or-shift_words zero window j h = rw (le→ltb-false j 0 (omega arith))
  get_or-shift_words (suc i) window j h =
      let v = shifted_word ws bs window i in
      ground (
        arith,
        get_or-shift_words i (set window i v) j,
        length-set window i v,
        shifted_word-set window i j v,
        get_or-set_self window i v 0,
        get_or-set_ne window i j v 0,
      )

  -- The bits of one new word, by the position k in the whole window.
  module _ (window : List ℕ) (v : IsWindow window) (small : bs < 64) where
    pub word_bits_low :
        (j b : ℕ)
        → b < 64
        → 64 * j + b < 64 * ws + bs
        → test_bit (shifted_word ws bs window j) b ≡ 0
    unfolding shifted_word
    word_bits_low j b hb h = ground (
      arith,
      test_bit-zero b,
      test_bit-shl_low bs b (get_or window (j - ws) 0),
      test_bit-mod 64 b (get_or window (j - ws) 0 * 2 ^ bs),
      test_bit-or b (get_or window (j - ws) 0 * 2 ^ bs % 2 ^ 64)
          (get_or window (j - ws - 1) 0 / 2 ^ (64 - bs)),
    )

    word_bits_same :
        (j b : ℕ)
        → b < 64
        → bs ≤ b
        → ws ≤ j
        → test_bit (shifted_word ws bs window j) b ≡ test_bit (get_or window (j - ws) 0) (b - bs)
    unfolding shifted_word
    word_bits_same j b hb hs hw = ground (
      arith,
      test_bit-shl_high bs b (get_or window (j - ws) 0),
      test_bit-mod 64 b (get_or window (j - ws) 0 * 2 ^ bs),
      test_bit-or b (get_or window (j - ws) 0 * 2 ^ bs % 2 ^ 64)
          (get_or window (j - ws - 1) 0 / 2 ^ (64 - bs)),
      test_bit-shr (64 - bs) b (get_or window (j - ws - 1) 0),
      test_bit_high 64 (64 - bs + b) (get_or window (j - ws - 1) 0),
      v.words (j - ws - 1),
    )

    word_bits_carry :
        (j b : ℕ)
        → b < bs
        → ws < j
        → test_bit (shifted_word ws bs window j) b
          ≡ test_bit (get_or window (j - ws - 1) 0) (64 - bs + b)
    unfolding shifted_word
    word_bits_carry j b hs hw = ground (
      arith,
      test_bit-shl_low bs b (get_or window (j - ws) 0),
      test_bit-mod 64 b (get_or window (j - ws) 0 * 2 ^ bs),
      test_bit-or b (get_or window (j - ws) 0 * 2 ^ bs % 2 ^ 64)
          (get_or window (j - ws - 1) 0 / 2 ^ (64 - bs)),
      test_bit-shr (64 - bs) b (get_or window (j - ws - 1) 0),
    )

    pub word_bits_high :
        (j b : ℕ)
        → b < 64
        → 64 * ws + bs ≤ 64 * j + b
        → test_bit (shifted_word ws bs window j) b ≡ bit_at window (64 * j + b - (64 * ws + bs))
    word_bits_high j b hb h = elim (Bool-cases (ltb b bs)) [
      | inl under ↦
          let lt = ltb→lt b bs under in
          let at =
            position_of (j - ws - 1) (64 - bs + b) (64 * j + b - (64 * ws + bs)) (omega arith)
              (omega arith) in
          rw (at.0, at.1) (word_bits_carry j b lt (omega arith))
      | inr over ↦
          let le = ltb-false→le b bs over in
          let at =
            position_of (j - ws) (b - bs) (64 * j + b - (64 * ws + bs)) (omega arith)
              (omega arith) in
          rw (at.0, at.1) (word_bits_same j b hb le (omega arith))
    ]
