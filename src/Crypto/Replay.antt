-- ===== src/Crypto/Replay.antt =====
-- internal/crypto/crypto.go: ReplayWindow, a 512-bit sliding window over the packet counters.
pub mod Words
pub mod Window
pub mod Spec
pub mod Refine
pub mod History
use supervpn.Base.{
  ℕ, arith, ◌≡◌, ◌<◌, ◌≤◌, zero, suc, ◌+◌, ◌-◌, ◌*◌, ◌/◌, ◌%◌, ◌^◌, Bool, true, false, not, List,
  [], ◌∷◌, bit_and, bit_or, ltb, leb, ◌==◌, if◌then◌else◌, get_or, set, replicate,
}

abbrev pub replay_window_size : ℕ
replay_window_size = 512

-- `window` is an array of 8 words of 64 bits; bit 0 of word 0 stands for `max_seen`.
pub record ReplayWindow : Type 0 where
  pub max_seen : ℕ
  pub window : List ℕ

unfoldable pub initial : ReplayWindow
initial = record { max_seen = 0; window = replicate 8 0 }

-- The new word i, as the loop body computes it from the words that it finds.
unfoldable pub shifted_word : ℕ → ℕ → List ℕ → ℕ → ℕ
shifted_word word_shift bit_shift window i =
    if ltb i word_shift
    then 0
    else let src = i - word_shift in
      if bit_shift == 0
      then get_or window src 0
      else let high = get_or window src 0 * 2 ^ bit_shift % 2 ^ 64 in
        if ltb 0 src then bit_or high (get_or window (src - 1) 0 / 2 ^ (64 - bit_shift)) else high

-- `for i := 7; i >= 0; i--`, in place: the argument counts the words still to be written.
unfoldable pub shift_words : ℕ → ℕ → ℕ → List ℕ → List ℕ
shift_words zero word_shift bit_shift window = window
shift_words (suc i) word_shift bit_shift window =
    shift_words i word_shift bit_shift (set window i (shifted_word word_shift bit_shift window i))

unfoldable pub advance : ℕ → List ℕ → List ℕ
advance shift window =
    if leb replay_window_size shift
    then replicate 8 0
    else shift_words 8 (shift / 64) (shift % 64) window

-- A counter above all that were seen: the window moves, and its bit 0 is set.
unfoldable pub move_to : ReplayWindow → ℕ → ReplayWindow
move_to w counter =
    let moved = advance (counter - w.max_seen) w.window in
    record { max_seen = counter; window = set moved 0 (bit_or (get_or moved 0 0) 1) }

-- A counter that is `diff` below the highest one: its bit is tested and set.
unfoldable pub test_and_set : ReplayWindow → ℕ → Bool × ReplayWindow
test_and_set w diff =
    if leb replay_window_size diff
    then (false, w)
    else let word = diff / 64 in
      let mask = 2 ^ (diff % 64) in
      if not (bit_and (get_or w.window word 0) mask == 0)
      then (false, w)
      else (true, record w { window = set w.window word (bit_or (get_or w.window word 0) mask) })

unfoldable pub check : ReplayWindow → ℕ → Bool × ReplayWindow
unfolding move_to test_and_set advance shift_words shifted_word
check w counter =
    if counter == 0
    then (false, w)
    else if ltb w.max_seen counter
    then (true, move_to w counter)
    else test_and_set w (w.max_seen - counter)

-- A counter above all that were seen is accepted and becomes the highest.
pub check_ahead :
    (w : ReplayWindow) (c : ℕ)
    → w.max_seen < c
    → ((check w c).0 ≡ true) × ((check w c).1.max_seen ≡ c)
unfolding check
check_ahead w c h = ground arith

-- A counter that is 512 or more behind is refused.
pub check_behind : (w : ReplayWindow) (c : ℕ) → c + 512 ≤ w.max_seen → (check w c).0 ≡ false
unfolding check
check_behind w c h = ground arith
