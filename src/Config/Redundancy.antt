-- ===== src/Config/Redundancy.antt =====
-- internal/config/config.go and internal/fec/pipe.go: the configured redundancy makes a pipe.
use supervpn.Base.{ℕ, zero, suc, ◌≤◌, ◌<◌, ◌≡◌, refl, Bool, arith, ok}
use supervpn.Base.Ints.{pos}
use supervpn.Config.Defaults.{or_default, fec_with_defaults}
use supervpn.Fec.Shards.{ReedSolomon}
use supervpn.Fec.Pipe.{Pipe, new_pipe}
use supervpn.Fec.Pipe.Sent.{started, new_pipe_ok}

-- The natural number that a setting becomes.
abbrev set_to : ℕ → ℕ → ℕ
set_to zero d = d
set_to (suc n) d = suc n

-- Settings of at most 128 data and 32 repair packets, 0 included, give a pipe after WithDefaults, and it has
-- repair packets.
pub new_pipe-fec_with_defaults :
    (rs : ReedSolomon) (k r delay milliseconds : ℕ) (sends : Bool)
    → k ≤ 128
    → r ≤ 32
    → let f =
        fec_with_defaults (record { k = pos k; r = pos r; repair_delay = pos milliseconds }) in
      (k' r' : ℕ) × (p : Pipe) × (f.k ≡ pos k')
      × (f.r ≡ pos r')
      × (0 < r')
      × (new_pipe rs k' r' delay sends ≡ ok p)
unfolding fec_with_defaults
new_pipe-fec_with_defaults rs k r delay milliseconds sends hk hr = (
  set_to k 4,
  set_to r 2,
  started (set_to k 4) (set_to r 2) delay sends,
  number k 4,
  number r 2,
  some_repairs r,
  new_pipe_ok rs (set_to k 4) (set_to r 2) delay sends (some_data k) (few_data k hk)
      (few_repairs r hr),
)
  where
    number : (n d : ℕ) → or_default (pos n) d ≡ pos (set_to n d)
    number zero d = refl
    number (suc n) d = refl

    some_repairs : (n : ℕ) → 0 < set_to n 2
    some_repairs zero = omega arith
    some_repairs (suc n) = omega arith

    some_data : (n : ℕ) → 0 < set_to n 4
    some_data zero = omega arith
    some_data (suc n) = omega arith

    few_data : (n : ℕ) → n ≤ 128 → set_to n 4 ≤ 128
    few_data zero h = omega arith
    few_data (suc n) h = h

    few_repairs : (n : ℕ) → n ≤ 32 → set_to n 2 ≤ 32
    few_repairs zero h = omega arith
    few_repairs (suc n) h = h
