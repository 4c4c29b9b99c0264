-- ===== src/Bridge/Mss/Checksum.antt =====
-- internal/bridge/mssclamp.go: what fixChecksum16 does to the checksum.
use supervpn.Base.{
  ℕ, suc, ◌+◌, ◌*◌, ◌/◌, ◌%◌, ◌^◌, ◌≤◌, ◌<◌, ◌≡◌, refl, ltb, ◌==◌, arith, true, false, ok,
  Bool-cases, ltb→lt, ltb-false→le, ne→==-false, eq→==, inl, inr, ◌∙◌,
}
use supervpn.Bridge.Mss.{invert, fold_carry, fix_checksum16}

-- Four rounds are enough for a sum of three 16-bit numbers; the value modulo 2^16 - 1 stays.
fold_carry_small : (fuel sum : ℕ) → sum < 2 ^ 16 → fold_carry (suc fuel) sum ≡ ok sum
unfolding fold_carry
fold_carry_small fuel sum h =
    let none_left : (sum / 2 ^ 16 == 0) ≡ true = eq→== (sum / 2 ^ 16) 0 (omega arith) in
    rw none_left refl

fold_carry_step :
    (fuel sum : ℕ)
    → 2 ^ 16 ≤ sum
    → fold_carry (suc fuel) sum ≡ fold_carry fuel (sum % 2 ^ 16 + sum / 2 ^ 16)
unfolding fold_carry
fold_carry_step fuel sum h =
    let more : (sum / 2 ^ 16 == 0) ≡ false = ne→==-false (sum / 2 ^ 16) 0 (λ z. omega arith) in
    rw more refl

-- The loop on a sum below 2^16 + 3 and on one below 3 * 2^16.
fold_carry_low :
    (fuel sum : ℕ)
    → sum < 2 ^ 16 + 3
    → (s : ℕ) × (fold_carry (suc (suc fuel)) sum ≡ ok s)
      × (s < 2 ^ 16)
      × (s % 65_535 ≡ sum % 65_535)
fold_carry_low fuel sum h = elim (Bool-cases (ltb sum (2 ^ 16))) [
  | inl low ↦ (
    sum,
    fold_carry_small (suc fuel) sum (ltb→lt sum (2 ^ 16) low),
    ltb→lt sum (2 ^ 16) low,
    refl,
  )
  | inr high ↦
      let le = ltb-false→le sum (2 ^ 16) high in
      (
        sum % 2 ^ 16 + sum / 2 ^ 16,
        fold_carry_step (suc fuel) sum le
            ∙ fold_carry_small fuel (sum % 2 ^ 16 + sum / 2 ^ 16) (omega arith),
        omega arith,
        omega arith,
      )
]

fold_carry_ok :
    (sum : ℕ)
    → sum < 3 * 2 ^ 16
    → (s : ℕ) × (fold_carry 4 sum ≡ ok s) × (s < 2 ^ 16) × (s % 65_535 ≡ sum % 65_535)
fold_carry_ok sum h = elim (Bool-cases (ltb sum (2 ^ 16))) [
  | inl low ↦ (sum, fold_carry_small 3 sum (ltb→lt sum (2 ^ 16) low), ltb→lt sum (2 ^ 16) low, refl)
  | inr high ↦
      let le = ltb-false→le sum (2 ^ 16) high in
      let (s, e, lt, m) = fold_carry_low 1 (sum % 2 ^ 16 + sum / 2 ^ 16) (omega arith) in
      (s, fold_carry_step 3 sum le ∙ e, lt, omega arith)
]

-- The sum of the checksum and the changed word is the same modulo 2^16 - 1 before and after. The loop
-- ends within four rounds.
pub fix_checksum16_lem :
    (hc old_val new_val : ℕ)
    → hc < 2 ^ 16
    → old_val < 2 ^ 16
    → new_val < 2 ^ 16
    → (fixed : ℕ) × (fix_checksum16 hc old_val new_val ≡ ok fixed)
      × (fixed < 2 ^ 16)
      × ((fixed + new_val) % 65_535 ≡ (hc + old_val) % 65_535)
unfolding fix_checksum16
fix_checksum16_lem hc old_val new_val h o n =
    let (s, e, lt, m) =
      fold_carry_ok ((invert hc + invert old_val + new_val) % 2 ^ 32) (omega arith) in
    (invert (s % 2 ^ 16), rw e refl, omega arith, omega arith)
