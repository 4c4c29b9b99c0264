-- ===== src/Fec/Block/Restore.antt =====
-- internal/fec/fec.go: a recovery that succeeds returns a packet for every data slot.
use supervpn.Base.{
  ℕ, Option-cases, subst, length-append, length-take, zero, suc, ◌+◌, ◌≤◌, ◌<◌, ◌≡◌, ◌≢◌, refl, ap,
  ◌∙◌, List, [], ◌∷◌, ◌++◌, ◌==◌, length, arith, true, Option, none, some, take, set, get_or, All,
  length-set, get_or-set_self, get_or-set_ne, Bool-cases, inl, inr,
}
use mathlib.Core.List.{map}
use supervpn.Fec.Xor.{Missing, many, at, find_missing, xor_others, xor_recover, recovered_from}
use supervpn.Fec.Shards.{ReedSolomon, is_some, copy_slot, max_slot_from, rs_recover}
use supervpn.Fec.Block.{Block, first_slot, recover_slots}
use supervpn.Fec.Block.Invariant.{IsBlock}
use supervpn.Fec.Block.Refill.{Restores}

abbrev AllFilled : List (Option (List ℕ)) → Type 0
AllFilled slots = (j : ℕ) → j < length slots → is_some (get_or slots j none) ≡ true

-- The search that ends without a gap saw none, and one that ends with a gap saw no other.
no_gap :
    (slots : List (Option (List ℕ))) (i : ℕ) (found : Option ℕ) (m : Option ℕ)
    → find_missing i found slots ≡ at m
    → found ≢ none
    → AllFilled slots
unfolding find_missing
no_gap [] i found m e nn j h = absurd (omega arith)
no_gap (some p ∷ slots) i found m e nn zero h = refl
no_gap (some p ∷ slots) i found m e nn (suc j) h = no_gap slots (suc i) found m e nn j (omega arith)
no_gap (none ∷ slots) i none m e nn j h = absurd (nn refl)
no_gap (none ∷ slots) i (some q) m e nn j h = cc

found_kept :
    (slots : List (Option (List ℕ))) (i q m : ℕ)
    → find_missing i (some q) slots ≡ at (some m)
    → q ≡ m
unfolding find_missing
found_kept [] i q m e = cc
found_kept (some p ∷ slots) i q m e = found_kept slots (suc i) q m e
found_kept (none ∷ slots) i q m e = cc

none_kept : (slots : List (Option (List ℕ))) (i q : ℕ) → find_missing i (some q) slots ≢ at none
unfolding find_missing
none_kept [] i q e = cc
none_kept (some p ∷ slots) i q e = none_kept slots (suc i) q e
none_kept (none ∷ slots) i q e = cc

no_gap_none :
    (slots : List (Option (List ℕ))) (i : ℕ) → find_missing i none slots ≡ at none → AllFilled slots
unfolding find_missing
no_gap_none [] i e j h = absurd (omega arith)
no_gap_none (some p ∷ slots) i e zero h = refl
no_gap_none (some p ∷ slots) i e (suc j) h = no_gap_none slots (suc i) e j (omega arith)
no_gap_none (none ∷ slots) i e j h = absurd (none_kept slots (suc i) i e)

one_gap :
    (slots : List (Option (List ℕ))) (i m : ℕ)
    → find_missing i none slots ≡ at (some m)
    → (j : ℕ) → j < length slots
    → i + j ≢ m
    → is_some (get_or slots j none) ≡ true
unfolding find_missing
one_gap [] i m e j h ne = absurd (omega arith)
one_gap (some p ∷ slots) i m e zero h ne = refl
one_gap (some p ∷ slots) i m e (suc j) h ne =
    one_gap slots (suc i) m e j (omega arith) (λ q. ne (omega arith))
one_gap (none ∷ slots) i m e zero h ne = absurd (ne (omega (arith, found_kept slots (suc i) i m e)))
one_gap (none ∷ slots) i m e (suc j) h ne =
    no_gap slots (suc i) (some i) (some m) e (λ q. cc) j (omega arith)

some_eq : (a b : List (Option (List ℕ))) → some a ≡ some b → a ≡ b
some_eq a b e = cc

recovered_from-Restores :
    (k : ℕ) (x : Missing) (slots : List (Option (List ℕ))) (repair : List ℕ)
    (result : List (Option (List ℕ)))
    → length slots ≡ k
    → find_missing 0 none slots ≡ x
    → recovered_from x slots repair ≡ some result
    → Restores k result
unfolding recovered_from
recovered_from-Restores k many slots repair result len f e = cc
recovered_from-Restores k (at none) slots repair result len f e =
    subst (Restores k) (some_eq slots result e)
      (record { whole = len; all_there = λ i lt. no_gap_none slots 0 f i (omega arith) })
recovered_from-Restores k (at (some m)) slots repair result len f e =
    let v : List ℕ = xor_others 0 m repair slots in
    subst (Restores k) (some_eq (set slots m (some v)) result e) (record {
      whole = length-set slots m (some v) ∙ len;
      all_there = λ i lt. ground (
        arith,
        get_or-set_self slots m (some v) none,
        get_or-set_ne slots m i (some v) none,
        one_gap slots 0 m f i,
      );
    })

xor_recover-Restores :
    (k : ℕ) (slots : List (Option (List ℕ))) (repair : List ℕ) (result : List (Option (List ℕ)))
    → length slots ≡ k
    → xor_recover slots repair ≡ some result
    → Restores k result
unfolding xor_recover
xor_recover-Restores k slots repair result len e =
    recovered_from-Restores k (find_missing 0 none slots) slots repair result len refl e

All-get :
    (xs : List (Option (List ℕ))) (n i : ℕ)
    → All (λ s. s ≢ none) (take n xs)
    → n ≤ length xs
    → i < n
    → is_some (get_or (take n xs) i none) ≡ true
All-get xs zero i a le h = absurd (omega arith)
All-get [] (suc n) i a le h = absurd (omega arith)
All-get (none ∷ xs) (suc n) i a le h = absurd (a.0 refl)
All-get (some x ∷ xs) (suc n) zero a le h = refl
All-get (some x ∷ xs) (suc n) (suc i) a le h = All-get xs n i a.1 (omega arith) (omega arith)

length-map_slots :
    (n : ℕ) (slots : List (Option (List ℕ))) → length (map (copy_slot n) slots) ≡ length slots
length-map_slots n [] = refl
length-map_slots n (s ∷ slots) = ap suc (length-map_slots n slots)

rs_recover-Restores :
    (rs : ReedSolomon) (k r : ℕ) (slots repair result : List (Option (List ℕ)))
    → length slots ≡ k
    → length repair ≡ r
    → rs_recover rs k r slots repair ≡ some result
    → Restores k result
unfolding rs_recover
rs_recover-Restores rs k r slots repair result ls lr e =
    let n : ℕ = max_slot_from (max_slot_from 0 slots) repair in
    let shards : List (Option (List ℕ)) = map (copy_slot n) slots ++ map (copy_slot n) repair in
    elim (Option-cases (rs.reconstruct k r shards)) [
      | inl f ↦ let g = rw (f, rs_recover) at e in cc
      | inr (res, f) ↦
          let (le, a) =
            rs.reconstruct_fills k r shards res
              (omega (
                arith,
                length-append {0} (map (copy_slot n) slots) (map (copy_slot n) repair),
                length-map_slots n slots,
                length-map_slots n repair,
              ))
              f in
          subst (Restores k) (some_eq (take k res) result (rw (f, rs_recover) at e)) (record {
            whole = omega (arith, length-take {0} k res);
            all_there = λ i lt. All-get res k i a le lt;
          })
    ]

pub recover_slots-Restores :
    (rs : ReedSolomon) (k r : ℕ) (b : Block) (result : List (Option (List ℕ)))
    → IsBlock k r b
    → recover_slots rs k r b ≡ some result
    → Restores k result
unfolding recover_slots
recover_slots-Restores rs k r b result v e = elim (Bool-cases (r == 1)) [
  | inl one ↦
      xor_recover-Restores k b.data_slots (first_slot b.repair_slots) result v.data_length
        (rw one at e)
  | inr more ↦
      rs_recover-Restores rs k r b.data_slots b.repair_slots result v.data_length v.repair_length
        (rw more at e)
]
