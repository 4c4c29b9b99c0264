-- ===== src/Fec/Block/Deliver.antt =====
-- internal/fec/fec.go: the in-order delivery loop.
use supervpn.Base.{
  ℕ, zero, suc, ◌+◌, ◌-◌, ◌≤◌, ◌<◌, ◌≡◌, refl, ap, ◌∙◌, List, ◌∷◌, ◌||◌, length, arith, true, false,
  Bool, Option, none, get_or, Bool-cases, inl, inr,
}
use supervpn.Fec.Block.{Block, deliver_loop, deliver}
use supervpn.Fec.Block.Invariant.{IsBlock}

or_false : (b : Bool) → (b || false) ≡ b
or_false true = refl
or_false false = refl

-- What the loop of in-order delivery returns, from position d with `left` slots to go.
pub record Delivers (left d : ℕ) (slots : List (Option (List ℕ))) (present : List Bool)
    (result : List (Option (List ℕ)) × ℕ) : Type 0 where
  pub advance : result.1 ≡ d + length result.0
  pub bound : result.1 ≤ d + left
  pub items : (i : ℕ) → i < length result.0 → get_or result.0 i none ≡ get_or slots (d + i) none
  pub seen : (i : ℕ) → d ≤ i → i < result.1 → get_or present i false ≡ true
  pub gap : result.1 < d + left → get_or present result.1 false ≡ false

items_cons :
    (out slots : List (Option (List ℕ))) (d i : ℕ)
    → ((j : ℕ) → j < length out → get_or out j none ≡ get_or slots (suc d + j) none)
    → i < suc (length out)
    → get_or (get_or slots d none ∷ out) i none ≡ get_or slots (d + i) none
items_cons out slots d zero h lt = ap (λ n. get_or slots n none) (omega arith)
items_cons out slots d (suc i) h lt =
    h i (omega arith) ∙ ap (λ n. get_or slots n none) (omega arith)

pub deliver_loop-Delivers :
    (left d : ℕ) (slots : List (Option (List ℕ))) (present : List Bool)
    → Delivers left d slots present (deliver_loop left d slots present)
unfolding deliver_loop
deliver_loop-Delivers zero d slots present = record {
  advance = omega arith;
  bound = omega arith;
  items = λ i h. absurd (omega arith);
  seen = λ i h k. absurd (omega arith);
  gap = λ h. absurd (omega arith);
}
deliver_loop-Delivers (suc left) d slots present =
    let v = deliver_loop-Delivers left (suc d) slots present in
    elim (Bool-cases (get_or present d false)) [
      | inl here ↦ rw here (record {
        advance = omega (arith, v.advance);
        bound = omega (arith, v.bound);
        items = λ i lt. items_cons _ slots d i v.items lt;
        seen = λ i le lt. ground (arith, here, v.seen i);
        gap = λ lt. v.gap (omega arith);
      })
      | inr absent ↦ rw absent (record {
        advance = omega arith;
        bound = omega arith;
        items = λ i lt. absurd (omega arith);
        seen = λ i le lt. absurd (omega arith);
        gap = λ lt. absent;
      })
    ]

-- Delivery moves past every packet that is there in order, and returns exactly those.
pub deliver-IsBlock :
    (k r : ℕ) (b : Block) → 0 < k → IsBlock k r b → b.done ≡ false → IsBlock k r (deliver k r b).1
unfolding deliver
deliver-IsBlock k r b pos v open_ =
    let w = deliver_loop-Delivers (k - b.delivered) b.delivered b.data_slots b.present in
    record {
      data_length = v.data_length;
      repair_length = v.repair_length;
      present_length = v.present_length;
      data_flag = v.data_flag;
      repair_flag = v.repair_flag;
      in_range = omega (arith, w.bound, v.in_range);
      before = λ i lt. ground (arith, v.before i, w.seen i);
      finished = rw open_ (or_false _);
    }
