-- ===== src/Fec/Block/History.antt =====
-- internal/fec/fec.go: what the packets of a block do to it, one after the other.
use supervpn.Base.{
  ℕ, suc, ◌+◌, ◌-◌, ◌<◌, ◌≡◌, ◌≢◌, refl, ap, ◌∙◌, sym, List, [], ◌∷◌, ◌++◌, ltb, length, arith,
  true, Bool, Option, none, some, take, get_or, All, Bool-cases, inl, inr, length-append,
  get_or-append_lt, get_or-append_ge, eq_of_get_or, get_or-take, length-take,
}
use supervpn.Fec.Shards.{ReedSolomon, is_some}
use supervpn.Fec.Block.{Block, fresh_block, receive}
use supervpn.Fec.Block.Invariant.{IsBlock, fresh_block-IsBlock}
use supervpn.Fec.Block.Moves.{out_of, Moves, stays-Moves, receive-Moves}

-- A packet of the block as it arrives: the time, its index, its bytes, and whether it is a repair.
pub record Arrival : Type 0 where
  pub now : ℕ
  pub idx : ℕ
  pub pkt : List ℕ
  pub is_repair : Bool

-- The packets that the caller gets from a sequence of arrivals, and the block afterwards.
unfoldable pub run : ReedSolomon → ℕ → ℕ → List Arrival → Block → List (Option (List ℕ)) × Block
run rs k r [] b = ([], b)
run rs k r (a ∷ arrivals) b =
    let (res, c) = receive rs k r a.now a.idx a.pkt a.is_repair b in
    let (out, d) = run rs k r arrivals c in (out_of res ++ out, d)

same_slot :
    (slots : List (Option (List ℕ))) {i j : ℕ} → i ≡ j → get_or slots i none ≡ get_or slots j none
same_slot slots e = ap (λ n. get_or slots n none) e

then-Moves :
    (k r : ℕ) (b c d : Block) (out out' : List (Option (List ℕ)))
    → Moves k r b out c
    → Moves k r c out' d
    → Moves k r b (out ++ out') d
then-Moves k r b c d out out' v w = record {
  valid = w.valid;
  advance = omega (arith, v.advance, w.advance, length-append {0} out out');
  items = λ i lt. elim (Bool-cases (ltb i (length out))) [
    | inl first ↦
        get_or-append_lt out out' i none (ground arith)
        ∙ v.items i (ground arith)
        ∙ sym (w.earlier (b.delivered + i) (ground (arith, v.advance)))
    | inr second ↦
        get_or-append_ge out out' i none (ground arith)
        ∙ w.items (i - length out) (ground (arith, length-append {0} out out'))
        ∙ same_slot d.data_slots (ground (arith, v.advance))
  ];
  earlier = λ i lt. w.earlier i (omega (arith, v.advance)) ∙ v.earlier i lt;
}

pub run-Moves :
    (rs : ReedSolomon) (k r : ℕ) (arrivals : List Arrival) (b : Block)
    → 0 < k
    → IsBlock k r b
    → Moves k r b (run rs k r arrivals b).0 (run rs k r arrivals b).1
unfolding run
run-Moves rs k r [] b pos v = stays-Moves k r b v
run-Moves rs k r (a ∷ arrivals) b pos v =
    let m = receive-Moves rs k r a.now a.idx a.pkt a.is_repair b pos v in
    then-Moves k r b _ _ _ _ m (run-Moves rs k r arrivals _ pos m.valid)

slots-All :
    (out : List (Option (List ℕ)))
    → ((i : ℕ) → i < length out → is_some (get_or out i none) ≡ true)
    → All (λ s. s ≢ none) out
slots-All [] h = tt
slots-All (none ∷ out) h = let e = h 0 (omega arith) in cc
slots-All (some p ∷ out) h = ((λ e. cc), slots-All out (λ i lt. h (suc i) (omega arith)))

-- The packets delivered so far are the slots in front of the delivery position.
pub record IsPrefix (out : List (Option (List ℕ))) (b : Block) : Type 0 where
  pub in_order : out ≡ take b.delivered b.data_slots
  pub all_of_them : length out ≡ b.delivered
  pub nonempty : All (λ s. s ≢ none) out

from_start :
    (k r : ℕ) (b c : Block) (out : List (Option (List ℕ)))
    → b.delivered ≡ 0
    → Moves k r b out c
    → IsPrefix out c
from_start k r b c out start m = record {
  in_order =
      eq_of_get_or out (take c.delivered c.data_slots) none
        (omega (
          arith,
          m.advance,
          length-take {0} c.delivered c.data_slots,
          m.valid.data_length,
          m.valid.in_range,
        ))
        (λ i lt.
          slot i lt ∙ sym (get_or-take c.delivered c.data_slots i none (omega (arith, m.advance))));
  all_of_them = omega (arith, m.advance);
  nonempty = slots-All out (λ i lt.
      ap is_some (slot i lt)
      ∙ sym (m.valid.data_flag i (omega (arith, m.advance, m.valid.in_range)))
      ∙ m.valid.before i (omega (arith, m.advance)));
}
  where
    slot : (i : ℕ) → i < length out → get_or out i none ≡ get_or c.data_slots i none
    slot i lt = m.items i lt ∙ same_slot c.data_slots (omega arith)

-- Whatever one block of k > 0 data packets receives, in any order and with any index, the caller
-- gets the data slots from the first one on, each one once and in order, and none of them is empty:
-- what it got in all is the first `delivered` slots.
pub run-IsPrefix :
    (rs : ReedSolomon) (k r : ℕ) (arrivals : List Arrival)
    → 0 < k
    → IsPrefix (run rs k r arrivals (fresh_block k r)).0 (run rs k r arrivals (fresh_block k r)).1
run-IsPrefix rs k r arrivals pos =
    from_start k r (fresh_block k r) _ _ refl
      (run-Moves rs k r arrivals (fresh_block k r) pos (fresh_block-IsBlock k r pos))
