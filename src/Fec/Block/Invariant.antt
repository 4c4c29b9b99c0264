-- ===== src/Fec/Block/Invariant.antt =====
-- internal/fec/fec.go: the invariant of a block.
use supervpn.Base.{
  ℕ, ◌+◌, ◌≤◌, ◌<◌, ◌≡◌, ap, ◌∙◌, sym, List, ◌==◌, length, arith, true, false, Option, none, get_or,
  get_or-replicate, length-replicate,
}
use supervpn.Fec.Shards.{is_some}
use supervpn.Fec.Block.{Block, fresh_block}

pub record IsBlock (k r : ℕ) (b : Block) : Type 0 where
  pub data_length : length b.data_slots ≡ k
  pub repair_length : length b.repair_slots ≡ r
  pub present_length : length b.present ≡ k + r
  pub data_flag : (i : ℕ) → i < k → get_or b.present i false ≡ is_some (get_or b.data_slots i none)
  pub repair_flag :
      (i : ℕ) → i < r → get_or b.present (k + i) false ≡ is_some (get_or b.repair_slots i none)
  pub in_range : b.delivered ≤ k
  pub before : (i : ℕ) → i < b.delivered → get_or b.present i false ≡ true
  pub finished : b.done ≡ (b.delivered == k)

pub fresh_block-IsBlock : (k r : ℕ) → 0 < k → IsBlock k r (fresh_block k r)
fresh_block-IsBlock k r h = record {
  data_length = length-replicate k none;
  repair_length = length-replicate r none;
  present_length = length-replicate (k + r) false;
  data_flag = λ i lt.
      get_or-replicate (k + r) i false
      ∙ sym (ap is_some (get_or-replicate {A = Option (List ℕ)} k i none));
  repair_flag = λ i lt.
      get_or-replicate (k + r) (k + i) false
      ∙ sym (ap is_some (get_or-replicate {A = Option (List ℕ)} r i none));
  in_range = omega arith;
  before = λ i lt. absurd (omega arith);
  finished = ground arith;
}

-- A step that keeps the invariant, the delivery position and the packets delivered so far.
pub record Keeps (k r : ℕ) (b b' : Block) : Type 0 where
  pub valid : IsBlock k r b'
  pub position : b'.delivered ≡ b.delivered
  pub mark : b'.done ≡ b.done
  pub earlier : (i : ℕ) → i < b.delivered → get_or b'.data_slots i none ≡ get_or b.data_slots i none
