-- ===== src/Fec/Block/Place.antt =====
-- internal/fec/fec.go: a packet put into its slot keeps the invariant of the block.
use supervpn.Base.{
  ℕ, ◌+◌, ◌<◌, ◌≡◌, refl, ◌∙◌, List, leb, ◌||◌, arith, true, false, Bool, Option, none, some, set,
  get_or, length-set, get_or-set_self, get_or-set_ne, Bool-cases, inl, inr,
}
use supervpn.Fec.Block.{Block, place}
use supervpn.Fec.Block.Invariant.{IsBlock, Keeps}

-- The block after a packet was put into slot `idx`.
abbrev with_data : Block → ℕ → List ℕ → Block
with_data b idx pkt = record b {
  data_slots = set b.data_slots idx (some pkt);
  present = set b.present idx true;
}

abbrev with_repair : ℕ → Block → ℕ → List ℕ → Block
with_repair k b idx pkt = record b {
  repair_slots = set b.repair_slots idx (some pkt);
  present = set b.present (k + idx) true;
}

module _ (k r : ℕ) (b : Block) (idx : ℕ) (pkt : List ℕ) (v : IsBlock k r b) where
  with_data-IsBlock : idx < k → IsBlock k r (with_data b idx pkt)
  with_data-IsBlock lt = record {
    data_length = length-set b.data_slots idx (some pkt) ∙ v.data_length;
    repair_length = v.repair_length;
    present_length = length-set b.present idx true ∙ v.present_length;
    data_flag = λ i h. ground (
      arith,
      get_or-set_self b.present idx true false,
      get_or-set_ne b.present idx i true false,
      get_or-set_self b.data_slots idx (some pkt) none,
      get_or-set_ne b.data_slots idx i (some pkt) none,
      v.data_flag i,
    );
    repair_flag =
        λ i h. ground (arith, get_or-set_ne b.present idx (k + i) true false, v.repair_flag i);
    in_range = v.in_range;
    before = λ i h. ground (
      arith,
      get_or-set_self b.present idx true false,
      get_or-set_ne b.present idx i true false,
      v.before i,
    );
    finished = v.finished;
  }

  with_repair-IsBlock : idx < r → IsBlock k r (with_repair k b idx pkt)
  with_repair-IsBlock lt = record {
    data_length = v.data_length;
    repair_length = length-set b.repair_slots idx (some pkt) ∙ v.repair_length;
    present_length = length-set b.present (k + idx) true ∙ v.present_length;
    data_flag =
        λ i h. ground (arith, get_or-set_ne b.present (k + idx) i true false, v.data_flag i);
    repair_flag = λ i h. ground (
      arith,
      get_or-set_self b.present (k + idx) true false,
      get_or-set_ne b.present (k + idx) (k + i) true false,
      get_or-set_self b.repair_slots idx (some pkt) none,
      get_or-set_ne b.repair_slots idx i (some pkt) none,
      v.repair_flag i,
    );
    in_range = v.in_range;
    before = λ i h. ground (arith, get_or-set_ne b.present (k + idx) i true false, v.before i);
    finished = v.finished;
  }

abbrev pub Placed : ℕ → ℕ → Block → Option Block → Type 0
Placed k r b none = Unit {0}
Placed k r b (some b') = Keeps k r b b'

pub place-Placed :
    (k r idx : ℕ) (pkt : List ℕ) (is_repair : Bool) (b : Block)
    → IsBlock k r b
    → b.done ≡ false
    → Placed k r b (place k r idx pkt is_repair b)
unfolding place
place-Placed k r idx pkt true b v open_ =
    elim (Bool-cases (leb r idx || get_or b.present (k + idx) false)) [
      | inl stop ↦ rw stop tt
      | inr go ↦ rw go (record {
        valid = with_repair-IsBlock k r b idx pkt v (ground arith);
        position = refl;
        mark = refl;
        earlier = λ i h. refl;
      })
    ]
place-Placed k r idx pkt false b v open_ =
    elim (Bool-cases (leb k idx || get_or b.present idx false)) [
      | inl stop ↦ rw stop tt
      | inr go ↦ rw go (record {
        valid = with_data-IsBlock k r b idx pkt v (ground arith);
        position = refl;
        mark = refl;
        earlier =
            λ i h. ground (arith, get_or-set_ne b.data_slots idx i (some pkt) none, v.before i);
      })
    ]
