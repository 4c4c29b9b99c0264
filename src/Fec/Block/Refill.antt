-- ===== src/Fec/Block/Refill.antt =====
-- internal/fec/fec.go: what recovery writes into a block.
use supervpn.Base.{
  ℕ, le→ltb-false, lt→ltb, zero, suc, ◌+◌, ◌<◌, ◌≡◌, refl, ap, ◌∙◌, List, [], ◌∷◌, ltb, ◌||◌,
  if◌then◌else◌, length, arith, true, false, Bool, Option, none, get_or,
}
use supervpn.Fec.Shards.{is_some}
use supervpn.Fec.Block.{Block, fill_data, fill_present}
use supervpn.Fec.Block.Invariant.{IsBlock, Keeps}

ltb-suc : (i n : ℕ) → ltb i n ≡ ltb (suc i) (suc n)
ltb-suc i n = ground arith

-- Recovery fills the empty slots and leaves the others.
length-fill_data :
    (result : List (Option (List ℕ))) (present : List Bool) (slots : List (Option (List ℕ)))
    → length (fill_data result present slots) ≡ length slots
unfolding fill_data
length-fill_data [] present slots = refl
length-fill_data (x ∷ xs) present [] = refl
length-fill_data (x ∷ xs) [] (s ∷ slots) = refl
length-fill_data (x ∷ xs) (true ∷ present) (s ∷ slots) = ap suc (length-fill_data xs present slots)
length-fill_data (x ∷ xs) (false ∷ present) (s ∷ slots) = ap suc (length-fill_data xs present slots)

length-fill_present :
    (result : List (Option (List ℕ))) (present : List Bool)
    → length (fill_present result present) ≡ length present
unfolding fill_present
length-fill_present [] present = refl
length-fill_present (x ∷ xs) [] = refl
length-fill_present (x ∷ xs) (b ∷ present) = ap suc (length-fill_present xs present)

get_or-fill_data :
    (result : List (Option (List ℕ))) (present : List Bool) (slots : List (Option (List ℕ))) (i : ℕ)
    → i < length result
    → i < length present
    → i < length slots
    → get_or (fill_data result present slots) i none
      ≡ (if get_or present i false then get_or slots i none else get_or result i none)
unfolding fill_data
get_or-fill_data [] present slots i h p q = absurd (omega arith)
get_or-fill_data (x ∷ xs) [] slots i h p q = absurd (omega arith)
get_or-fill_data (x ∷ xs) (b ∷ present) [] i h p q = absurd (omega arith)
get_or-fill_data (x ∷ xs) (true ∷ present) (s ∷ slots) zero h p q = refl
get_or-fill_data (x ∷ xs) (false ∷ present) (s ∷ slots) zero h p q = refl
get_or-fill_data (x ∷ xs) (true ∷ present) (s ∷ slots) (suc i) h p q =
    get_or-fill_data xs present slots i (omega arith) (omega arith) (omega arith)
get_or-fill_data (x ∷ xs) (false ∷ present) (s ∷ slots) (suc i) h p q =
    get_or-fill_data xs present slots i (omega arith) (omega arith) (omega arith)

get_or-fill_present :
    (result : List (Option (List ℕ))) (present : List Bool) (i : ℕ)
    → i < length present
    → get_or (fill_present result present) i false
      ≡ (ltb i (length result) || get_or present i false)
unfolding fill_present
get_or-fill_present [] present i h = rw (le→ltb-false i 0 (omega arith))
get_or-fill_present (x ∷ xs) [] i h = absurd (omega arith)
get_or-fill_present (x ∷ xs) (b ∷ present) zero h = rw (lt→ltb 0 (suc (length xs)) (omega arith))
get_or-fill_present (x ∷ xs) (b ∷ present) (suc i) h =
    get_or-fill_present xs present i (omega arith)
    ∙ ap (λ t. t || get_or present i false) (ltb-suc i (length xs))

-- What recovery has to return: a packet for every data slot.
pub record Restores (k : ℕ) (result : List (Option (List ℕ))) : Type 0 where
  pub whole : length result ≡ k
  pub all_there : (i : ℕ) → i < k → is_some (get_or result i none) ≡ true

abbrev pub refilled : Block → List (Option (List ℕ)) → Block
refilled b result = record b {
  data_slots = fill_data result b.present b.data_slots;
  present = fill_present result b.present;
}

refilled-IsBlock :
    (k r : ℕ) (b : Block) (result : List (Option (List ℕ)))
    → IsBlock k r b
    → Restores k result
    → IsBlock k r (refilled b result)
refilled-IsBlock k r b result v w = record {
  data_length = length-fill_data result b.present b.data_slots ∙ v.data_length;
  repair_length = v.repair_length;
  present_length = length-fill_present result b.present ∙ v.present_length;
  data_flag = λ i lt. ground (
    arith,
    get_or-fill_present result b.present i,
    get_or-fill_data result b.present b.data_slots i,
    w.all_there i,
    v.data_flag i,
  );
  repair_flag =
      λ i lt. ground (arith, get_or-fill_present result b.present (k + i), v.repair_flag i);
  in_range = v.in_range;
  before = λ i lt. ground (arith, get_or-fill_present result b.present i, v.before i);
  finished = v.finished;
}

pub refilled-Keeps :
    (k r : ℕ) (b : Block) (result : List (Option (List ℕ)))
    → IsBlock k r b
    → b.done ≡ false
    → Restores k result
    → Keeps k r b (refilled b result)
refilled-Keeps k r b result v open_ w = record {
  valid = refilled-IsBlock k r b result v w;
  position = refl;
  mark = refl;
  earlier = λ i h. ground (
    arith,
    get_or-fill_data result b.present b.data_slots i,
    v.before i,
    v.in_range,
    w.whole,
    v.data_length,
    v.present_length,
  );
}
