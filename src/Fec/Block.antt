-- ===== src/Fec/Block.antt =====
-- internal/fec/fec.go: decBlock, and what a packet does to the block that it belongs to. Times are in
-- nanoseconds, and `none` is the zero time.
pub mod Invariant
pub mod Place
pub mod Deliver
pub mod Refill
pub mod Restore
pub mod Moves
pub mod History
use supervpn.Base.{
  ℕ, zero, suc, ◌+◌, ◌-◌, ◌*◌, ◌%◌, ◌^◌, ◌≤◌, ◌<◌, ◌≡◌, ◌≢◌, refl, List, [], ◌∷◌, ◌++◌, ltb, leb,
  ◌==◌, ◌||◌, ◌&&◌, not, if◌then◌else◌, length, arith, true, false, Bool, Option, none, some, take,
  drop, set, get_or, replicate,
}
use supervpn.Fec.Xor.{xor_recover}
use supervpn.Fec.Shards.{ReedSolomon, rs_recover}

pub record Block : Type 0 where
  pub data_slots : List (Option (List ℕ))
  pub repair_slots : List (Option (List ℕ))
  pub present : List Bool
  pub count : ℕ
  pub delivered : ℕ
  pub done : Bool
  pub last_activity : Option ℕ

-- What `blockPool` hands out: `returnBlock` resets a block before it goes back.
abbrev pub fresh_block : ℕ → ℕ → Block
fresh_block k r = record {
  data_slots = replicate k none;
  repair_slots = replicate r none;
  present = replicate (k + r) false;
  count = 0;
  delivered = 0;
  done = false;
  last_activity = none;
}

abbrev pub count_of : Bool → List Bool → ℕ
count_of b [] = 0
count_of true (true ∷ bs) = suc (count_of true bs)
count_of true (false ∷ bs) = count_of true bs
count_of false (true ∷ bs) = count_of false bs
count_of false (false ∷ bs) = suc (count_of false bs)

-- `for i, pkt := range result { if !b.present[i] { ... } }`
unfoldable pub fill_data :
    List (Option (List ℕ)) → List Bool → List (Option (List ℕ)) → List (Option (List ℕ))
fill_data [] present slots = slots
fill_data (x ∷ xs) present [] = []
fill_data (x ∷ xs) [] slots = slots
fill_data (x ∷ xs) (true ∷ present) (s ∷ slots) = s ∷ fill_data xs present slots
fill_data (x ∷ xs) (false ∷ present) (s ∷ slots) = x ∷ fill_data xs present slots

unfoldable pub fill_present : List (Option (List ℕ)) → List Bool → List Bool
fill_present [] present = present
fill_present (x ∷ xs) [] = []
fill_present (x ∷ xs) (b ∷ present) = true ∷ fill_present xs present

-- The packets in order from `delivered` on, up to the first gap; the argument is `k - delivered`.
unfoldable pub deliver_loop :
    ℕ → ℕ → List (Option (List ℕ)) → List Bool → List (Option (List ℕ)) × ℕ
deliver_loop zero delivered slots present = ([], delivered)
deliver_loop (suc left) delivered slots present =
    let (out, last) = deliver_loop left (suc delivered) slots present in
    if get_or present delivered false
    then (get_or slots delivered none ∷ out, last)
    else ([], delivered)

-- `b.repair[0]`; xorRecover reads the bytes of a nil slot as none.
abbrev pub first_slot : List (Option (List ℕ)) → List ℕ
first_slot (some p ∷ rest) = p
first_slot _ = []

pub data Received : Type 0 where
  frames : List (Option (List ℕ)) → Received
  err_unrecoverable : Received

module _ (k r : ℕ) where
  -- Whether recovery is tried: something is missing, and there are repairs enough for it.
  unfoldable pub wants_recovery : Block → Bool
  wants_recovery b =
      let missing = count_of false (take (k - b.delivered) (drop b.delivered b.present)) in
      let repairs = count_of true (take r (drop k b.present)) in
      ltb 0 missing && leb missing repairs

  unfoldable pub deliver : Block → Received × Block
  deliver b =
      let (out, last) = deliver_loop (k - b.delivered) b.delivered b.data_slots b.present in
      (frames out, record b { delivered = last; done = last == k || b.done })

  -- Where a packet goes: `none` for an index out of range or a slot that is taken.
  unfoldable pub place : ℕ → List ℕ → Bool → Block → Option Block
  place idx pkt is_repair b =
      if is_repair
      then (if leb r idx || get_or b.present (k + idx) false
          then none
          else some (record b {
            repair_slots = set b.repair_slots idx (some pkt);
            present = set b.present (k + idx) true;
          }))
      else if leb k idx || get_or b.present idx false
      then none
      else some (record b {
        data_slots = set b.data_slots idx (some pkt);
        present = set b.present idx true;
      })

module _ (rs : ReedSolomon) (k r : ℕ) where
  -- The slots that recovery computes; `none` is an error.
  unfoldable pub recover_slots : Block → Option (List (Option (List ℕ)))
  recover_slots b =
      if r == 1
      then xor_recover b.data_slots (first_slot b.repair_slots)
      else rs_recover rs k r b.data_slots b.repair_slots

  unfoldable pub try_recover : Block → Received × Block
  try_recover b =
      if wants_recovery k r b
      then (elim (recover_slots b) [
        | none ↦ (err_unrecoverable, b)
        | some result ↦ deliver k r (record b {
          data_slots = fill_data result b.present b.data_slots;
          present = fill_present result b.present;
        })
      ])
      else deliver k r b

  -- What `add` does with the block that the packet belongs to.
  unfoldable pub receive : ℕ → ℕ → List ℕ → Bool → Block → Received × Block
  receive now idx pkt is_repair b =
      if b.done then (frames [], b) else (elim (place k r idx pkt is_repair b) [
        | none ↦ (frames [], b)
        | some b' ↦ try_recover (record b' { count = b'.count + 1; last_activity = some now })
      ])
