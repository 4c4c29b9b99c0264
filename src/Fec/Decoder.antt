-- ===== src/Fec/Decoder.antt =====
-- internal/fec/fec.go: Decoder, the map from block ids to blocks.
pub mod Expire
pub mod History
use supervpn.Base.{
  ℕ, zero, suc, ◌+◌, ◌-◌, ◌*◌, List, [], ◌∷◌, ltb, ◌==◌, ◌||◌, not, if◌then◌else◌, true, false,
  Bool, Option, none, some, Go, ok, guard, ◌>>◌,
}
use supervpn.Fec.Shards.{ReedSolomon}
use supervpn.Fec.Encoder.{InitError, rs_decoder_init}
use supervpn.Fec.Block.{Block, fresh_block, Received, receive}

abbrev pub max_old_blocks : ℕ
max_old_blocks = 8

abbrev pub block_keep_age : ℕ
block_keep_age = 2 * 1_000_000_000

pub record Decoder : Type 0 where
  pub blocks : List (ℕ × Block)
  pub max_seen : ℕ
  pub min_block_id : ℕ

-- The map from block ids to blocks, as an association list.
unfoldable pub find_block : ℕ → List (ℕ × Block) → Option Block
find_block id [] = none
find_block id ((i, b) ∷ blocks) = if i == id then some b else find_block id blocks

unfoldable pub store_block : ℕ → Block → List (ℕ × Block) → List (ℕ × Block)
store_block id b [] = (id, b) ∷ []
store_block id b ((i, c) ∷ blocks) =
    if i == id then (id, b) ∷ blocks else (i, c) ∷ store_block id b blocks

unfoldable pub delete_block : ℕ → List (ℕ × Block) → List (ℕ × Block)
delete_block id [] = []
delete_block id ((i, b) ∷ blocks) =
    if i == id then delete_block id blocks else (i, b) ∷ delete_block id blocks

abbrev pub empty_decoder : Decoder
empty_decoder = record { blocks = []; max_seen = 0; min_block_id = 0 }

unfoldable pub new_decoder : ReedSolomon → ℕ → ℕ → Go InitError Decoder
new_decoder rs k r = do guard (not (ltb 1 r) || rs.create k r) rs_decoder_init; ok empty_decoder

-- `b.lastActivity.IsZero() || now.Sub(b.lastActivity) > blockKeepAge`
abbrev pub is_expired : ℕ → Option ℕ → Bool
is_expired now none = true
is_expired now (some t) = ltb block_keep_age (now - t)

-- The loop of `expire`; the argument is the distance to the threshold.
unfoldable pub expire_loop : ℕ → ℕ → Decoder → Decoder
expire_loop zero now d = d
expire_loop (suc left) now d = elim (find_block d.min_block_id d.blocks) [
  | none ↦ expire_loop left now (record d { min_block_id = d.min_block_id + 1 })
  | some b ↦
      let rest = expire_loop left now (record d {
        blocks = delete_block d.min_block_id d.blocks;
        min_block_id = d.min_block_id + 1;
      }) in
      if is_expired now b.last_activity then rest else d
]

unfoldable pub expire : ℕ → Decoder → Decoder
expire now d =
    if ltb d.max_seen max_old_blocks
    then d
    else expire_loop (d.max_seen - max_old_blocks - d.min_block_id) now d

abbrev pub block_or_fresh : ℕ → ℕ → Option Block → Block
block_or_fresh k r none = fresh_block k r
block_or_fresh k r (some b) = b

abbrev pub get_or_create : ℕ → ℕ → ℕ → Decoder → Block
get_or_create k r id d = block_or_fresh k r (find_block id d.blocks)

module _ (rs : ReedSolomon) (k r : ℕ) where
  unfoldable pub add : ℕ → ℕ → ℕ → List ℕ → Bool → Decoder → Received × Decoder
  add now block_id idx pkt is_repair d =
      let d' =
        if ltb d.max_seen block_id then expire now (record d { max_seen = block_id }) else d in
      let (out, b) = receive rs k r now idx pkt is_repair (get_or_create k r block_id d') in
      (out, record d' { blocks = store_block block_id b d'.blocks })

-- `BlockDone`
unfoldable pub block_done : ℕ → Decoder → Bool
block_done id d = elim (find_block id d.blocks) [ none ↦ false | some b ↦ b.done ]
