-- ===== src/Fec/Decoder/Expire.antt =====
-- internal/fec/fec.go: the map of blocks, and what expire leaves of it.
use supervpn.Base.{
  ℕ, zero, suc, ◌+◌, ◌-◌, ◌≤◌, ◌≡◌, ◌≢◌, refl, ◌∙◌, List, [], ◌∷◌, ltb, arith, some, Bool-cases,
  Option-cases, inl, inr,
}
use supervpn.Fec.Block.{Block}
use supervpn.Fec.Decoder.{
  Decoder, max_old_blocks, find_block, store_block, delete_block, is_expired, expire_loop, expire,
}

pub find_block-store_self :
    (id : ℕ) (b : Block) (blocks : List (ℕ × Block))
    → find_block id (store_block id b blocks) ≡ some b
unfolding find_block store_block
find_block-store_self id b [] = ground arith
find_block-store_self id b ((i, c) ∷ blocks) = ground (arith, find_block-store_self id b blocks)

pub find_block-store_ne :
    (id other : ℕ) (b : Block) (blocks : List (ℕ × Block))
    → id ≢ other
    → find_block other (store_block id b blocks) ≡ find_block other blocks
unfolding find_block store_block
find_block-store_ne id other b [] ne = ground arith
find_block-store_ne id other b ((i, c) ∷ blocks) ne =
    ground (arith, find_block-store_ne id other b blocks ne)

find_block-delete_ne :
    (id other : ℕ) (blocks : List (ℕ × Block))
    → id ≢ other
    → find_block other (delete_block id blocks) ≡ find_block other blocks
unfolding find_block delete_block
find_block-delete_ne id other [] ne = refl
find_block-delete_ne id other ((i, c) ∷ blocks) ne =
    ground (arith, find_block-delete_ne id other blocks ne)

-- `expire` moves on below a block id and leaves the blocks from there on.
expire_loop-find_block :
    (left now id : ℕ) (d : Decoder)
    → d.min_block_id + left ≤ id
    → find_block id (expire_loop left now d).blocks ≡ find_block id d.blocks
unfolding expire_loop
expire_loop-find_block zero now id d h = refl
expire_loop-find_block (suc left) now id d h =
    elim (Option-cases (find_block d.min_block_id d.blocks)) [
      | inl e ↦
          rw (expire_loop, e)
            (expire_loop-find_block left now id (record d { min_block_id = d.min_block_id + 1 })
              (omega arith))
      | inr (b, e) ↦ elim (Bool-cases (is_expired now b.last_activity)) [
        | inr kept ↦ rw (expire_loop, e, kept) refl
        | inl old ↦
            rw (expire_loop, e, old)
              (expire_loop-find_block left now id
                  (record d {
                    blocks = delete_block d.min_block_id d.blocks;
                    min_block_id = d.min_block_id + 1;
                  })
                  (omega arith)
                ∙ find_block-delete_ne d.min_block_id id d.blocks (λ s. omega arith))
      ]
    ]

expire_loop-max_seen : (left now : ℕ) (d : Decoder) → (expire_loop left now d).max_seen ≡ d.max_seen
unfolding expire_loop
expire_loop-max_seen zero now d = refl
expire_loop-max_seen (suc left) now d = elim (Option-cases (find_block d.min_block_id d.blocks)) [
  | inl e ↦
      rw (expire_loop, e)
        (expire_loop-max_seen left now (record d { min_block_id = d.min_block_id + 1 }))
  | inr (b, e) ↦ elim (Bool-cases (is_expired now b.last_activity)) [
    | inr kept ↦ rw (expire_loop, e, kept) refl
    | inl old ↦
        rw (expire_loop, e, old)
          (expire_loop-max_seen left now (record d {
            blocks = delete_block d.min_block_id d.blocks;
            min_block_id = d.min_block_id + 1;
          }))
  ]
]

-- Two decoders that agree on a block, the second of which has seen no id more than 8 ahead of it.
pub record Agrees (id : ℕ) (d d' : Decoder) : Type 0 where
  pub found : find_block id d'.blocks ≡ find_block id d.blocks
  pub near : d'.max_seen ≤ id + 8

expire_loop-kept :
    (left now id : ℕ) (d : Decoder)
    → left ≡ d.max_seen - max_old_blocks - d.min_block_id
    → d.max_seen ≤ id + 8
    → find_block id (expire_loop left now d).blocks ≡ find_block id d.blocks
unfolding expire_loop
expire_loop-kept zero now id d e near = refl
expire_loop-kept (suc left) now id d e near =
    unfold expire_loop in expire_loop-find_block (suc left) now id d (omega arith)

pub expire-Agrees : (now id : ℕ) (d : Decoder) → d.max_seen ≤ id + 8 → Agrees id d (expire now d)
unfolding expire
expire-Agrees now id d near = elim (Bool-cases (ltb d.max_seen max_old_blocks)) [
  | inl few ↦ rw few (record { found = refl; near = near })
  | inr many ↦ rw many (record {
    found = expire_loop-kept _ now id d refl near;
    near = omega (arith, expire_loop-max_seen (d.max_seen - max_old_blocks - d.min_block_id) now d);
  })
]
