-- ===== src/Fec/Decoder/History.antt =====
-- internal/fec/fec.go: what the decoder gives for one block while packets of any blocks arrive.
use supervpn.Base.{
  ℕ, ◌+◌, ◌≤◌, ◌<◌, ◌≡◌, ◌≢◌, refl, ap, ap₂, ◌∙◌, sym, List, [], ◌∷◌, ◌++◌, ltb, ◌==◌,
  if◌then◌else◌, arith, Option, some, All, Bool-cases, inl, inr, subst, eq→==,
}
use supervpn.Fec.Shards.{ReedSolomon}
use supervpn.Fec.Block.{receive}
use supervpn.Fec.Block.Moves.{out_of}
use supervpn.Fec.Block.History.{Arrival, run, IsPrefix, run-IsPrefix}
use supervpn.Fec.Decoder.{
  Decoder, empty_decoder, find_block, expire, get_or_create, block_or_fresh, add,
}
use supervpn.Fec.Decoder.Expire.{find_block-store_self, find_block-store_ne, Agrees, expire-Agrees}

-- The decoder before a packet is put into its block.
abbrev seen : ℕ → ℕ → Decoder → Decoder
seen now block_id d =
    if ltb d.max_seen block_id then expire now (record d { max_seen = block_id }) else d

seen-Agrees :
    (now id block_id : ℕ) (d : Decoder)
    → d.max_seen ≤ id + 8
    → block_id ≤ id + 8
    → Agrees id d (seen now block_id d)
seen-Agrees now id block_id d near le = elim (Bool-cases (ltb d.max_seen block_id)) [
  | inr old ↦ rw old (record { found = refl; near = near })
  | inl newer ↦ rw newer (
      let v = expire-Agrees now id (record d { max_seen = block_id }) le in
      record { found = v.found; near = v.near })
]

-- The packets that the decoder gets, each with its block id; what it gives for each of them, with the
-- block id; and the decoder afterwards.
unfoldable pub add_each :
    ReedSolomon → ℕ → ℕ → List (ℕ × Arrival) → Decoder → List (ℕ × List (Option (List ℕ))) × Decoder
add_each rs k r [] d = ([], d)
add_each rs k r ((id, a) ∷ packets) d =
    let (res, d1) = add rs k r a.now id a.idx a.pkt a.is_repair d in
    let (out, d2) = add_each rs k r packets d1 in ((id, out_of res) ∷ out, d2)

-- What was given for one block.
abbrev pub given : ℕ → List (ℕ × List (Option (List ℕ))) → List (Option (List ℕ))
given id [] = []
given id ((i, out) ∷ outs) = let rest = given id outs in if i == id then out ++ rest else rest

abbrev of_block : ℕ → List (ℕ × Arrival) → List Arrival
of_block id [] = []
of_block id ((i, a) ∷ packets) =
    let rest = of_block id packets in if i == id then a ∷ rest else rest

module _ (rs : ReedSolomon) (k r : ℕ) where
  -- What a packet of the block does, and one of another block.
  record Adds (id : ℕ) (a : Arrival) (d : Decoder) : Type 0 where
    same_out :
        (add rs k r a.now id a.idx a.pkt a.is_repair d).0
        ≡ (receive rs k r a.now a.idx a.pkt a.is_repair (get_or_create k r id d)).0
    stored :
        find_block id (add rs k r a.now id a.idx a.pkt a.is_repair d).1.blocks
        ≡ some (receive rs k r a.now a.idx a.pkt a.is_repair (get_or_create k r id d)).1
    still_near : (add rs k r a.now id a.idx a.pkt a.is_repair d).1.max_seen ≤ id + 8

  add-Adds : (id : ℕ) (a : Arrival) (d : Decoder) → d.max_seen ≤ id + 8 → Adds id a d
  unfolding add
  add-Adds id a d near =
      let v = seen-Agrees a.now id id d near (omega arith) in
      record {
        same_out =
            ap (λ o. (receive rs k r a.now a.idx a.pkt a.is_repair (block_or_fresh k r o)).0)
              v.found;
        stored =
            find_block-store_self id _ (seen a.now id d).blocks
            ∙ ap (λ o. some (receive rs k r a.now a.idx a.pkt a.is_repair (block_or_fresh k r o)).1)
                v.found;
        still_near = v.near;
      }

  add-Agrees :
      (id block_id : ℕ) (a : Arrival) (d : Decoder)
      → d.max_seen ≤ id + 8
      → block_id ≤ id + 8
      → block_id ≢ id
      → Agrees id d (add rs k r a.now block_id a.idx a.pkt a.is_repair d).1
  unfolding add
  add-Agrees id block_id a d near le ne =
      let v = seen-Agrees a.now id block_id d near le in
      record {
        found = find_block-store_ne block_id id _ (seen a.now block_id d).blocks ne ∙ v.found;
        near = v.near;
      }

  abbrev Runs : ℕ → List (ℕ × Arrival) → Decoder → Type 0
  Runs id packets d =
      let (out, d') = add_each rs k r packets d in
      (given id out, get_or_create k r id d')
      ≡ run rs k r (of_block id packets) (get_or_create k r id d)

  own-Runs :
      (id : ℕ) (a : Arrival) (packets : List (ℕ × Arrival)) (d : Decoder)
      → d.max_seen ≤ id + 8
      → Runs id packets (add rs k r a.now id a.idx a.pkt a.is_repair d).1
      → Runs id ((id, a) ∷ packets) d
  unfolding add_each run
  own-Runs id a packets d near later =
      let v = add-Adds id a d near in
      rw (add_each, eq→== id id refl)
        (ap₂ (λ res p. (out_of res ++ p.0, p.1)) v.same_out
          (later ∙ ap (run rs k r (of_block id packets)) (ap (block_or_fresh k r) v.stored)))

  add_each-Runs :
      (id : ℕ) (packets : List (ℕ × Arrival)) (d : Decoder)
      → d.max_seen ≤ id + 8
      → All (λ p. p.0 ≤ id + 8) packets
      → Runs id packets d
  unfolding add_each run
  add_each-Runs id [] d near h = refl
  add_each-Runs id ((i, a) ∷ packets) d near h = elim (Bool-cases (i == id)) [
    | inr other ↦
        let v = add-Agrees id i a d near h.0 (λ e. ground (arith, e)) in
        rw (add_each, other)
          (add_each-Runs id packets _ v.near h.1
            ∙ ap (run rs k r (of_block id packets)) (ap (block_or_fresh k r) v.found))
    | inl own ↦
        let e : id ≡ i = ground arith in
        subst (λ j. Runs id ((j, a) ∷ packets) d) e
          (own-Runs id a packets d near
            (add_each-Runs id packets _ (add-Adds id a d near).still_near h.1))
  ]

-- Whatever packets of whatever blocks the decoder gets, in any order and with any index, as long as none
-- of them is of a block more than 8 ahead of block `id`, which is when expire may drop it, and without
-- FlushStale: what it gives in all for block `id` is the block's data slots from the first one on, each
-- one once and in order, and none of them is empty.
pub add_each-IsPrefix :
    (rs : ReedSolomon) (k r id : ℕ) (packets : List (ℕ × Arrival))
    → 0 < k
    → All (λ p. p.0 ≤ id + 8) packets
    → let (out, d) = add_each rs k r packets empty_decoder in
      IsPrefix (given id out) (get_or_create k r id d)
unfolding find_block
add_each-IsPrefix rs k r id packets pos near =
    subst (λ p. IsPrefix p.0 p.1)
      (sym (add_each-Runs rs k r id packets empty_decoder (omega arith) near))
      (run-IsPrefix rs k r (of_block id packets) pos)
