-- ===== src/Fec/Flush.antt =====
-- internal/fec/fec.go: FlushStale.
use supervpn.Base.{
  ℕ, zero, suc, ◌+◌, ◌-◌, ◌≤◌, ◌<◌, ◌≡◌, ◌≢◌, refl, ap, ap₂, ◌∙◌, sym, List, [], ◌∷◌, ◌++◌, ltb,
  leb, ◌||◌, if◌then◌else◌, length, arith, true, false, Bool, Option, none, some, drop, get_or,
  Bool-cases, inl, inr,
}
use supervpn.Fec.Shards.{ReedSolomon, is_some}
use supervpn.Fec.Block.{Block, frames, receive}
use supervpn.Fec.Block.Invariant.{IsBlock}
use supervpn.Fec.Decoder.{Decoder, find_block, store_block}

-- `b.done || b.lastActivity.IsZero() || now.Sub(b.lastActivity) < maxAge`
abbrev is_busy : ℕ → ℕ → Block → Bool
is_busy now max_age b =
    b.done || (elim b.last_activity [ none ↦ true | some t ↦ ltb (now - t) max_age ])

-- Whether one of the next `left` slots from i on is there.
unfoldable pub any_present : ℕ → ℕ → List Bool → Bool
any_present zero i present = false
any_present (suc left) i present = get_or present i false || any_present left (suc i) present

-- The slots that are there among the next `left` ones from i on.
unfoldable pub present_slots : ℕ → ℕ → List Bool → List (Option (List ℕ)) → List (Option (List ℕ))
present_slots zero i present slots = []
present_slots (suc left) i present slots =
    let rest = present_slots left (suc i) present slots in
    if get_or present i false then get_or slots i none ∷ rest else rest

-- One round of the loop of FlushStale.
unfoldable pub flush_block : ℕ → ℕ → ℕ → Block → List (Option (List ℕ)) × Block
flush_block k now max_age b =
    if is_busy now max_age b
    then ([], b)
    else if any_present (k - b.delivered) b.delivered b.present
    then (
      present_slots (k - b.delivered) b.delivered b.present b.data_slots,
      record b { delivered = k; done = true },
    )
    else ([], b)

-- `sort.Slice` on the ids.
unfoldable pub insert_id : ℕ → List ℕ → List ℕ
insert_id id [] = id ∷ []
insert_id id (i ∷ ids) = let rest = insert_id id ids in if leb id i then id ∷ i ∷ ids else i ∷ rest

unfoldable pub sorted_ids : List (ℕ × Block) → List ℕ
sorted_ids [] = []
sorted_ids ((id, b) ∷ blocks) = insert_id id (sorted_ids blocks)

unfoldable pub flush_loop : ℕ → ℕ → ℕ → List ℕ → Decoder → List (Option (List ℕ)) × Decoder
flush_loop k now max_age [] d = ([], d)
flush_loop k now max_age (id ∷ ids) d = elim (find_block id d.blocks) [
  | none ↦ flush_loop k now max_age ids d
  | some b ↦
      let (out, c) = flush_block k now max_age b in
      let (rest, last) =
        flush_loop k now max_age ids (record d { blocks = store_block id c d.blocks }) in
      (out ++ rest, last)
]

unfoldable pub flush_stale : ℕ → ℕ → ℕ → Decoder → List (Option (List ℕ)) × Decoder
flush_stale k now max_age d = flush_loop k now max_age (sorted_ids d.blocks) d

-- The packets among some slots.
abbrev pub held : List (Option (List ℕ)) → List (Option (List ℕ))
held [] = []
held (none ∷ slots) = held slots
held (some p ∷ slots) = some p ∷ held slots

drop_get :
    (slots : List (Option (List ℕ))) (i : ℕ)
    → i < length slots
    → drop i slots ≡ get_or slots i none ∷ drop (suc i) slots
drop_get [] i h = absurd (omega arith)
drop_get (s ∷ slots) zero h = refl
drop_get (s ∷ slots) (suc i) h = drop_get slots i (omega arith)

held_slot :
    (s : Option (List ℕ)) (slots : List (Option (List ℕ)))
    → held (s ∷ slots) ≡ (if is_some s then s ∷ held slots else held slots)
held_slot none slots = refl
held_slot (some p) slots = refl

present_slots-held :
    (left i : ℕ) (present : List Bool) (slots : List (Option (List ℕ)))
    → i + left ≡ length slots
    → ((j : ℕ) → j < length slots → get_or present j false ≡ is_some (get_or slots j none))
    → present_slots left i present slots ≡ held (drop i slots)
unfolding present_slots
present_slots-held zero i present slots e h = sym (ap held (drop_all slots i (omega arith)))
  where
    drop_all : (slots : List (Option (List ℕ))) (i : ℕ) → length slots ≤ i → drop i slots ≡ []
    drop_all [] zero h = refl
    drop_all [] (suc i) h = refl
    drop_all (s ∷ slots) zero h = absurd (omega arith)
    drop_all (s ∷ slots) (suc i) h = drop_all slots i (omega arith)
present_slots-held (suc left) i present slots e h =
    ap₂ (λ b rest. if b then get_or slots i none ∷ rest else rest) (h i (omega arith))
      (present_slots-held left (suc i) present slots (omega arith) h)
    ∙ sym (held_slot (get_or slots i none) (drop (suc i) slots))
    ∙ sym (ap held (drop_get slots i (omega arith)))

-- A block that FlushStale changes gives every packet that it holds and did not deliver yet, in order
-- and over the gaps, and no packet that arrives later for this block is delivered.
pub flush_block-held :
    (rs : ReedSolomon) (k r now max_age : ℕ) (b : Block)
    → IsBlock k r b
    → (flush_block k now max_age b).1.done ≢ b.done
    → let (out, c) = flush_block k now max_age b in
      (out ≡ held (drop b.delivered b.data_slots))
      × ((later idx : ℕ) (pkt : List ℕ) (is_repair : Bool)
          → receive rs k r later idx pkt is_repair c ≡ (frames [], c))
unfolding flush_block receive
flush_block-held rs k r now max_age b v = elim (Bool-cases (is_busy now max_age b)) [
  | inl busy ↦ rw busy (λ ne. absurd (ne refl))
  | inr idle ↦ rw idle (elim (Bool-cases (any_present (k - b.delivered) b.delivered b.present)) [
    | inl stuck ↦ rw stuck (λ ne. (
      present_slots-held (k - b.delivered) b.delivered b.present b.data_slots
          (omega (arith, v.in_range, v.data_length))
          (λ j lt. v.data_flag j (omega (arith, v.data_length))),
      λ later idx pkt is_repair. refl,
    ))
    | inr filling ↦ rw filling (λ ne. absurd (ne refl))
  ])
]
