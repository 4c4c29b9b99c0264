-- ===== src/Fec/Block/Moves.antt =====
-- internal/fec/fec.go: what one packet does to its block.
use supervpn.Base.{
  ℕ, ◌+◌, ◌-◌, ◌<◌, ◌≡◌, refl, ap, ◌∙◌, List, [], subst, length, arith, false, Bool, Option, none,
  some, get_or, Bool-cases, inl, inr, Option-cases,
}
use supervpn.Fec.Shards.{ReedSolomon}
use supervpn.Fec.Block.{
  Block, Received, frames, err_unrecoverable, wants_recovery, deliver, place, recover_slots,
  try_recover, receive,
}
use supervpn.Fec.Block.Invariant.{IsBlock, Keeps}
use supervpn.Fec.Block.Place.{Placed, place-Placed}
use supervpn.Fec.Block.Deliver.{deliver_loop-Delivers, deliver-IsBlock}
use supervpn.Fec.Block.Refill.{refilled-Keeps}
use supervpn.Fec.Block.Restore.{recover_slots-Restores}

-- The packets that the caller gets.
abbrev pub out_of : Received → List (Option (List ℕ))
out_of (frames out) = out
out_of err_unrecoverable = []

-- From `b` on, `out` was delivered: it is what the data slots hold behind the delivery position.
pub record Moves (k r : ℕ) (b : Block) (out : List (Option (List ℕ))) (b' : Block) : Type 0 where
  pub valid : IsBlock k r b'
  pub advance : b'.delivered ≡ b.delivered + length out
  pub items :
      (i : ℕ) → i < length out → get_or out i none ≡ get_or b'.data_slots (b.delivered + i) none
  pub earlier : (i : ℕ) → i < b.delivered → get_or b'.data_slots i none ≡ get_or b.data_slots i none

pub stays-Moves : (k r : ℕ) (b : Block) → IsBlock k r b → Moves k r b [] b
stays-Moves k r b v = record {
  valid = v;
  advance = omega arith;
  items = λ i lt. absurd (omega arith);
  earlier = λ i lt. refl;
}

Keeps-Moves :
    (k r : ℕ) (b c d : Block) (out : List (Option (List ℕ)))
    → Keeps k r b c
    → Moves k r c out d
    → Moves k r b out d
Keeps-Moves k r b c d out v w = record {
  valid = w.valid;
  advance = omega (arith, w.advance, v.position);
  items = λ i lt. w.items i lt ∙ ap (λ p. get_or d.data_slots (p + i) none) v.position;
  earlier = λ i lt. w.earlier i (omega (arith, v.position)) ∙ v.earlier i lt;
}

deliver-Moves :
    (k r : ℕ) (b : Block)
    → 0 < k
    → IsBlock k r b
    → b.done ≡ false
    → Moves k r b (out_of (deliver k r b).0) (deliver k r b).1
unfolding deliver
deliver-Moves k r b pos v open_ =
    let w = deliver_loop-Delivers (k - b.delivered) b.delivered b.data_slots b.present in
    record {
      valid = unfold deliver in deliver-IsBlock k r b pos v open_;
      advance = w.advance;
      items = λ i lt. w.items i lt;
      earlier = λ i lt. refl;
    }

try_recover-Moves :
    (rs : ReedSolomon) (k r : ℕ) (b : Block)
    → 0 < k
    → IsBlock k r b
    → b.done ≡ false
    → Moves k r b (out_of (try_recover rs k r b).0) (try_recover rs k r b).1
unfolding try_recover
try_recover-Moves rs k r b pos v open_ = elim (Bool-cases (wants_recovery k r b)) [
  | inr idle ↦ rw idle (deliver-Moves k r b pos v open_)
  | inl wanted ↦ rw wanted (elim (Option-cases (recover_slots rs k r b)) [
    | inl e ↦ rw e (stays-Moves k r b v)
    | inr (result, e) ↦
        let kept =
          refilled-Keeps k r b result v open_ (recover_slots-Restores rs k r b result v e) in
        rw e (Keeps-Moves k r b _ _ _ kept (deliver-Moves k r _ pos kept.valid (kept.mark ∙ open_)))
  ])
]

touch-IsBlock :
    (k r : ℕ) (b : Block) (n : ℕ) (t : Option ℕ)
    → IsBlock k r b
    → IsBlock k r (record b { count = n; last_activity = t })
touch-IsBlock k r b n t v = record {
  data_length = v.data_length;
  repair_length = v.repair_length;
  present_length = v.present_length;
  data_flag = v.data_flag;
  repair_flag = v.repair_flag;
  in_range = v.in_range;
  before = v.before;
  finished = v.finished;
}

touched-Keeps :
    (k r : ℕ) (b c : Block) (n : ℕ) (t : Option ℕ)
    → Keeps k r b c
    → Keeps k r b (record c { count = n; last_activity = t })
touched-Keeps k r b c n t v = record {
  valid = touch-IsBlock k r c n t v.valid;
  position = v.position;
  mark = v.mark;
  earlier = v.earlier;
}

Placed-some :
    (k r : ℕ) (b c : Block) (x : Option Block) → x ≡ some c → Placed k r b x → Keeps k r b c
Placed-some k r b c x e p = subst (Placed k r b) e p

pub receive-Moves :
    (rs : ReedSolomon) (k r now idx : ℕ) (pkt : List ℕ) (is_repair : Bool) (b : Block)
    → 0 < k
    → IsBlock k r b
    → Moves k r b
        (out_of (receive rs k r now idx pkt is_repair b).0)
        (receive rs k r now idx pkt is_repair b).1
unfolding receive
receive-Moves rs k r now idx pkt is_repair b pos v = elim (Bool-cases b.done) [
  | inl closed ↦ simp closed (stays-Moves k r b v)
  | inr open_ ↦ simp open_ (elim (Option-cases (place k r idx pkt is_repair b)) [
    | inl e ↦ rw e (stays-Moves k r b v)
    | inr (c, e) ↦
        let kept =
          touched-Keeps k r b c (c.count + 1) (some now)
            (Placed-some k r b c _ e (place-Placed k r idx pkt is_repair b v open_)) in
        rw e (
          Keeps-Moves k r b _ _ _ kept
            (try_recover-Moves rs k r _ pos kept.valid (kept.mark ∙ open_)))
  ])
]
