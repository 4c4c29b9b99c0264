-- ===== src/Fec/Pipe/Wires.antt =====
-- internal/fec/pipe.go: what goes on the wire, and what the dispatch of repairs leaves alone.
use supervpn.Base.{
  ℕ, suc, ◌%◌, ◌^◌, ◌<◌, ◌≡◌, refl, ap, ◌∙◌, sym, List, [], ◌∷◌, ◌++◌, ltb, ◌==◌, ◌||◌, not, length,
  Bool, All, inl, inr, Bool-cases, Option-cases, subst,
}
use supervpn.Fec.Shards.{ReedSolomon}
use supervpn.Fec.Encoder.{Encoder}
use supervpn.Fec.Pipe.{
  Pipe, Wire, data_packet, repair_packet, dispatch, send, send_repairs, send_repairs_now,
}
use supervpn.Fec.Pipe.Position.{IsPipe, next_place}

-- The block, the index and the bytes of each data packet.
abbrev pub data_of : List Wire → List (ℕ × ℕ × List ℕ)
data_of [] = []
data_of (data_packet block_id idx frame ∷ ws) = (block_id, idx, frame) ∷ data_of ws
data_of (repair_packet block_id idx bytes ∷ ws) = data_of ws

pub data_of-append : (xs ys : List Wire) → data_of (xs ++ ys) ≡ data_of xs ++ data_of ys
data_of-append [] ys = refl
data_of-append (data_packet b i f ∷ xs) ys = ap (◌∷◌ (b, i, f)) (data_of-append xs ys)
data_of-append (repair_packet b i f ∷ xs) ys = data_of-append xs ys

-- Where frames go when the next place is (q, i): the places of a block in order, then the next block.
abbrev pub places : ℕ → ℕ → ℕ → List (ℕ × List ℕ) → List (ℕ × ℕ × List ℕ)
places k q i [] = []
places k q i ((now, frame) ∷ frames) =
    (q % 2 ^ 32, i, frame) ∷ places k (next_place k q i).0 (next_place k q i).1 frames

-- Send, called for each frame in turn, whatever it returns.
unfoldable pub send_all : (Wire → Bool) → ReedSolomon → List (ℕ × List ℕ) → Pipe → List Wire × Pipe
send_all succeeds rs [] p = ([], p)
send_all succeeds rs ((now, frame) ∷ frames) p =
    let ((out, fine), p') = send succeeds rs now frame p in
    let (rest, last) = send_all succeeds rs frames p' in (out ++ rest, last)

module _ (succeeds : Wire → Bool) where
  data_of-send_repairs :
      (block_id i : ℕ) (reps : List (List ℕ))
      → data_of (send_repairs succeeds block_id i reps).0 ≡ []
  unfolding send_repairs
  data_of-send_repairs block_id i [] = refl
  data_of-send_repairs block_id i (rep ∷ reps) =
      elim (Bool-cases (succeeds (repair_packet block_id (i % 2 ^ 8) rep))) [
        | inl fine ↦ rw fine (data_of-send_repairs block_id (suc i) reps)
        | inr failed ↦ rw failed refl
      ]

data_of-send_repairs_now :
    (block_id i : ℕ) (reps : List (List ℕ)) → data_of (send_repairs_now block_id i reps) ≡ []
unfolding send_repairs_now
data_of-send_repairs_now block_id i [] = refl
data_of-send_repairs_now block_id i (rep ∷ reps) = data_of-send_repairs_now block_id (suc i) reps

-- What dispatch leaves alone.
pub record Dispatched (p : Pipe) (result : List Wire × Bool × Pipe) : Type 0 where
  pub no_data : data_of result.0 ≡ []
  pub same_enc : result.2.enc ≡ p.enc
  pub same_idx : result.2.pkt_idx ≡ p.pkt_idx

pub dispatch-Dispatched :
    (succeeds : Wire → Bool) (now block_id : ℕ) (repairs : List (List ℕ)) (p : Pipe)
    → Dispatched p (dispatch succeeds now block_id repairs p)
unfolding dispatch
dispatch-Dispatched succeeds now block_id repairs p =
    elim (Bool-cases (length repairs == 0 || not p.sends_repair)) [
      | inl none_to_send ↦
          rw none_to_send (record { no_data = refl; same_enc = refl; same_idx = refl })
      | inr some_to_send ↦ rw some_to_send (elim (Bool-cases (ltb 0 p.repair_delay)) [
        | inr at_once ↦ rw at_once (record {
          no_data = data_of-send_repairs succeeds block_id 0 repairs;
          same_enc = refl;
          same_idx = refl;
        })
        | inl later ↦ rw later (elim (Option-cases p.repair_ch) [
          | inl closed ↦ simp closed (record {
            no_data = data_of-send_repairs_now block_id 0 repairs;
            same_enc = refl;
            same_idx = refl;
          })
          | inr (jobs, e) ↦ simp e (elim (Bool-cases (ltb (length jobs) 2048)) [
            | inl room ↦ rw room (record { no_data = refl; same_enc = refl; same_idx = refl })
            | inr full ↦ rw full (record {
              no_data = data_of-send_repairs_now block_id 0 repairs;
              same_enc = refl;
              same_idx = refl;
            })
          ])
        ])
      ])
    ]

pub dispatched-IsPipe :
    (rs : ReedSolomon) (k r q i : ℕ) (p p' : Pipe)
    → p'.enc ≡ p.enc
    → p'.pkt_idx ≡ p.pkt_idx
    → IsPipe rs k r q i p
    → IsPipe rs k r q i p'
dispatched-IsPipe rs k r q i p p' e f v = record {
  size = ap Encoder.k e ∙ v.size;
  repair_size = ap Encoder.r e ∙ v.repair_size;
  block = ap Encoder.block_id e ∙ v.block;
  index = f ∙ v.index;
  filling = ap (λ c. length (Encoder.buf c)) e ∙ v.filling;
  room = v.room;
  nonempty = subst (λ c. All (λ b. 0 < length b) (Encoder.buf c)) (sym e) v.nonempty;
}

-- One call of Send: the data packet's place, and the pipe afterwards.
pub record Sent (rs : ReedSolomon) (k r q i : ℕ) (frame : List ℕ)
    (result : (List Wire × Bool) × Pipe) : Type 0 where
  pub placed : data_of result.0.0 ≡ (q % 2 ^ 32, i, frame) ∷ []
  pub next : IsPipe rs k r (next_place k q i).0 (next_place k q i).1 result.1
