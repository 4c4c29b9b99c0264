-- ===== src/Fec/Pipe/Sent.antt =====
-- internal/fec/pipe.go: the data packets that a sequence of calls of Send puts on the wire.
use supervpn.Base.{
  ℕ, ◌≤◌, ◌<◌, ◌≡◌, refl, ap₂, ◌∙◌, List, [], ◌∷◌, ◌++◌, ltb, ◌||◌, ◌&&◌, not, if◌then◌else◌,
  length, arith, true, false, Bool, none, some, All, inl, inr, Bool-cases, ok,
}
use supervpn.Fec.Shards.{ReedSolomon}
use supervpn.Fec.Encoder.{new_encoder}
use supervpn.Fec.Decoder.{new_decoder, empty_decoder}
use supervpn.Fec.Pipe.{Pipe, Wire, data_packet, claim, dispatch, send, new_pipe}
use supervpn.Fec.Pipe.Position.{IsPipe, claim-IsPipe}
use supervpn.Fec.Pipe.Wires.{
  data_of, data_of-append, places, send_all, dispatch-Dispatched, dispatched-IsPipe, Sent,
}

first_data :
    (b b' i i' : ℕ) (frame : List ℕ) (out : List Wire)
    → b ≡ b'
    → i ≡ i'
    → data_of out ≡ []
    → data_of (data_packet b i frame ∷ out) ≡ (b', i', frame) ∷ []
first_data b b' i i' frame out e f g = cc

claim_block :
    (rs : ReedSolomon) (frame : List ℕ) (p : Pipe) → (claim rs frame p).0.0 ≡ p.enc.block_id
unfolding claim
claim_block rs frame p = refl

claim_index : (rs : ReedSolomon) (frame : List ℕ) (p : Pipe) → (claim rs frame p).0.1 ≡ p.pkt_idx
unfolding claim
claim_index rs frame p = refl

module _ (succeeds : Wire → Bool) (rs : ReedSolomon) (k r : ℕ) (small : k ≤ 128) (many : 0 < r)
    (made : 1 < r → rs.create k r ≡ true) where
  send-Sent :
      (q i now : ℕ) (frame : List ℕ) (p : Pipe)
      → 0 < length frame
      → IsPipe rs k r q i p
      → Sent rs k r q i frame (send succeeds rs now frame p)
  unfolding send
  send-Sent q i now frame p ne v =
      let c = claim-IsPipe rs k r q i frame p small many made ne v in
      let b = claim_block rs frame p ∙ v.block in
      let x = claim_index rs frame p ∙ v.index in
      let d =
        dispatch-Dispatched succeeds now (claim rs frame p).0.0
          (elim ((claim rs frame p).0.2) [ none ↦ [] | some reps ↦ reps ]) (claim rs frame p).1 in
      elim (Bool-cases
        (succeeds (data_packet (claim rs frame p).0.0 (claim rs frame p).0.1 frame))) [
          | inl fine ↦ rw fine (record {
            placed =
                first_data _ _ _ _ frame
                  (dispatch succeeds now (claim rs frame p).0.0
                    (elim ((claim rs frame p).0.2) [ none ↦ [] | some reps ↦ reps ])
                    (claim rs frame p).1).0
                  b x d.no_data;
            next = dispatched-IsPipe rs k r _ _ _ _ d.same_enc d.same_idx c;
          })
          | inr failed ↦
              rw failed (record { placed = first_data _ _ _ _ frame [] b x refl; next = c })
        ]

  send_all-places :
      (frames : List (ℕ × List ℕ)) (q i : ℕ) (p : Pipe)
      → All (λ f. 0 < length f.1) frames
      → IsPipe rs k r q i p
      → data_of (send_all succeeds rs frames p).0 ≡ places k q i frames
  unfolding send_all
  send_all-places [] q i p ne v = refl
  send_all-places ((now, frame) ∷ frames) q i p ne v =
      let s = send-Sent q i now frame p ne.0 v in
      data_of-append (send succeeds rs now frame p).0.0
        (send_all succeeds rs frames (send succeeds rs now frame p).1).0
      ∙ ap₂ ◌++◌ s.placed (send_all-places frames _ _ _ ne.1 s.next)

-- A pipe before the first frame.
abbrev pub started : ℕ → ℕ → ℕ → Bool → Pipe
started k r delay sends = record {
  enc = record { k = k; r = r; buf = []; block_id = 0 };
  dec = empty_decoder;
  repair_delay = delay;
  sends_repair = sends;
  pkt_idx = 0;
  repair_ch = if ltb 0 delay && sends then some [] else none;
}

test_true :
    (rs : ReedSolomon) (k r : ℕ)
    → 0 < k
    → k ≤ 128
    → r ≤ 32
    → (not (ltb 1 r) || rs.create k r) ≡ true
test_true rs k r pos small_k small_r = elim (Bool-cases (ltb 1 r)) [
  | inl many ↦ rw many (rs.create_ok k r pos (ground arith) (omega arith))
  | inr few ↦ rw few refl
]

pub new_pipe_ok :
    (rs : ReedSolomon) (k r delay : ℕ) (sends : Bool)
    → 0 < k
    → k ≤ 128
    → r ≤ 32
    → new_pipe rs k r delay sends ≡ ok (started k r delay sends)
unfolding new_pipe new_encoder new_decoder
new_pipe_ok rs k r delay sends pos small_k small_r =
    rw (in_range, r_in_range, test_true rs k r pos small_k small_r) refl
  where
    in_range : (ltb k 1 || ltb 128 k) ≡ false
    in_range = ground arith

    r_in_range : ltb 32 r ≡ false
    r_in_range = ground arith

-- For 0 < k ≤ 128 and 0 < r ≤ 32 a new pipe exists, and it sends any frames that are not empty, in
-- order, as the packets 0 .. k - 1 of block 0, then of block 1, and so on, with the block id modulo
-- 2^32, whatever the callbacks return.
pub send_all-new_pipe :
    (rs : ReedSolomon) (succeeds : Wire → Bool) (k r delay : ℕ) (sends : Bool)
    (frames : List (ℕ × List ℕ))
    → 0 < k
    → k ≤ 128
    → 0 < r
    → r ≤ 32
    → All (λ f. 0 < length f.1) frames
    → (p : Pipe) × (new_pipe rs k r delay sends ≡ ok p)
      × (data_of (send_all succeeds rs frames p).0 ≡ places k 0 0 frames)
send_all-new_pipe rs succeeds k r delay sends frames pos small_k many small_r ne = (
  started k r delay sends,
  new_pipe_ok rs k r delay sends pos small_k small_r,
  send_all-places succeeds rs k r small_k many (λ lt. rs.create_ok k r pos many (omega arith))
      frames 0 0 (started k r delay sends) ne
      (record {
        size = refl;
        repair_size = refl;
        block = refl;
        index = refl;
        filling = refl;
        room = pos;
        nonempty = tt;
      }),
)
