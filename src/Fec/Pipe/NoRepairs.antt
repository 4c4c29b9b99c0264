-- ===== src/Fec/Pipe/NoRepairs.antt =====
-- internal/fec/pipe.go: a pipe with r = 0, which NewPipe accepts.
use supervpn.Base.{
  ℕ, suc, ◌+◌, ◌-◌, ◌^◌, ◌≤◌, ◌<◌, ◌≡◌, refl, List, [], ◌∷◌, ◌++◌, ltb, length, arith, false, Bool,
  none, inl, inr, Bool-cases, subst, le→leb,
}
use supervpn.Fec.Shards.{ReedSolomon}
use supervpn.Fec.Encoder.{Encoder, repairs_of}
use supervpn.Fec.Encoder
use supervpn.Fec.Block.{Block, frames, receive, place}
use supervpn.Fec.Pipe.{Pipe, Wire, data_packet, claim, dispatch, send}
use supervpn.Fec.Pipe.Wires.{data_of, send_all}
use supervpn.Fec.Pipe.Sent.{started}

-- Without repairs the encoder never says that a block is complete.
add-none :
    (rs : ReedSolomon) (e : Encoder) (frame : List ℕ)
    → e.r ≡ 0
    → ((Encoder.add rs e frame).0 ≡ none) × ((Encoder.add rs e frame).1.r ≡ 0)
unfolding Encoder.add repairs_of
add-none rs e frame z = elim (Bool-cases (ltb (length (e.buf ++ (frame ∷ []))) e.k)) [
  | inl more ↦ rw more (refl, z)
  | inr full ↦ rw full (rw z refl, z)
]

record Counts (n : ℕ) (p : Pipe) : Type 0 where
  pub no_repairs : p.enc.r ≡ 0
  pub index : p.pkt_idx ≡ n

claim-Counts :
    (rs : ReedSolomon) (n : ℕ) (frame : List ℕ) (p : Pipe)
    → suc n < 2 ^ 16
    → Counts n p
    → Counts (suc n) (claim rs frame p).1
      × ((claim rs frame p).0.2 ≡ none)
      × ((claim rs frame p).0.1 ≡ n)
unfolding claim
claim-Counts rs n frame p h c =
    let (e, f) = add-none rs p.enc frame c.no_repairs in
    (record { no_repairs = f; index = rw (claim, e) (omega (arith, c.index)) }, e, c.index)

module _ (succeeds : Wire → Bool) (rs : ReedSolomon) where
  send_counted :
      (n now : ℕ) (frame : List ℕ) (p : Pipe)
      → suc n < 2 ^ 16
      → Counts n p
      → Counts (suc n) (send succeeds rs now frame p).1
        × (data_of (send succeeds rs now frame p).0.0 ≡ (((claim rs frame p).0.0, n, frame) ∷ []))
  unfolding send dispatch
  send_counted n now frame p h c =
      let (next, nothing, at) = claim-Counts rs n frame p h c in
      elim (Bool-cases
        (succeeds (data_packet (claim rs frame p).0.0 (claim rs frame p).0.1 frame))) [
          | inl fine ↦ rw (fine, nothing) (next, rw at refl)
          | inr failed ↦ rw failed (next, rw at refl)
        ]

  send_all_counted :
      (fs : List (ℕ × List ℕ)) (n : ℕ) (p : Pipe)
      → n + length fs < 2 ^ 16
      → Counts n p
      → Counts (n + length fs) (send_all succeeds rs fs p).1
  unfolding send_all
  send_all_counted [] n p h c = subst (λ m. Counts m p) (omega arith) c
  send_all_counted ((now, frame) ∷ fs) n p h c =
      subst (λ m. Counts m (send_all succeeds rs fs (send succeeds rs now frame p).1).1)
        (omega arith)
        (send_all_counted fs (suc n) (send succeeds rs now frame p).1 (omega arith)
          (send_counted n now frame p (omega arith) c).0)

receive_out_of_range :
    (rs : ReedSolomon) (k r now idx : ℕ) (pkt : List ℕ) (b : Block)
    → k ≤ idx
    → receive rs k r now idx pkt false b ≡ (frames [], b)
unfolding receive place
receive_out_of_range rs k r now idx pkt b h = elim (Bool-cases b.done) [
  | inl closed ↦ simp closed refl
  | inr open_ ↦ simp (open_, le→leb k idx h) refl
]

-- A pipe with r = 0 never starts its packet index again: after k frames or more (and fewer than
-- 2^16 - 1), the next frame goes out with an index of k or more, and the block that it reaches on
-- the other side, in any state, ignores it.
pub send-out_of_range :
    (rs : ReedSolomon) (succeeds : Wire → Bool) (k delay now : ℕ) (sends : Bool)
    (sent : List (ℕ × List ℕ)) (frame : List ℕ)
    → k ≤ length sent
    → length sent < 2 ^ 16 - 1
    → let p = (send_all succeeds rs sent (started k 0 delay sends)).1 in
      (block_id : ℕ) × (idx : ℕ) × (data_of (send succeeds rs now frame p).0.0
        ≡ (block_id, idx, frame) ∷ [])
      × ((later : ℕ) (b : Block) → receive rs k 0 later idx frame false b ≡ (frames [], b))
send-out_of_range rs succeeds k delay now sends sent frame many few =
    let c =
      send_all_counted succeeds rs sent 0 (started k 0 delay sends) (omega arith)
        (record { no_repairs = refl; index = refl }) in
    (
      _,
      length sent,
      (send_counted succeeds rs (length sent) now frame _ (omega arith) (
          subst (λ m. Counts m (send_all succeeds rs sent (started k 0 delay sends)).1)
            (omega arith) c)).1,
      λ later b. receive_out_of_range rs k 0 later (length sent) frame b many,
    )
