-- ===== src/Fec/Pipe/Position.antt =====
-- internal/fec/pipe.go: the block and the index under which a frame is sent.
use supervpn.Base.{
  ℕ, suc, ◌+◌, ◌-◌, ◌%◌, ◌^◌, ◌≤◌, ◌<◌, ◌≡◌, refl, ap, ap₂, ◌∙◌, List, [], ◌∷◌, ◌++◌, ltb, ◌==◌,
  replicate, length-replicate, if◌then◌else◌, length, arith, true, false, Bool, some, All, inl, inr,
  Bool-cases, length-append, All-append,
}
use mathlib.Core.List.{map}
use supervpn.Fec.Xor.{max_len_from, xor_all}
use supervpn.Fec.Shards.{ReedSolomon, rs_encode, shard}
use supervpn.Fec.Encoder.{Encoder, repairs_of}
use supervpn.Fec.Encoder
use supervpn.Fec.Pipe.{Pipe, claim}

abbrev Nonempty : List (List ℕ) → Type 0
Nonempty ps = All (λ p. 0 < length p) ps

le-max_len : (ps : List (List ℕ)) (acc : ℕ) → acc ≤ max_len_from acc ps
unfolding max_len_from
le-max_len [] acc = omega arith
le-max_len (p ∷ ps) acc = ground (arith, le-max_len ps (length p), le-max_len ps acc)

each-le-max_len : (ps : List (List ℕ)) (acc : ℕ) → All (λ p. length p ≤ max_len_from acc ps) ps
unfolding max_len_from
each-le-max_len [] acc = tt
each-le-max_len (p ∷ ps) acc = (
  ground (arith, le-max_len ps (length p), le-max_len ps acc),
  each-le-max_len ps (if ltb acc (length p) then length p else acc),
)

length-shard : (n : ℕ) (p : List ℕ) → length p ≤ n → length (shard n p) ≡ n
unfolding shard
length-shard n p h = elim (Bool-cases (length p == n)) [
  | inl same ↦ rw same (ground arith)
  | inr other ↦ rw other (
      omega (
        arith,
        length-append {0} p (replicate (n - length p) 0),
        length-replicate {A = ℕ} (n - length p) 0,
      ))
]

All-shard :
    (n : ℕ) (ps : List (List ℕ))
    → All (λ p. length p ≤ n) ps
    → All (λ s. length s ≡ n) (map (shard n) ps)
All-shard n [] h = tt
All-shard n (p ∷ ps) h = (length-shard n p h.0, All-shard n ps h.1)

length-map-shard : (n : ℕ) (ps : List (List ℕ)) → length (map (shard n) ps) ≡ length ps
length-map-shard n [] = refl
length-map-shard n (p ∷ ps) = ap suc (length-map-shard n ps)

-- With r > 0 a full block of frames that are not empty has repairs.
repairs_of-some :
    (rs : ReedSolomon) (k r : ℕ) (buf : List (List ℕ))
    → 0 < k
    → 0 < r
    → (1 < r → rs.create k r ≡ true)
    → length buf ≡ k
    → Nonempty buf
    → (repairs : List (List ℕ)) × (repairs_of rs k r buf ≡ some repairs)
unfolding repairs_of rs_encode
repairs_of-some rs k r [] pos many made full ne = absurd (omega arith)
repairs_of-some rs k r (p ∷ ps) pos many made full ne = elim (Bool-cases (r == 1)) [
  | inl one ↦ (xor_all (p ∷ ps) ∷ [], ground (arith, one))
  | inr more ↦
      let buf : List (List ℕ) = p ∷ ps in
      let n : ℕ = max_len_from 0 buf in
      let le = each-le-max_len buf 0 in
      let (repairs, e, _, _) =
        rs.encode_ok k r n (map (shard n) buf) pos (made (ground arith))
          (length-map-shard n buf ∙ full) (omega (arith, le.0, ne.0)) (All-shard n buf le) in
      (repairs, ground (arith, more, e))
]

-- The pipe when i frames of block number q were sent.
pub record IsPipe (rs : ReedSolomon) (k r q i : ℕ) (p : Pipe) : Type 0 where
  pub size : p.enc.k ≡ k
  pub repair_size : p.enc.r ≡ r
  pub block : p.enc.block_id ≡ q % 2 ^ 32
  pub index : p.pkt_idx ≡ i
  pub filling : length p.enc.buf ≡ i
  pub room : i < k
  pub nonempty : Nonempty p.enc.buf

abbrev grown : Pipe → List ℕ → Encoder
grown p frame = record p.enc { buf = p.enc.buf ++ (frame ∷ []) }

abbrev emptied : Pipe → Encoder
emptied p = record p.enc { buf = []; block_id = (p.enc.block_id + 1) % 2 ^ 32 }

claim_more :
    (rs : ReedSolomon) (frame : List ℕ) (p : Pipe)
    → ltb (length (p.enc.buf ++ (frame ∷ []))) p.enc.k ≡ true
    → (claim rs frame p).1 ≡ record p { enc = grown p frame; pkt_idx = (p.pkt_idx + 1) % 2 ^ 16 }
unfolding claim Encoder.add
claim_more rs frame p e = rw e refl

claim_full :
    (rs : ReedSolomon) (frame : List ℕ) (p : Pipe) (repairs : List (List ℕ))
    → ltb (length (p.enc.buf ++ (frame ∷ []))) p.enc.k ≡ false
    → repairs_of rs p.enc.k p.enc.r (p.enc.buf ++ (frame ∷ [])) ≡ some repairs
    → (claim rs frame p).1 ≡ record p { enc = emptied p; pkt_idx = 0 }
unfolding claim Encoder.add
claim_full rs frame p repairs e f = rw (e, f) refl

-- The place after (q, i).
abbrev pub next_place : ℕ → ℕ → ℕ → ℕ × ℕ
next_place k q i = if ltb (suc i) k then (q, suc i) else (suc q, 0)

module _ (rs : ReedSolomon) (k r q i : ℕ) (frame : List ℕ) (p : Pipe) where
  pub claim-IsPipe :
      k ≤ 128
      → 0 < r
      → (1 < r → rs.create k r ≡ true)
      → 0 < length frame
      → IsPipe rs k r q i p
      → IsPipe rs k r (next_place k q i).0 (next_place k q i).1 (claim rs frame p).1
  claim-IsPipe small many made ne v = elim (Bool-cases (ltb (suc i) k)) [
    | inl more ↦ rw more (
        rw (claim_more rs frame p (test more)) (record {
          size = v.size;
          repair_size = v.repair_size;
          block = v.block;
          index = ground (arith, v.index);
          filling = grown_length;
          room = ground arith;
          nonempty = grown_nonempty;
        }))
    | inr full ↦
        let (repairs, e) =
          repairs_of-some rs p.enc.k p.enc.r (p.enc.buf ++ (frame ∷ []))
            (omega (arith, v.size, v.room)) (omega (arith, v.repair_size))
            (λ lt. ap₂ rs.create v.size v.repair_size ∙ made (omega (arith, v.repair_size)))
            (ground (arith, grown_length, v.size, v.room, full)) grown_nonempty in
        rw full (
          rw (claim_full rs frame p repairs (test full) e) (record {
            size = v.size;
            repair_size = v.repair_size;
            block = omega (arith, v.block);
            index = refl;
            filling = refl;
            room = omega (arith, v.room);
            nonempty = tt;
          }))
  ]
    where
      grown_length : length (p.enc.buf ++ (frame ∷ [])) ≡ suc i
      grown_length = omega (arith, length-append {0} p.enc.buf (frame ∷ []), v.filling)

      test : {b : Bool} → ltb (suc i) k ≡ b → ltb (length (p.enc.buf ++ (frame ∷ []))) p.enc.k ≡ b
      test e = ap₂ ltb grown_length v.size ∙ e

      grown_nonempty : Nonempty (p.enc.buf ++ (frame ∷ []))
      grown_nonempty = All-append (λ q. 0 < length q) p.enc.buf (frame ∷ []) v.nonempty (ne, tt)
