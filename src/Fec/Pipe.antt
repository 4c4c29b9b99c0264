-- ===== src/Fec/Pipe.antt =====
-- internal/fec/pipe.go: Pipe, the encoder and the decoder of one session. The callbacks of the source
-- are what this model writes to the wire; whether they succeed is a parameter.
pub mod Position
pub mod Wires
pub mod Sent
pub mod NoRepairs
pub mod Receive
use supervpn.Base.{
  ℕ, zero, suc, ◌+◌, ◌-◌, ◌*◌, ◌%◌, ◌^◌, ◌≤◌, ◌<◌, ◌≡◌, ◌≢◌, refl, List, [], ◌∷◌, ◌++◌, ltb, leb,
  ◌==◌, ◌||◌, ◌&&◌, not, if◌then◌else◌, length, arith, true, false, Bool, Option, none, some, Go,
  ok, err, panic, ◌>>=◌, ◌>>◌,
}
use supervpn.Fec.Shards.{ReedSolomon}
use supervpn.Fec.Encoder.{Encoder, InitError, new_encoder}
use supervpn.Fec.Encoder
use supervpn.Fec.Decoder.{Decoder, new_decoder}

pub record RepairJob : Type 0 where
  pub send_at : ℕ
  pub block_id : ℕ
  pub repairs : List (List ℕ)

-- A call of `sendData` or `sendRepair`.
pub data Wire : Type 0 where
  data_packet : ℕ → ℕ → List ℕ → Wire
  repair_packet : ℕ → ℕ → List ℕ → Wire

-- `repair_ch` is the channel of capacity 2048; `none` is nil, and `sends_repair` says whether
-- `sendRepair` is set.
pub record Pipe : Type 0 where
  pub enc : Encoder
  pub dec : Decoder
  pub repair_delay : ℕ
  pub sends_repair : Bool
  pub pkt_idx : ℕ
  pub repair_ch : Option (List RepairJob)

unfoldable pub new_pipe : ReedSolomon → ℕ → ℕ → ℕ → Bool → Go InitError Pipe
new_pipe rs k r repair_delay sends_repair = do
  enc ← new_encoder rs k r
  dec ← new_decoder rs k r
  ok (record {
    enc = enc;
    dec = dec;
    repair_delay = repair_delay;
    sends_repair = sends_repair;
    pkt_idx = 0;
    repair_ch = if ltb 0 repair_delay && sends_repair then some [] else none;
  })

module _ (succeeds : Wire → Bool) where
  -- `for i, rep := range repairs { if err := p.sendRepair(...); err != nil { return err } }`
  unfoldable pub send_repairs : ℕ → ℕ → List (List ℕ) → List Wire × Bool
  send_repairs block_id i [] = ([], true)
  send_repairs block_id i (rep ∷ repairs) =
      let (out, fine) = send_repairs block_id (suc i) repairs in
      let w = repair_packet block_id (i % 2 ^ 8) rep in
      if succeeds w then (w ∷ out, fine) else (w ∷ [], false)

-- The same with the errors ignored.
unfoldable pub send_repairs_now : ℕ → ℕ → List (List ℕ) → List Wire
send_repairs_now block_id i [] = []
send_repairs_now block_id i (rep ∷ repairs) =
    repair_packet block_id (i % 2 ^ 8) rep ∷ send_repairs_now block_id (suc i) repairs

module _ (rs : ReedSolomon) where
  -- The first half of `Send`, under the lock: the frame's place, the repairs, the pipe afterwards.
  unfoldable pub claim : List ℕ → Pipe → (ℕ × ℕ × Option (List (List ℕ))) × Pipe
  claim frame p =
      let (repairs, enc) = Encoder.add rs p.enc frame in
      let next : ℕ = elim repairs [ none ↦ (p.pkt_idx + 1) % 2 ^ 16 | some _ ↦ 0 ] in
      ((p.enc.block_id, p.pkt_idx, repairs), record p { enc = enc; pkt_idx = next })

module _ (succeeds : Wire → Bool) where
  -- The repairs of a block that is complete: what is sent, whether it succeeded, the pipe afterwards.
  unfoldable pub dispatch : ℕ → ℕ → List (List ℕ) → Pipe → List Wire × Bool × Pipe
  dispatch now block_id repairs p =
      if length repairs == 0 || not p.sends_repair
      then ([], true, p)
      else if ltb 0 p.repair_delay
      then (elim p.repair_ch [
        | none ↦ (send_repairs_now block_id 0 repairs, true, p)
        | some jobs ↦
            let job : RepairJob = record {
              send_at = now + p.repair_delay;
              block_id = block_id;
              repairs = repairs;
            } in
            if ltb (length jobs) 2048
            then ([], true, record p { repair_ch = some (jobs ++ (job ∷ [])) })
            else (send_repairs_now block_id 0 repairs, true, p)
      ])
      else (let (out, fine) = send_repairs succeeds block_id 0 repairs in (out, fine, p))

  unfoldable pub send : ReedSolomon → ℕ → List ℕ → Pipe → (List Wire × Bool) × Pipe
  send rs now frame p =
      let ((block_id, idx, repairs), q) = claim rs frame p in
      let w = data_packet block_id idx frame in
      let (out, fine, end_pipe) =
        dispatch now block_id (elim repairs [ none ↦ [] | some reps ↦ reps ]) q in
      if succeeds w then ((w ∷ out, fine), end_pipe) else ((w ∷ [], false), q)

  -- One round of the loop of `StartRepairSender`: the first job of the channel, once its time has come.
  unfoldable pub drain : ℕ → Pipe → List Wire × Pipe
  drain now p = elim p.repair_ch [
    | none ↦ ([], p)
    | some [] ↦ ([], p)
    | some (job ∷ jobs) ↦
        if leb job.send_at now
        then (send_repairs_now job.block_id 0 job.repairs, record p { repair_ch = some jobs })
        else ([], p)
  ]
