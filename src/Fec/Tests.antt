-- ===== src/Fec/Tests.antt =====
-- Runs of error correction, and its theorems at concrete inputs.
use supervpn.Base.{
  get_or, ℕ, zero, suc, ◌<◌, ◌≡◌, ◌≢◌, refl, List, [], ◌∷◌, ◌++◌, some, none, arith, true, false,
  Bool, ok, All, ◌+◌, ◌≤◌,
}
use mathlib.Core.List.{map}
use supervpn.Fec.Xor.{find_missing, xor_others, xor_into, max_len_from, xor_all, xor_recover, pad}
use supervpn.Fec.Xor.Recover.{all_but, xor_recover-xor_all}
use supervpn.Fec.StandIn.{stand_in}
use supervpn.Fec.Shards.{is_some}
use supervpn.Fec.Block.{
  Block, fresh_block, frames, receive, place, try_recover, wants_recovery, deliver, deliver_loop,
  recover_slots, fill_present, fill_data,
}
use supervpn.Fec.Block.History.{Arrival, run, IsPrefix}
use supervpn.Fec.Decoder.{
  empty_decoder, get_or_create, add, expire, expire_loop, find_block, store_block, delete_block,
}
use supervpn.Fec.Decoder.History.{add_each, given, add_each-IsPrefix}
use supervpn.Fec.Block.Invariant.{IsBlock}
use supervpn.Fec.Flush.{flush_block, any_present, present_slots}
use supervpn.Fec.Pipe.{Pipe, Wire, new_pipe, send}
use supervpn.Fec.Pipe.Wires.{data_of, send_all, places}
use supervpn.Fec.Pipe.Sent.{started, send_all-new_pipe}
use supervpn.Fec.Pipe.NoRepairs.{send-out_of_range}

xor_recover-xor_all_example :
    xor_recover
      (all_but ((1 ∷ 2 ∷ []) ∷ []) ((5 ∷ 6 ∷ 7 ∷ []) ∷ []))
      (xor_all (((1 ∷ 2 ∷ []) ∷ []) ++ ((9 ∷ []) ∷ (5 ∷ 6 ∷ 7 ∷ []) ∷ [])))
    ≡ some
        (map some ((1 ∷ 2 ∷ []) ∷ []) ++ (some (pad 3 (9 ∷ [])) ∷ map some ((5 ∷ 6 ∷ 7 ∷ []) ∷ [])))
unfolding max_len_from
xor_recover-xor_all_example =
    xor_recover-xor_all ((1 ∷ 2 ∷ []) ∷ []) ((5 ∷ 6 ∷ 7 ∷ []) ∷ []) (9 ∷ [])

abbrev arrived : List Arrival
arrived =
    record { now = 5; idx = 1; pkt = 7 ∷ 8 ∷ []; is_repair = false }
    ∷ record { now = 6; idx = 9; pkt = 1 ∷ []; is_repair = false }
    ∷ record { now = 7; idx = 0; pkt = 3 ∷ 8 ∷ []; is_repair = true }
    ∷ []

-- Packet 1 and the repair of a block of two: packet 0 comes back, and both are delivered in order.
run_example :
    (run stand_in 2 1 arrived (fresh_block 2 1)).0 ≡ some (4 ∷ 0 ∷ []) ∷ some (7 ∷ 8 ∷ []) ∷ []
unfolding run receive place try_recover wants_recovery deliver deliver_loop recover_slots
    xor_recover find_missing fill_present fill_data xor_others xor_into
run_example = refl

-- The same three packets for block 0, between packets of the blocks 1 and 8.
abbrev mixed : List (ℕ × Arrival)
mixed = interleave arrived
  where
    other : Arrival
    other = record { now = 5; idx = 0; pkt = 5 ∷ []; is_repair = false }

    interleave : List Arrival → List (ℕ × Arrival)
    interleave [] = (1, other) ∷ []
    interleave (a ∷ rest) = (8, other) ∷ (0, a) ∷ interleave rest

near_mixed : All (λ p. p.0 ≤ 0 + 8) mixed
near_mixed = (
  omega arith,
  (omega arith, (omega arith, (omega arith, (omega arith, (omega arith, (omega arith, tt)))))),
)

add_each-IsPrefix_example :
    let (out, d) = add_each stand_in 2 1 mixed empty_decoder in
    IsPrefix (given 0 out) (get_or_create 2 1 0 d)
add_each-IsPrefix_example = add_each-IsPrefix stand_in 2 1 0 mixed (omega arith) near_mixed

-- Blocks of one packet: the packet of block 0, that of block 9 three seconds later, and once more the
-- one of block 0.
abbrev late : List (ℕ × Arrival)
late =
    (0, record { now = 0; idx = 0; pkt = 7 ∷ []; is_repair = false })
    ∷ (9, record { now = 3_000_000_000; idx = 0; pkt = 8 ∷ []; is_repair = false })
    ∷ (0, record { now = 3_000_000_001; idx = 0; pkt = 7 ∷ []; is_repair = false })
    ∷ []

-- The block of the last packet has expired and is made again: the packet is given twice.
late_run : given 0 (add_each stand_in 1 1 late empty_decoder).0 ≡ some (7 ∷ []) ∷ some (7 ∷ []) ∷ []
unfolding add_each add expire expire_loop find_block store_block delete_block receive place
    try_recover wants_recovery deliver deliver_loop
late_run = refl

abbrev outgoing : List (ℕ × List ℕ)
outgoing = (0, 1 ∷ []) ∷ (1, 2 ∷ []) ∷ (2, 3 ∷ []) ∷ []

abbrev sometimes : Wire → Bool
sometimes w = false

send_all-new_pipe_example :
    (p : Pipe) × (new_pipe stand_in 2 2 0 true ≡ ok p)
    × (data_of (send_all sometimes stand_in outgoing p).0 ≡ places 2 0 0 outgoing)
send_all-new_pipe_example =
    send_all-new_pipe stand_in sometimes 2 2 0 true outgoing (omega arith) (omega arith)
      (omega arith) (omega arith) (omega arith, (omega arith, (omega arith, tt)))

send-out_of_range_example :
    let p = (send_all sometimes stand_in outgoing (started 2 0 0 true)).1 in
    (block_id : ℕ) × (idx : ℕ) × (data_of (send sometimes stand_in 3 (4 ∷ []) p).0.0
      ≡ (block_id, idx, 4 ∷ []) ∷ [])
    × ((later : ℕ) (b : Block) → receive stand_in 2 0 later idx (4 ∷ []) false b ≡ (frames [], b))
send-out_of_range_example =
    send-out_of_range stand_in sometimes 2 0 3 true outgoing (4 ∷ []) (omega arith) (omega arith)

-- A block of three that holds its packet 1.
abbrev waiting : Block
waiting = record {
  data_slots = none ∷ some (6 ∷ []) ∷ none ∷ [];
  repair_slots = [];
  present = false ∷ true ∷ false ∷ [];
  count = 1;
  delivered = 0;
  done = false;
  last_activity = some 2;
}

waiting_flags :
    (i : ℕ) → i < 3 → get_or waiting.present i false ≡ is_some (get_or waiting.data_slots i none)
waiting_flags zero h = refl
waiting_flags (suc zero) h = refl
waiting_flags (suc (suc zero)) h = refl
waiting_flags (suc (suc (suc i))) h = absurd (omega arith)

waiting-IsBlock : IsBlock 3 0 waiting
waiting-IsBlock = record {
  data_length = refl;
  repair_length = refl;
  present_length = refl;
  data_flag = waiting_flags;
  repair_flag = λ i h. absurd (omega arith);
  in_range = omega arith;
  before = λ i h. absurd (omega arith);
  finished = refl;
}

waiting_flushed : (flush_block 3 900 100 waiting).1.done ≢ waiting.done
unfolding flush_block any_present present_slots
waiting_flushed e = cc
