-- ===== src/Fec/Encoder.antt =====
-- internal/fec/fec.go: Encoder.
use supervpn.Base.{
  ℕ, ◌+◌, ◌%◌, ◌^◌, List, [], ◌∷◌, ◌++◌, ltb, ◌==◌, ◌||◌, if◌then◌else◌, length, Option, none, some,
  Go, ok, guard, ◌>>◌, not,
}
use supervpn.Fec.Xor.{xor_all}
use supervpn.Fec.Shards.{ReedSolomon, rs_encode}

abbrev pub max_k : ℕ
max_k = 128

abbrev pub max_r : ℕ
max_r = 32

-- `buf` holds the packets of the block that is being filled.
pub record Encoder : Type 0 where
  pub k : ℕ
  pub r : ℕ
  pub buf : List (List ℕ)
  pub block_id : ℕ

pub data InitError : Type 0 where
  k_out_of_range r_out_of_range rs_init rs_decoder_init : InitError

-- `k` and `r` are ints in the source; a negative one is out of range too.
unfoldable pub new_encoder : ReedSolomon → ℕ → ℕ → Go InitError Encoder
new_encoder rs k r = do
  guard (not (ltb k 1 || ltb max_k k)) k_out_of_range
  guard (not (ltb max_r r)) r_out_of_range
  guard (not (ltb 1 r) || rs.create k r) rs_init
  ok (record { k = k; r = r; buf = []; block_id = 0 })

-- The repair packets of a full block; `none` is nil.
unfoldable pub repairs_of : ReedSolomon → ℕ → ℕ → List (List ℕ) → Option (List (List ℕ))
repairs_of rs k r buf =
    if r == 0 then none else if r == 1 then some (xor_all buf ∷ []) else rs_encode rs k r buf

unfoldable pub add : ReedSolomon → Encoder → List ℕ → Option (List (List ℕ)) × Encoder
add rs e pkt =
    let buf = e.buf ++ (pkt ∷ []) in
    if ltb (length buf) e.k
    then (none, record e { buf = buf })
    else (repairs_of rs e.k e.r buf, record e { buf = []; block_id = (e.block_id + 1) % 2 ^ 32 })
