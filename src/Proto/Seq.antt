-- ===== src/Proto/Seq.antt =====
-- internal/proto/packet.go: FEC and fragment metadata packed into the 64-bit Seq field.
use supervpn.Base.{ℕ, ◌+◌, ◌*◌, ◌/◌, ◌%◌, ◌<◌, ◌^◌, ◌≡◌, bit_or, arith, ap₂, ◌∙◌}
use supervpn.Base.Bits.Fields.{bit_or_fields}

-- `uint64(v) << k` and `uint64 >> k` cut to the width that the conversion names.
abbrev shl : ℕ → ℕ → ℕ
shl v k = v * 2 ^ k % 2 ^ 64

abbrev cut : ℕ → ℕ → ℕ → ℕ
cut v k width = v / 2 ^ k % 2 ^ width

unfoldable pub pack_data_seq : ℕ → ℕ → ℕ
pack_data_seq block_id pkt_idx = bit_or (shl block_id 32) (shl pkt_idx 16)

unfoldable pub unpack_data_seq : ℕ → ℕ × ℕ
unpack_data_seq seq = (cut seq 32 32, cut seq 16 16)

unfoldable pub pack_repair_seq : ℕ → ℕ → ℕ → ℕ → ℕ
pack_repair_seq block_id repair_idx block_k block_r =
    bit_or (bit_or (bit_or (shl block_id 32) (shl repair_idx 24)) (shl block_k 16)) (shl block_r 8)

unfoldable pub unpack_repair_seq : ℕ → ℕ × ℕ × ℕ × ℕ
unpack_repair_seq seq = (cut seq 32 32, cut seq 24 8, cut seq 16 8, cut seq 8 8)

unfoldable pub pack_frag_seq : ℕ → ℕ → ℕ → ℕ
pack_frag_seq frag_id frag_idx frag_count =
    bit_or (bit_or (shl frag_id 32) (shl frag_idx 24)) (shl frag_count 16)

unfoldable pub unpack_frag_seq : ℕ → ℕ × ℕ × ℕ
unpack_frag_seq seq = (cut seq 32 32, cut seq 24 8, cut seq 16 8)

-- The packed words as sums of their fields.
data_seq_sum : (b p : ℕ) → b < 2 ^ 32 → p < 2 ^ 16 → pack_data_seq b p ≡ b * 2 ^ 32 + p * 2 ^ 16
unfolding pack_data_seq
data_seq_sum b p hb hp =
    ap₂ bit_or {x = shl b 32} {y = b * 2 ^ 32} {u = shl p 16} {v = p * 2 ^ 16} (omega arith)
      (omega arith)
    ∙ bit_or_fields 32 b (p * 2 ^ 16) (omega arith)

frag_seq_sum :
    (f i c : ℕ)
    → f < 2 ^ 32
    → i < 2 ^ 8
    → c < 2 ^ 8
    → pack_frag_seq f i c ≡ f * 2 ^ 32 + i * 2 ^ 24 + c * 2 ^ 16
unfolding pack_frag_seq
frag_seq_sum f i c hf hi hc =
    ground (arith, bit_or_fields 32 f (i * 2 ^ 24), bit_or_fields 24 (f * 2 ^ 8 + i) (c * 2 ^ 16))

repair_seq_sum :
    (b i k r : ℕ)
    → b < 2 ^ 32
    → i < 2 ^ 8
    → k < 2 ^ 8
    → r < 2 ^ 8
    → pack_repair_seq b i k r ≡ b * 2 ^ 32 + i * 2 ^ 24 + k * 2 ^ 16 + r * 2 ^ 8
unfolding pack_repair_seq
repair_seq_sum b i k r hb hi hk hr = ground (
  arith,
  bit_or_fields 32 b (i * 2 ^ 24),
  bit_or_fields 24 (b * 2 ^ 8 + i) (k * 2 ^ 16),
  bit_or_fields 16 (b * 2 ^ 16 + i * 2 ^ 8 + k) (r * 2 ^ 8),
)

-- The block id and the packet index of a data frame come back from its Seq field, for any values
-- of their Go types.
pub unpack_data_seq-pack_data_seq :
    (b p : ℕ) → b < 2 ^ 32 → p < 2 ^ 16 → unpack_data_seq (pack_data_seq b p) ≡ (b, p)
unfolding unpack_data_seq
unpack_data_seq-pack_data_seq b p hb hp = ground (arith, data_seq_sum b p hb hp)

-- The block id, repair index, K and R of a repair frame come back from its Seq field, for any
-- values of their Go types.
pub unpack_repair_seq-pack_repair_seq :
    (b i k r : ℕ)
    → b < 2 ^ 32
    → i < 2 ^ 8
    → k < 2 ^ 8
    → r < 2 ^ 8
    → unpack_repair_seq (pack_repair_seq b i k r) ≡ (b, i, k, r)
unfolding unpack_repair_seq
unpack_repair_seq-pack_repair_seq b i k r hb hi hk hr =
    ground (arith, repair_seq_sum b i k r hb hi hk hr)

-- The fragment id, index and count of a fragment come back from its Seq field, for any values of
-- their Go types.
pub unpack_frag_seq-pack_frag_seq :
    (f i c : ℕ)
    → f < 2 ^ 32
    → i < 2 ^ 8
    → c < 2 ^ 8
    → unpack_frag_seq (pack_frag_seq f i c) ≡ (f, i, c)
unfolding unpack_frag_seq
unpack_frag_seq-pack_frag_seq f i c hf hi hc = ground (arith, frag_seq_sum f i c hf hi hc)

pub pack_data_seq-lt : (b p : ℕ) → b < 2 ^ 32 → p < 2 ^ 16 → pack_data_seq b p < 2 ^ 64
pack_data_seq-lt b p hb hp = omega (arith, data_seq_sum b p hb hp)
