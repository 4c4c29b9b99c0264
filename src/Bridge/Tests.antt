-- ===== src/Bridge/Tests.antt =====
-- Runs of the MSS clamp, and the theorems of the bridge at concrete inputs.
use supervpn.Base.{
  ℕ, ◌≡◌, refl, List, [], ◌∷◌, ◌++◌, arith, replicate, ok, All, IsByte, index, Bool, true, ltb,
  length, if◌then◌else◌, ◌&&◌, false, ◌%◌, ◌==◌,
}
use supervpn.Bridge.Loops.{
  read_failed, send_failed, run_upstream, run_downstream, EachClamped, up_to_refused, all_sent,
  refused_from, run_upstream-EachClamped, run_downstream-EachClamped,
}
use supervpn.Bridge.Mss.{
  clamp_tcp_mss, clamp_ip, clamp_tcp, clamp_options, clamp_option, u16_at, rewrite, put_u16_at,
  fix_checksum16, fold_carry,
}
use supervpn.Bridge.Mss.Segment.{sum16}
use supervpn.Bridge.Mss.Position.{Clamped}
use supervpn.Bridge.Mss.Clamp.{clamp_tcp_mss-Clamped}

abbrev ethernet : List ℕ
ethernet = replicate 12 1 ++ (8 ∷ 0 ∷ [])

abbrev ip_header : List ℕ
ip_header = (0x45 ∷ []) ++ replicate 8 0 ++ (6 ∷ []) ++ replicate 10 0

abbrev tcp_header : List ℕ
tcp_header = replicate 12 0 ++ (0x60 ∷ 2 ∷ 0 ∷ 0 ∷ 0x12 ∷ 0x34 ∷ 0 ∷ 0 ∷ [])

-- A SYN with an MSS of 1460.
abbrev syn : List ℕ
syn = ethernet ++ ip_header ++ tcp_header ++ (2 ∷ 4 ∷ 5 ∷ 0xb4 ∷ [])

abbrev clamped : List ℕ
clamped =
    ethernet
    ++ ip_header
    ++ (replicate 12 0 ++ (0x60 ∷ 2 ∷ 0 ∷ 0 ∷ 0x12 ∷ 0xd4 ∷ 0 ∷ 0 ∷ []))
    ++ (2 ∷ 4 ∷ 5 ∷ 0x14 ∷ [])

clamp_run : clamp_tcp_mss syn 1_300 ≡ ok clamped
unfolding clamp_tcp_mss clamp_ip clamp_tcp clamp_options clamp_option u16_at rewrite put_u16_at
    fix_checksum16 fold_carry index
clamp_run = refl

-- The same SYN with a NOP in front of the MSS, which then starts at an odd offset.
abbrev odd_tcp : ℕ → ℕ → List ℕ
odd_tcp checksum_low mss_low =
    replicate 12 0
    ++ (0x70 ∷ 2 ∷ 0 ∷ 0 ∷ 0x12 ∷ checksum_low ∷ 0 ∷ 0 ∷ [])
    ++ (1 ∷ 2 ∷ 4 ∷ 5 ∷ mss_low ∷ 1 ∷ 1 ∷ 1 ∷ [])

odd_run :
    clamp_tcp_mss (ethernet ++ ip_header ++ odd_tcp 0x34 0xb4) 1_300
    ≡ ok (ethernet ++ ip_header ++ odd_tcp 0xd4 0x14)
unfolding clamp_tcp_mss clamp_ip clamp_tcp clamp_options clamp_option u16_at rewrite put_u16_at
    fix_checksum16 fold_carry index
odd_run = refl

-- The sum of the segment's words is another one afterwards: a correct checksum becomes a wrong one.
odd_sum : (sum16 (odd_tcp 0xd4 0x14) % 65_535 == sum16 (odd_tcp 0x34 0xb4) % 65_535) ≡ false
odd_sum = refl

abbrev all_bytes : List ℕ → Bool
all_bytes [] = true
all_bytes (b ∷ bs) = ltb b 256 && all_bytes bs

tested_bytes : (bs : List ℕ) → all_bytes bs ≡ true → All IsByte bs
tested_bytes [] h = tt
tested_bytes (b ∷ bs) h = (ground (arith, h), tested_bytes bs (ground (arith, h)))

clamp_tcp_mss-Clamped_example : Clamped syn 1_300 (clamp_tcp_mss syn 1_300)
clamp_tcp_mss-Clamped_example =
    clamp_tcp_mss-Clamped syn 1_300 (tested_bytes syn refl) (omega arith)

-- An adapter and a session that refuse the clamped SYN.
abbrev takes : List ℕ → Bool
takes frame = ltb (length frame) 20

abbrev frames : List (List ℕ)
frames = (1 ∷ 2 ∷ []) ∷ syn ∷ (3 ∷ []) ∷ []

frames_bytes : All (All IsByte) frames
frames_bytes =
    (tested_bytes (1 ∷ 2 ∷ []) refl, (tested_bytes syn refl, (tested_bytes (3 ∷ []) refl, tt)))

run_upstream-EachClamped_example :
    (sent : List (List ℕ)) × EachClamped 1_300 frames sent
    × (run_upstream takes 1_300 frames
        ≡ ok (up_to_refused takes sent, if all_sent takes sent then read_failed else send_failed))
run_upstream-EachClamped_example =
    run_upstream-EachClamped takes 1_300 (omega arith) frames frames_bytes

run_downstream-EachClamped_example :
    (offered : List (List ℕ)) × EachClamped 1_300 frames offered
    × (run_downstream takes 1_300 frames 0 ≡ ok (offered, refused_from takes 0 offered))
run_downstream-EachClamped_example =
    run_downstream-EachClamped takes 1_300 (omega arith) frames 0 frames_bytes
