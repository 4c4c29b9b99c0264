-- ===== src/Bridge/Mss.antt =====
-- internal/bridge/mssclamp.go: ClampTCPMSS and fixChecksum16. The loops run on fuel, and `err out_of_fuel`
-- is what they would return without it.
pub mod Checksum
pub mod Segment
pub mod Words
pub mod Position
pub mod Clamp
use supervpn.Base.{
  ℕ, zero, suc, ◌+◌, ◌-◌, ◌*◌, ◌/◌, ◌%◌, ◌^◌, ◌≤◌, ◌<◌, ◌≡◌, ◌≢◌, refl, List, [], ◌∷◌, ◌++◌, ltb,
  leb, ◌==◌, ◌||◌, ◌&&◌, not, if◌then◌else◌, length, arith, true, false, Bool, Option, none, some,
  take, drop, set, get_or, Go, ok, err, panic, index, ◌>>=◌, ◌>>◌,
}

pub data Stuck : Type 0 where
  out_of_fuel : Stuck

-- `^v` of a uint16.
abbrev pub invert : ℕ → ℕ
invert v = 65_535 - v

-- `for sum>>16 != 0 { sum = (sum & 0xffff) + (sum >> 16) }`
unfoldable pub fold_carry : ℕ → ℕ → Go Stuck ℕ
fold_carry zero sum = err out_of_fuel
fold_carry (suc fuel) sum =
    let rest = fold_carry fuel (sum % 2 ^ 16 + sum / 2 ^ 16) in
    if sum / 2 ^ 16 == 0 then ok sum else rest

-- The new checksum for the old one `hc`.
unfoldable pub fix_checksum16 : ℕ → ℕ → ℕ → Go Stuck ℕ
fix_checksum16 hc old_val new_val = do
  sum ← fold_carry 4 ((invert hc + invert old_val + new_val) % 2 ^ 32)
  ok (invert (sum % 2 ^ 16))

-- `binary.BigEndian.Uint16(b[i : i+2])`
unfoldable pub u16_at : ℕ → List ℕ → Go Stuck ℕ
u16_at i b = do hi ← index i b; lo ← index (i + 1) b; ok (hi * 256 + lo)

-- `binary.BigEndian.PutUint16(b[i : i+2], v)`; the calls are in range.
unfoldable pub put_u16_at : ℕ → ℕ → List ℕ → List ℕ
put_u16_at i v b = set (set b i (v / 256 % 256)) (i + 1) (v % 256)

-- The copy with the new MSS at `mss_abs` and the checksum at `ck_abs`.
unfoldable pub rewrite : List ℕ → ℕ → ℕ → ℕ → ℕ → Go Stuck (List ℕ)
rewrite frame mss_abs ck_abs old max_mss = do
  let out = put_u16_at mss_abs max_mss frame
  hc ← u16_at ck_abs out
  fixed ← fix_checksum16 hc old max_mss
  ok (put_u16_at ck_abs fixed out)

-- The MSS option at `i`.
unfoldable pub clamp_option : List ℕ → ℕ → ℕ → List ℕ → ℕ → Go Stuck (List ℕ)
clamp_option frame max_mss ihl opts i = do
  old ← u16_at (i + 2) opts
  if leb old max_mss
      then ok frame
      else rewrite frame (14 + ihl + 20 + i + 2) (14 + ihl + 16) old max_mss

-- The loop over the options, from `i` on. Each round moves on by a byte or more.
unfoldable pub clamp_options : ℕ → List ℕ → ℕ → ℕ → List ℕ → ℕ → Go Stuck (List ℕ)
clamp_options zero frame max_mss ihl opts i = err out_of_fuel
clamp_options (suc fuel) frame max_mss ihl opts i =
    let go_on = clamp_options fuel frame max_mss ihl opts in
    if not (ltb (i + 1) (length opts)) then ok frame else (do
      kind ← index i opts
      opt_len ← index (i + 1) opts
      if kind == 0
          then ok frame
          else if kind == 1
          then go_on (i + 1)
          else if ltb opt_len 2 || ltb (length opts) (i + opt_len)
          then ok frame
          else if kind == 2 && opt_len == 4
          then clamp_option frame max_mss ihl opts i
          else go_on (i + opt_len))

-- From `tcp := ip[ihl:]` on.
unfoldable pub clamp_tcp : List ℕ → ℕ → ℕ → List ℕ → Go Stuck (List ℕ)
clamp_tcp frame max_mss ihl tcp = if ltb (length tcp) 20 then ok frame else (do
  flags ← index 13 tcp
  offset ← index 12 tcp
  let data_off = offset / 16 * 4
  let opts = take (data_off - 20) (drop 20 tcp)
  if flags / 2 % 2 == 0 || ltb data_off 20 || ltb (length tcp) data_off
      then ok frame
      else clamp_options (length opts + 1) frame max_mss ihl opts 0)

-- From `ip := frame[14:]` on.
unfoldable pub clamp_ip : List ℕ → ℕ → List ℕ → Go Stuck (List ℕ)
clamp_ip frame max_mss ip = if ltb (length ip) 20 then ok frame else (do
  first ← index 0 ip
  protocol ← index 9 ip
  let ihl = first % 16 * 4
  if not (first / 16 == 4) || ltb ihl 20 || ltb (length ip) ihl || not (protocol == 6)
      then ok frame
      else clamp_tcp frame max_mss ihl (drop ihl ip))

unfoldable pub clamp_tcp_mss : List ℕ → ℕ → Go Stuck (List ℕ)
clamp_tcp_mss frame max_mss = if max_mss == 0 || ltb (length frame) 14 then ok frame else (do
  ether_type ← u16_at 12 frame
  if not (ether_type == 0x0800) then ok frame else clamp_ip frame max_mss (drop 14 frame))
