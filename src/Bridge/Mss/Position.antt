-- ===== src/Bridge/Mss/Position.antt =====
-- internal/bridge/mssclamp.go: where a frame has the MSS that ClampTCPMSS is to lower, described on the
-- bytes of the whole frame.
use supervpn.Base.{
  ℕ, zero, suc, ◌+◌, ◌-◌, ◌*◌, ◌/◌, ◌%◌, ◌≡◌, List, length, ltb, leb, ◌==◌, ◌||◌, ◌&&◌, not,
  if◌then◌else◌, Bool, Option, none, some, get_or, Go, ok, ◌⊎◌,
}
use supervpn.Bridge.Mss.{Stuck}
use supervpn.Bridge.Mss.Words.{word, Rewritten}

-- The MSS value in the TCP options, the `count` bytes of the frame from `from` on, of which `i` have been
-- read: an end of the options or an option that does not fit them ends the list, a NOP is one byte, and
-- any other option is as long as its second byte says.
unfoldable pub mss_among : ℕ → List ℕ → ℕ → ℕ → ℕ → Option ℕ
mss_among zero frame from count i = none
mss_among (suc fuel) frame from count i =
    let later = mss_among fuel frame from count in
    let kind = get_or frame (from + i) 0 in
    let len = get_or frame (from + (i + 1)) 0 in
    if not (ltb (i + 1) count) || kind == 0
    then none
    else if kind == 1
    then later (i + 1)
    else if ltb len 2 || ltb count (i + len)
    then none
    else if kind == 2 && len == 4
    then some (from + (i + 2))
    else later (i + len)

-- Where the TCP segment starts, and how long its header is.
abbrev pub segment_start : List ℕ → ℕ
segment_start frame = 14 + get_or frame 14 0 % 16 * 4

abbrev pub segment_header : List ℕ → ℕ
segment_header frame = get_or frame (segment_start frame + 12) 0 / 16 * 4

abbrev pub is_ipv4 : List ℕ → Bool
is_ipv4 frame =
    leb 34 (length frame)
    && word 12 frame == 0x0800
    && get_or frame 14 0 / 16 == 4
    && leb 34 (segment_start frame)

abbrev pub is_tcp_syn : List ℕ → Bool
is_tcp_syn frame =
    get_or frame 23 0 == 6
    && leb (segment_start frame + 20) (length frame)
    && not (get_or frame (segment_start frame + 13) 0 / 2 % 2 == 0)
    && leb 20 (segment_header frame)
    && leb (segment_start frame + segment_header frame) (length frame)

-- Where a frame has an MSS: in the options of an IPv4 TCP SYN.
abbrev pub mss_position : List ℕ → Option ℕ
mss_position frame =
    if is_ipv4 frame && is_tcp_syn frame
    then mss_among (segment_header frame - 20 + 1) frame (segment_start frame + 20)
        (segment_header frame - 20) 0
    else none

-- The position if the MSS there is above `max_mss`.
abbrev pub above : List ℕ → ℕ → Option ℕ → Option ℕ
above frame max_mss none = none
above frame max_mss (some mss) = if leb (word mss frame) max_mss then none else some mss

abbrev pub to_lower : List ℕ → ℕ → Option ℕ
to_lower frame max_mss = if max_mss == 0 then none else above frame max_mss (mss_position frame)

-- The frame itself where there is nothing to lower, and the rewritten one where there is.
abbrev pub Lowers : List ℕ → ℕ → ℕ → Option ℕ → Go Stuck (List ℕ) → Type 0
Lowers frame max_mss start lower result =
    ((result ≡ ok frame) × (lower ≡ none))
    ⊎ ((mss : ℕ) × (out : List ℕ) × (lower ≡ some mss)
        × (result ≡ ok out)
        × Rewritten frame max_mss mss start (start + 16) out)

abbrev pub Clamped : List ℕ → ℕ → Go Stuck (List ℕ) → Type 0
Clamped frame max_mss result =
    Lowers frame max_mss (segment_start frame) (to_lower frame max_mss) result
