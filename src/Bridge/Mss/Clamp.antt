-- ===== src/Bridge/Mss/Clamp.antt =====
-- internal/bridge/mssclamp.go: what ClampTCPMSS returns.
use supervpn.Base.{
  ℕ, zero, suc, ◌+◌, ◌-◌, ◌*◌, ◌/◌, ◌%◌, ◌^◌, ◌≤◌, ◌<◌, ◌≡◌, refl, List, ltb, leb, ◌==◌, ◌||◌, ◌&&◌,
  not, length, length-take, length-drop, arith, true, false, Bool-cases, inl, inr, ap, subst,
  ltb→lt, ltb-false→le, take, drop, get_or, All, IsByte, some, ok,
}
use supervpn.Bridge.Mss.{clamp_option, clamp_options, clamp_tcp, clamp_ip, clamp_tcp_mss}
use supervpn.Bridge.Mss.Words.{
  word, index-get_or, u16_at-word, rewrite-Rewritten, Inside, word-Inside, drop-Inside, take-Inside,
  whole-Inside,
}
use supervpn.Bridge.Mss.Position.{
  mss_among, segment_start, segment_header, is_ipv4, is_tcp_syn, mss_position, above, Lowers,
  Clamped,
}

module _ (frame : List ℕ) (max_mss : ℕ) (bytes : All IsByte frame) (small : max_mss < 2 ^ 16) where
  clamp_option-Lowers :
      (ihl : ℕ) (opts : List ℕ) (i : ℕ)
      → Inside frame (14 + ihl + 20) opts
      → i + 3 < length opts
      → Lowers frame max_mss
          (14 + ihl)
          (above frame max_mss (some (14 + ihl + 20 + (i + 2))))
          (clamp_option frame max_mss ihl opts i)
  unfolding clamp_option
  clamp_option-Lowers ihl opts i v lt =
      let place = 14 + ihl + 20 + (i + 2) in
      let same : 14 + ihl + 20 + i + 2 ≡ place = omega arith in
      rw
        (
          u16_at-word (i + 2) opts (omega arith),
          word-Inside frame opts (14 + ihl + 20) (i + 2) v (omega arith),
          same,
        )
        (elim (Bool-cases (leb (word place frame) max_mss)) [
          | inl fine ↦ rw fine (inl (refl, refl))
          | inr high ↦
              let (out, e, w) =
                rewrite-Rewritten frame place (14 + ihl) (14 + ihl + 16) (word place frame) max_mss
                  bytes (omega (arith, v.fits)) refl (omega arith) small refl (ground arith) in
              rw (high, e) (inr (place, out, refl, refl, w))
        ])

  clamp_options-Lowers :
      (fuel ihl : ℕ) (opts : List ℕ) (i : ℕ)
      → Inside frame (14 + ihl + 20) opts
      → i ≤ length opts
      → length opts < fuel + i
      → Lowers frame max_mss
          (14 + ihl)
          (above frame max_mss (mss_among fuel frame (14 + ihl + 20) (length opts) i))
          (clamp_options fuel frame max_mss ihl opts i)
  unfolding clamp_options mss_among
  clamp_options-Lowers zero ihl opts i v le h = absurd (omega arith)
  clamp_options-Lowers (suc fuel) ihl opts i v le h =
      elim (Bool-cases (ltb (i + 1) (length opts))) [
        | inr end_ ↦ rw end_ (inl (refl, refl))
        | inl more ↦
            let lt = ltb→lt (i + 1) (length opts) more in
            let from = 14 + ihl + 20 in
            let kind = get_or frame (from + i) 0 in
            let opt_len = get_or frame (from + (i + 1)) 0 in
            rw
              (
                more,
                index-get_or i opts (omega arith),
                index-get_or (i + 1) opts lt,
                v.bytes_of i (omega arith),
                v.bytes_of (i + 1) lt,
              )
              (elim (Bool-cases (kind == 0)) [
                | inl end_of ↦ rw end_of (inl (refl, refl))
                | inr not_end ↦ rw not_end (elim (Bool-cases (kind == 1)) [
                  | inl nop ↦
                      rw nop
                        (clamp_options-Lowers fuel ihl opts (i + 1) v (omega arith) (omega arith))
                  | inr not_nop ↦
                      rw not_nop
                        (elim (Bool-cases (ltb opt_len 2 || ltb (length opts) (i + opt_len))) [
                          | inl bad ↦ rw bad (inl (refl, refl))
                          | inr good ↦ rw good (elim (Bool-cases (kind == 2 && opt_len == 4)) [
                            | inl is_mss ↦
                                rw is_mss (clamp_option-Lowers ihl opts i v (ground arith))
                            | inr other ↦ rw other (
                                clamp_options-Lowers fuel ihl opts (i + opt_len) v (ground arith)
                                  (ground arith))
                          ])
                        ])
                ])
              ])
      ]

  -- A frame without a place for an MSS stays.
  no_position :
      (start : ℕ)
      → (is_ipv4 frame && is_tcp_syn frame) ≡ false
      → Lowers frame max_mss start (above frame max_mss (mss_position frame)) (ok frame)
  no_position start e = rw e (inl (refl, refl))

  clamp_tcp-Lowers :
      (tcp : List ℕ)
      → is_ipv4 frame ≡ true
      → (get_or frame 23 0 == 6) ≡ true
      → length tcp + segment_start frame ≡ length frame
      → Inside frame (segment_start frame) tcp
      → Lowers frame max_mss
          (segment_start frame)
          (above frame max_mss (mss_position frame))
          (clamp_tcp frame max_mss (get_or frame 14 0 % 16 * 4) tcp)
  unfolding clamp_tcp
  clamp_tcp-Lowers tcp ipv4 protocol len v = elim (Bool-cases (ltb (length tcp) 20)) [
    | inl short ↦ rw short (no_position _ (ground arith))
    | inr long ↦
        let le = ltb-false→le (length tcp) 20 long in
        let start = segment_start frame in
        let ihl = get_or frame 14 0 % 16 * 4 in
        let flags = get_or frame (start + 13) 0 in
        let data_off = segment_header frame in
        let opts = take (data_off - 20) (drop 20 tcp) in
        rw
          (
            long,
            index-get_or 13 tcp (omega arith),
            index-get_or 12 tcp (omega arith),
            v.bytes_of 13 (omega arith),
            v.bytes_of 12 (omega arith),
          )
          (elim (Bool-cases (flags / 2 % 2 == 0 || ltb data_off 20 || ltb (length tcp) data_off)) [
            | inl other ↦ rw other (no_position _ (ground arith))
            | inr syn ↦
                let is_syn : (is_ipv4 frame && is_tcp_syn frame) ≡ true = ground arith in
                let count : length opts ≡ data_off - 20 =
                  ground (
                    arith,
                    length-take {0} (data_off - 20) (drop 20 tcp),
                    length-drop {0} 20 tcp,
                  ) in
                rw (syn, is_syn)
                  (subst
                    (λ n.
                      Lowers frame max_mss start
                        (above frame max_mss (mss_among (n + 1) frame (start + 20) n 0))
                        (clamp_options (length opts + 1) frame max_mss ihl opts 0))
                    count
                    (clamp_options-Lowers (length opts + 1) ihl opts 0
                      (take-Inside frame (drop 20 tcp) (start + 20) (data_off - 20)
                        (drop-Inside frame tcp start 20 le v))
                      (omega arith) (omega arith)))
          ])
  ]

  clamp_ip-Lowers :
      (ip : List ℕ)
      → (word 12 frame == 0x0800) ≡ true
      → length ip + 14 ≡ length frame
      → Inside frame 14 ip
      → Lowers frame max_mss
          (segment_start frame)
          (above frame max_mss (mss_position frame))
          (clamp_ip frame max_mss ip)
  unfolding clamp_ip
  clamp_ip-Lowers ip ether len v = elim (Bool-cases (ltb (length ip) 20)) [
    | inl short ↦ rw short (no_position _ (ground arith))
    | inr long ↦
        let le = ltb-false→le (length ip) 20 long in
        let first = get_or frame 14 0 in
        let ihl = first % 16 * 4 in
        rw
          (
            long,
            index-get_or 0 ip (omega arith),
            index-get_or 9 ip (omega arith),
            v.bytes_of 0 (omega arith),
            v.bytes_of 9 (omega arith),
          )
          (elim (Bool-cases (
            not (first / 16 == 4)
            || ltb ihl 20
            || ltb (length ip) ihl
            || not (get_or frame 23 0 == 6))) [
              | inl other ↦ rw other (no_position _ (ground arith))
              | inr tcp ↦ rw tcp (
                  clamp_tcp-Lowers (drop ihl ip) (ground arith) (ground arith)
                    (ground (arith, length-drop {0} ihl ip))
                    (drop-Inside frame ip 14 ihl (ground arith) v))
            ])
  ]

-- For any frame, ClampTCPMSS returns without an index out of range, and its loops end. It returns the
-- frame itself exactly where maxMSS is 0, where the frame is no IPv4 TCP SYN with an MSS option that its
-- header fits, or where that MSS is not above maxMSS. Otherwise it returns a copy of the same length
-- that differs in two words only: the MSS, which now is maxMSS, and the checksum word at byte 16 of the
-- TCP header, which keeps the sum of the two modulo 2^16 - 1. Where the MSS value starts at an even
-- offset of the segment, this keeps the sum of the segment's words modulo 2^16 - 1, so that a correct
-- TCP checksum stays correct.
pub clamp_tcp_mss-Clamped :
    (frame : List ℕ) (max_mss : ℕ)
    → All IsByte frame
    → max_mss < 2 ^ 16
    → Clamped frame max_mss (clamp_tcp_mss frame max_mss)
unfolding clamp_tcp_mss
clamp_tcp_mss-Clamped frame max_mss bytes small = elim (Bool-cases (max_mss == 0)) [
  | inl off ↦ rw off (inl (refl, refl))
  | inr on_ ↦ elim (Bool-cases (ltb (length frame) 14)) [
    | inl short ↦ rw (on_, short) (no_position frame max_mss bytes small _ (ground arith))
    | inr long ↦
        rw (on_, long, u16_at-word 12 frame (ground arith))
          (elim (Bool-cases (word 12 frame == 0x0800)) [
            | inr other ↦ rw (ap not other) (no_position frame max_mss bytes small _ (ground arith))
            | inl ether ↦ rw (ap not ether) (
                clamp_ip-Lowers frame max_mss bytes small (drop 14 frame) ether
                  (ground (arith, length-drop {0} 14 frame))
                  (drop-Inside frame frame 0 14 (ground arith) (whole-Inside frame)))
          ])
  ]
]
