-- ===== src/Proto/Header.antt =====
-- internal/proto/packet.go: frame types and the 15-byte header of every packet.
use supervpn.Base.{
  All, IsByte, ap, ap₂, ◌∙◌, sym, [], le→ltb-false, put_u16-big_endian, put_u32-big_endian,
  put_u64-big_endian, ℕ, ◌+◌, ◌<◌, ◌^◌, ◌≡◌, Option, none, some, List, ◌∷◌, ◌++◌, arith, ltb,
  if◌then◌else◌, length, take, drop, get_or, byte, put_u16, put_u32, put_u64, big_endian,
  big_endian-put_u16, big_endian-put_u32, big_endian-put_u64, lt→ltb,
}

abbrev pub header_size : ℕ
header_size = 1 + 2 + 4 + 8

-- The constants of the type `FrameType`.
abbrev pub frame_data : ℕ
frame_data = 0x01

abbrev pub frame_repair : ℕ
frame_repair = 0x02

abbrev pub frame_join : ℕ
frame_join = 0x03

abbrev pub frame_data_frag : ℕ
frame_data_frag = 0x04

abbrev pub frame_auth : ℕ
frame_auth = 0x10

abbrev pub frame_list_hubs : ℕ
frame_list_hubs = 0x11

abbrev pub frame_ping : ℕ
frame_ping = 0x20

abbrev pub frame_pong : ℕ
frame_pong = 0x21

abbrev pub frame_update_get : ℕ
frame_update_get = 0x30

abbrev pub frame_update_data : ℕ
frame_update_data = 0x31

abbrev pub max_frame_plaintext : ℕ
max_frame_plaintext = 1400

pub record Header : Type 0 where
  pub frame_type : ℕ
  pub hub_id : ℕ
  pub session_id : ℕ
  pub seq : ℕ

-- The ranges of the Go types FrameType, uint16, uint32 and uint64.
pub record InRange (h : Header) : Type 0 where
  pub type_lt : h.frame_type < 2 ^ 8
  pub hub_lt : h.hub_id < 2 ^ 16
  pub session_lt : h.session_id < 2 ^ 32
  pub seq_lt : h.seq < 2 ^ 64

-- What the method writes into the first 15 bytes of `dst`.
unfoldable pub marshal : Header → List ℕ
marshal h = byte h.frame_type ∷ (put_u16 h.hub_id ++ put_u32 h.session_id ++ put_u64 h.seq)

unfoldable pub parse_header : List ℕ → Option Header
parse_header src =
    if ltb (length src) header_size
    then none
    else some (record {
      frame_type = get_or src 0 0;
      hub_id = big_endian (take 2 (drop 1 src));
      session_id = big_endian (take 4 (drop 3 src));
      seq = big_endian (take 8 (drop 7 src));
    })

-- A header that was written is read back, whatever payload follows it.
pub parse_header-marshal :
    (h : Header) (payload : List ℕ) → InRange h → parse_header (marshal h ++ payload) ≡ some h
unfolding marshal parse_header
parse_header-marshal h payload r = ground (
  arith,
  lt→ltb (length payload) 0,
  big_endian-put_u16 h.hub_id,
  big_endian-put_u32 h.session_id,
  big_endian-put_u64 h.seq,
)

some-record : (h k : Header) → some h ≡ some k → h ≡ k
some-record h k e = cc

read_back :
    (b0 b1 b2 b3 b4 b5 b6 b7 b8 b9 b10 b11 b12 b13 b14 : ℕ) (rest : List ℕ)
    → All IsByte
        (b0 ∷ b1 ∷ b2 ∷ b3 ∷ b4 ∷ b5 ∷ b6 ∷ b7 ∷ b8 ∷ b9 ∷ b10 ∷ b11 ∷ b12 ∷ b13 ∷ b14 ∷ rest)
    → let h : Header = record {
      frame_type = b0;
      hub_id = big_endian (b1 ∷ b2 ∷ []);
      session_id = big_endian (b3 ∷ b4 ∷ b5 ∷ b6 ∷ []);
      seq = big_endian (b7 ∷ b8 ∷ b9 ∷ b10 ∷ b11 ∷ b12 ∷ b13 ∷ b14 ∷ []);
    } in
      marshal h ≡ b0 ∷ b1 ∷ b2 ∷ b3 ∷ b4 ∷ b5 ∷ b6 ∷ b7 ∷ b8 ∷ b9 ∷ b10 ∷ b11 ∷ b12 ∷ b13 ∷ b14 ∷ []
unfolding marshal
read_back b0 b1 b2 b3 b4 b5 b6 b7 b8 b9 b10 b11 b12 b13 b14 rest v =
    ap₂ ◌∷◌ {x = byte b0} {y = b0} (omega arith) (
      ap₂ ◌++◌ (put_u16-big_endian b1 b2 (v.1.0) (v.1.1.0)) (
        ap₂ ◌++◌
          (put_u32-big_endian b3 b4 b5 b6 (omega arith) (omega arith) (omega arith) (omega arith))
          (put_u64-big_endian b7 b8 b9 b10 b11 b12 b13 b14 (omega arith) (omega arith) (omega arith)
            (omega arith) (omega arith) (omega arith) (omega arith) (omega arith))))

-- The header that is read from bytes stands for the first 15 of them: writing it gives them back.
pub marshal-parse_header :
    (src : List ℕ) (h : Header)
    → All IsByte src
    → parse_header src ≡ some h
    → marshal h ≡ take 15 src
unfolding parse_header
marshal-parse_header
      (b0 ∷ b1 ∷ b2 ∷ b3 ∷ b4 ∷ b5 ∷ b6 ∷ b7 ∷ b8 ∷ b9 ∷ b10 ∷ b11 ∷ b12 ∷ b13 ∷ b14 ∷ rest) h v e =
    ap marshal (
      sym (
        some-record _ _ (
          rw
            (le→ltb-false
              (length (
                b0 ∷ b1 ∷ b2 ∷ b3 ∷ b4 ∷ b5 ∷ b6 ∷ b7 ∷ b8 ∷ b9 ∷ b10 ∷ b11 ∷ b12 ∷ b13 ∷ b14
                ∷ rest))
              15 (omega arith))
            at e)))
    ∙ read_back b0 b1 b2 b3 b4 b5 b6 b7 b8 b9 b10 b11 b12 b13 b14 rest v
marshal-parse_header _ h v e = cc
