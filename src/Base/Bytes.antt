-- ===== src/Base/Bytes.antt =====
-- encoding/binary's BigEndian: PutUint16/32/64 write the bytes of a number, Uint16/32/64 read them.
use Prim.Native.Nat.{ℕ, ◌+◌, ◌*◌, ◌/◌, ◌%◌, ◌^◌, ◌<◌}
use mathlib.Core.Path.{◌≡◌}
use mathlib.Core.List.{List, [], ◌∷◌}
use native.Mathlib.Omega.{arith}

abbrev pub IsByte : ℕ → Type 0
IsByte b = b < 256

abbrev pub byte : ℕ → ℕ
byte v = v % 256

abbrev pub put_u16 : ℕ → List ℕ
put_u16 v = byte (v / 2 ^ 8) ∷ byte v ∷ []

abbrev pub put_u32 : ℕ → List ℕ
put_u32 v = byte (v / 2 ^ 24) ∷ byte (v / 2 ^ 16) ∷ byte (v / 2 ^ 8) ∷ byte v ∷ []

abbrev pub put_u64 : ℕ → List ℕ
put_u64 v =
    byte (v / 2 ^ 56)
    ∷ byte (v / 2 ^ 48)
    ∷ byte (v / 2 ^ 40)
    ∷ byte (v / 2 ^ 32)
    ∷ byte (v / 2 ^ 24)
    ∷ byte (v / 2 ^ 16)
    ∷ byte (v / 2 ^ 8)
    ∷ byte v
    ∷ []

-- The number that a byte string stands for, first byte highest.
abbrev pub big_endian_from : ℕ → List ℕ → ℕ
big_endian_from acc [] = acc
big_endian_from acc (b ∷ bs) = big_endian_from (acc * 256 + b) bs

abbrev pub big_endian : List ℕ → ℕ
big_endian bs = big_endian_from 0 bs

pub big_endian-put_u16 : (v : ℕ) → v < 2 ^ 16 → big_endian (put_u16 v) ≡ v
big_endian-put_u16 v h = omega arith

pub big_endian-put_u32 : (v : ℕ) → v < 2 ^ 32 → big_endian (put_u32 v) ≡ v
big_endian-put_u32 v h = omega arith

pub big_endian-put_u64 : (v : ℕ) → v < 2 ^ 64 → big_endian (put_u64 v) ≡ v
big_endian-put_u64 v h = omega arith

-- The other way round: writing the number that bytes stand for gives the bytes.
pub put_u16-big_endian :
    (a b : ℕ) → a < 256 → b < 256 → put_u16 (big_endian (a ∷ b ∷ [])) ≡ a ∷ b ∷ []
put_u16-big_endian a b ha hb = ground arith

pub put_u32-big_endian :
    (a b c d : ℕ)
    → a < 256
    → b < 256
    → c < 256
    → d < 256
    → put_u32 (big_endian (a ∷ b ∷ c ∷ d ∷ [])) ≡ a ∷ b ∷ c ∷ d ∷ []
put_u32-big_endian a b c d ha hb hc hd = ground arith

pub put_u64-big_endian :
    (a b c d e f g h : ℕ)
    → a < 256
    → b < 256
    → c < 256
    → d < 256
    → e < 256
    → f < 256
    → g < 256
    → h < 256
    → put_u64 (big_endian (a ∷ b ∷ c ∷ d ∷ e ∷ f ∷ g ∷ h ∷ [])) ≡ a ∷ b ∷ c ∷ d ∷ e ∷ f ∷ g ∷ h ∷ []
put_u64-big_endian a b c d e f g h ha hb hc hd he hf hg hh = ground arith
