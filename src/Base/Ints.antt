-- ===== src/Base/Ints.antt =====
-- A Go int as a number with a sign, and strconv on it.
use Prim.Native.Nat.{ℕ, zero, suc, ◌+◌, ◌-◌, ◌*◌, ◌^◌}
use mathlib.Core.Bool.{Bool, ◌&&◌}
use mathlib.Core.List.{List, [], ◌∷◌}
use mathlib.Core.Option.{Option, none, some}
use supervpn.Base.Tests.{◌==◌, ltb, leb, if◌then◌else◌}
use supervpn.Base.Text.{decimal}

pub data ℤ : Type 0 where
  pos : ℕ → ℤ
  negsuc : ℕ → ℤ

abbrev pub is_digit : ℕ → Bool
is_digit c = leb b'0' c && leb c b'9'

-- The number that decimal digits stand for after `acc`; another byte is an error.
unfoldable pub digits_from : ℕ → List ℕ → Option ℕ
digits_from acc [] = some acc
digits_from acc (c ∷ cs) =
    let rest = digits_from (acc * 10 + (c - b'0')) cs in if is_digit c then rest else none

-- One digit at least.
unfoldable pub digits : List ℕ → Option ℕ
digits [] = none
digits (c ∷ cs) = digits_from 0 (c ∷ cs)

unfoldable pub negative : ℕ → ℤ
negative zero = pos 0
negative (suc n) = negsuc n

unfoldable pub in_int64 : Option ℕ → Option ℤ
in_int64 none = none
in_int64 (some n) = if ltb n (2 ^ 63) then some (pos n) else none

unfoldable pub in_negative_int64 : Option ℕ → Option ℤ
in_negative_int64 none = none
in_negative_int64 (some n) = if leb n (2 ^ 63) then some (negative n) else none

-- `strconv.Atoi`: digits with an optional sign, in the range of int64.
unfoldable pub atoi : List ℕ → Option ℤ
atoi [] = none
atoi (c ∷ cs) =
    if c == b'-'
    then in_negative_int64 (digits cs)
    else if c == b'+'
    then in_int64 (digits cs)
    else in_int64 (digits (c ∷ cs))

-- `strconv.Itoa`
unfoldable pub itoa : ℤ → List ℕ
itoa (pos n) = decimal n
itoa (negsuc n) = b'-' ∷ decimal (suc n)

-- `n + 1` on an int64.
unfoldable pub next_int : ℤ → ℤ
next_int (pos n) = if suc n == 2 ^ 63 then negsuc (2 ^ 63 - 1) else pos (suc n)
next_int (negsuc zero) = pos 0
next_int (negsuc (suc n)) = negsuc n
