-- ===== src/Base/Text.antt =====
-- Go strings as lists of bytes: comparison, maps with string keys, and what fmt and encoding/hex write.
use Prim.Native.Char.{code}
use Prim.Native.String.{String}
use Prim.Native.Nat.{ℕ, zero, suc, ◌+◌, ◌-◌, ◌/◌, ◌%◌}
use mathlib.Core.Path.{◌≡◌, refl, ap₂}
use mathlib.Core.Bool.{Bool, true, false, ◌&&◌, ◌||◌}
use mathlib.Core.List.{List, [], ◌∷◌}
use mathlib.Core.Option.{Option, none, some}
use native.Mathlib.Omega.{arith}
use supervpn.Base.Tests.{◌==◌, ltb, if◌then◌else◌}

-- The bytes of an ASCII text.
abbrev pub codes : String → List ℕ
codes String.[] = []
codes (String.◌∷◌ c s) = code c ∷ codes s

unfoldable pub same_bytes : List ℕ → List ℕ → Bool
same_bytes [] [] = true
same_bytes [] (b ∷ bs) = false
same_bytes (a ∷ as_) [] = false
same_bytes (a ∷ as_) (b ∷ bs) = a == b && same_bytes as_ bs

pub same_bytes_self : (a : List ℕ) → same_bytes a a ≡ true
unfolding same_bytes
same_bytes_self [] = refl
same_bytes_self (a ∷ as_) = ground (arith, same_bytes_self as_)

pub same_bytes→≡ : (a b : List ℕ) → same_bytes a b ≡ true → a ≡ b
unfolding same_bytes
same_bytes→≡ [] [] e = refl
same_bytes→≡ [] (b ∷ bs) e = cc
same_bytes→≡ (a ∷ as_) [] e = cc
same_bytes→≡ (a ∷ as_) (b ∷ bs) e =
    ap₂ ◌∷◌ {x = a} {y = b} (ground arith) (same_bytes→≡ as_ bs (ground arith))

-- `a > b` on strings.
unfoldable pub is_after : List ℕ → List ℕ → Bool
is_after [] b = false
is_after (x ∷ a) [] = true
is_after (x ∷ a) (y ∷ b) = ltb y x || (x == y && is_after a b)

pub is_after_one_way : (a b : List ℕ) → is_after a b ≡ true → is_after b a ≡ false
unfolding is_after
is_after_one_way [] b e = cc
is_after_one_way (x ∷ a) [] e = refl
is_after_one_way (x ∷ a) (y ∷ b) e = ground (arith, is_after_one_way a b)

pub is_after_neither : (a b : List ℕ) → is_after a b ≡ false → is_after b a ≡ false → a ≡ b
unfolding is_after
is_after_neither [] [] e f = refl
is_after_neither [] (y ∷ b) e f = cc
is_after_neither (x ∷ a) [] e f = cc
is_after_neither (x ∷ a) (y ∷ b) e f =
    ap₂ ◌∷◌ {x = x} {y = y} (ground arith) (is_after_neither a b (ground arith) (ground arith))

module _ {ℓ} {A : Type ℓ} where
  unfoldable pub find_text : List ℕ → List (List ℕ × A) → Option A
  find_text key [] = none
  find_text key ((k, a) ∷ entries) =
      let rest = find_text key entries in if same_bytes k key then some a else rest

  unfoldable pub store_text : List ℕ → A → List (List ℕ × A) → List (List ℕ × A)
  store_text key a [] = (key, a) ∷ []
  store_text key a ((k, b) ∷ entries) =
      let rest = store_text key a entries in
      if same_bytes k key then (key, a) ∷ entries else (k, b) ∷ rest

  unfoldable pub erase_text : List ℕ → List (List ℕ × A) → List (List ℕ × A)
  erase_text key [] = []
  erase_text key ((k, a) ∷ entries) =
      let rest = erase_text key entries in if same_bytes k key then rest else (k, a) ∷ rest

  -- The entries that pass a test.
  unfoldable pub keep_text : (A → Bool) → List (List ℕ × A) → List (List ℕ × A)
  keep_text test [] = []
  keep_text test ((k, a) ∷ entries) =
      let rest = keep_text test entries in if test a then (k, a) ∷ rest else rest

unfoldable pub has_text : List ℕ → List (List ℕ) → Bool
has_text key [] = false
has_text key (k ∷ keys) = same_bytes k key || has_text key keys

unfoldable pub remove_text : List ℕ → List (List ℕ) → List (List ℕ)
remove_text key [] = []
remove_text key (k ∷ keys) =
    let rest = remove_text key keys in if same_bytes k key then rest else k ∷ rest

-- The decimal digits of a number, written before `acc`; the fuel bounds their count.
unfoldable pub decimal_from : ℕ → ℕ → List ℕ → List ℕ
decimal_from zero n acc = acc
decimal_from (suc fuel) n acc =
    let digits = (b'0' + n % 10) ∷ acc in
    let more = decimal_from fuel (n / 10) digits in if ltb n 10 then digits else more

-- `%d` of a number that is not negative: it has at most n + 1 digits.
unfoldable pub decimal : ℕ → List ℕ
decimal n = decimal_from (suc n) n []

-- `hextable[b]`
unfoldable pub hex_digit : ℕ → ℕ
hex_digit b = if ltb b 10 then b'0' + b else b'a' + (b % 16) - 10

-- `hex.EncodeToString`
unfoldable pub hex_encode : List ℕ → List ℕ
hex_encode [] = []
hex_encode (b ∷ bs) = hex_digit (b / 16 % 16) ∷ hex_digit (b % 16) ∷ hex_encode bs
