-- ===== src/Fec/Xor.antt =====
-- internal/fec/fec.go: the XOR code of blocks with one repair packet. A `nil` slot is `none`.
pub mod Recover
use supervpn.Base.{
  ℕ, zero, suc, ◌+◌, ◌-◌, ◌≤◌, ◌<◌, ◌≡◌, ◌≢◌, refl, ap, ap₂, ◌∙◌, sym, List, [], ◌∷◌, ◌++◌, ltb,
  leb, bit_xor, if◌then◌else◌, length, replicate, arith, inl, inr, true, false, Option, none, some,
  max, set, ◌==◌, take_all, get_or, get_or-replicate, Bool-cases, ltb→lt, ltb-false→le, get_elem?,
  All, length-replicate, length-append, append-nil,
}
use mathlib.Core.List.{map}
use supervpn.Base.Bits.Xor.{bit_xor_comm, bit_xor_assoc, bit_xor_self, bit_xor-zero, bit_xor_cancel}

pub data FecError : Type 0 where
  unrecoverable : FecError

-- `if len(p) > maxLen { maxLen = len(p) }` over all packets.
unfoldable pub max_len_from : ℕ → List (List ℕ) → ℕ
max_len_from acc [] = acc
max_len_from acc (p ∷ ps) = max_len_from (if ltb acc (length p) then length p else acc) ps

-- `out[i] ^= b` for each byte of p; bytes beyond the end of `out` are skipped.
unfoldable pub xor_into : List ℕ → List ℕ → List ℕ
xor_into [] p = []
xor_into (o ∷ os) [] = o ∷ os
xor_into (o ∷ os) (b ∷ p) = bit_xor o b ∷ xor_into os p

unfoldable pub xor_each : List ℕ → List (List ℕ) → List ℕ
xor_each out [] = out
xor_each out (p ∷ ps) = xor_each (xor_into out p) ps

unfoldable pub xor_all : List (List ℕ) → List ℕ
xor_all pkts = xor_each (replicate (max_len_from 0 pkts) 0) pkts

-- The search for the empty slot: `err` at a second one, else the last found, if any.
pub data Missing : Type 0 where
  many : Missing
  at : Option ℕ → Missing

unfoldable pub find_missing : ℕ → Option ℕ → List (Option (List ℕ)) → Missing
find_missing i found [] = at found
find_missing i found (some p ∷ data') = find_missing (suc i) found data'
find_missing i none (none ∷ data') = find_missing (suc i) (some i) data'
find_missing i (some j) (none ∷ data') = many

-- `for i, p := range data { if i == missingIdx { continue } ... }`
unfoldable pub xor_others : ℕ → ℕ → List ℕ → List (Option (List ℕ)) → List ℕ
xor_others i missing out [] = out
xor_others i missing out (none ∷ data') = xor_others (suc i) missing out data'
xor_others i missing out (some p ∷ data') =
    xor_others (suc i) missing (if i == missing then out else xor_into out p) data'

unfoldable pub recovered_from :
    Missing → List (Option (List ℕ)) → List ℕ → Option (List (Option (List ℕ)))
recovered_from many slots repair = none
recovered_from (at none) slots repair = some slots
recovered_from (at (some i)) slots repair = some (set slots i (some (xor_others 0 i repair slots)))

-- `none` is ErrUnrecoverable.
unfoldable pub xor_recover : List (Option (List ℕ)) → List ℕ → Option (List (Option (List ℕ)))
unfolding recovered_from
xor_recover slots repair = recovered_from (find_missing 0 none slots) slots repair

-- A packet padded with zeros to n bytes.
abbrev pub pad : ℕ → List ℕ → List ℕ
pad n p = p ++ replicate (n - length p) 0

-- Byte j of all packets together, where a packet that is too short counts as 0.
pub xor_bytes : ℕ → List (List ℕ) → ℕ
xor_bytes j [] = 0
xor_bytes j (p ∷ ps) = bit_xor (get_or p j 0) (xor_bytes j ps)

length-xor_into : (out p : List ℕ) → length (xor_into out p) ≡ length out
unfolding xor_into
length-xor_into [] p = refl
length-xor_into (o ∷ os) [] = refl
length-xor_into (o ∷ os) (b ∷ p) = ap suc (length-xor_into os p)

pub length-xor_each : (ps : List (List ℕ)) (out : List ℕ) → length (xor_each out ps) ≡ length out
unfolding xor_each
length-xor_each [] out = refl
length-xor_each (p ∷ ps) out = length-xor_each ps (xor_into out p) ∙ length-xor_into out p

get_or-xor_into :
    (out p : List ℕ) (j : ℕ)
    → j < length out
    → get_or (xor_into out p) j 0 ≡ bit_xor (get_or out j 0) (get_or p j 0)
unfolding xor_into
get_or-xor_into [] p j h = absurd (omega arith)
get_or-xor_into (o ∷ os) [] j h = sym (bit_xor-zero (get_or (o ∷ os) j 0))
get_or-xor_into (o ∷ os) (b ∷ p) zero h = refl
get_or-xor_into (o ∷ os) (b ∷ p) (suc j) h = get_or-xor_into os p j (omega arith)

pub get_or-xor_each :
    (ps : List (List ℕ)) (out : List ℕ) (j : ℕ)
    → j < length out
    → get_or (xor_each out ps) j 0 ≡ bit_xor (get_or out j 0) (xor_bytes j ps)
unfolding xor_each xor_bytes
get_or-xor_each [] out j h = sym (bit_xor-zero (get_or out j 0))
get_or-xor_each (p ∷ ps) out j h =
    get_or-xor_each ps (xor_into out p) j (omega (arith, length-xor_into out p))
    ∙ ap (λ t. bit_xor t (xor_bytes j ps)) (get_or-xor_into out p j h)
    ∙ bit_xor_assoc (get_or out j 0) (get_or p j 0) (xor_bytes j ps)

pub xor_bytes-append :
    (j : ℕ) (ps qs : List (List ℕ))
    → xor_bytes j (ps ++ qs) ≡ bit_xor (xor_bytes j ps) (xor_bytes j qs)
unfolding xor_bytes
xor_bytes-append j [] qs = sym (bit_xor_comm 0 (xor_bytes j qs) ∙ bit_xor-zero (xor_bytes j qs))
xor_bytes-append j (p ∷ ps) qs =
    ap (bit_xor (get_or p j 0)) (xor_bytes-append j ps qs)
    ∙ sym (bit_xor_assoc (get_or p j 0) (xor_bytes j ps) (xor_bytes j qs))

-- Two byte strings of one length with the same bytes are equal.
pub eq_of_bytes :
    (xs ys : List ℕ)
    → length xs ≡ length ys
    → ((j : ℕ) → j < length xs → get_or xs j 0 ≡ get_or ys j 0)
    → xs ≡ ys
eq_of_bytes [] [] e h = refl
eq_of_bytes [] (y ∷ ys) e h = absurd (omega arith)
eq_of_bytes (x ∷ xs) [] e h = absurd (omega arith)
eq_of_bytes (x ∷ xs) (y ∷ ys) e h =
    ap₂ ◌∷◌ (h 0 (omega arith)) (eq_of_bytes xs ys (omega arith) (λ j lt. h (suc j) (omega arith)))

pub get_or-pad : (n : ℕ) (p : List ℕ) (j : ℕ) → get_or (pad n p) j 0 ≡ get_or p j 0
get_or-pad n [] j = get_or-replicate {A = ℕ} (n - 0) j 0
get_or-pad zero (x ∷ p) zero = refl
get_or-pad n (x ∷ p) zero = refl
get_or-pad n (x ∷ p) (suc j) = go (n - suc (length p)) p j
  where
    go : (k : ℕ) (q : List ℕ) (i : ℕ) → get_or (q ++ replicate k 0) i 0 ≡ get_or q i 0
    go k [] i = get_or-replicate {A = ℕ} k i 0
    go k (y ∷ q) zero = refl
    go k (y ∷ q) (suc i) = go k q i
