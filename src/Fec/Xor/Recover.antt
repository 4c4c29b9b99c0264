-- ===== src/Fec/Xor/Recover.antt =====
-- internal/fec/fec.go: xorRecover undoes xorAll for one lost packet.
use supervpn.Base.{
  ℕ, suc, ◌+◌, ◌-◌, ◌≤◌, ◌<◌, ◌≡◌, refl, ap, ◌∙◌, sym, List, [], ◌∷◌, ◌++◌, ltb, bit_xor,
  if◌then◌else◌, length, replicate, arith, Option, none, some, set, length-replicate, length-append,
  get_or, ne→==-false, get_or-replicate,
}
use mathlib.Core.List.{map}
use native.Mathlib.Nat.{zero-add}
use supervpn.Base.Bits.Xor.{bit_xor_comm, bit_xor_assoc, bit_xor_self, bit_xor-zero, bit_xor_cancel}
use supervpn.Fec.Xor.{
  at, max_len_from, xor_each, xor_into, xor_all, find_missing, xor_others, xor_recover,
  recovered_from, pad, xor_bytes, length-xor_each, get_or-xor_each, xor_bytes-append, eq_of_bytes,
  get_or-pad,
}

le-max_len : (ps : List (List ℕ)) (acc : ℕ) → acc ≤ max_len_from acc ps
unfolding max_len_from
le-max_len [] acc = omega arith
le-max_len (p ∷ ps) acc = ground (arith, le-max_len ps (length p), le-max_len ps acc)

length-le-max_len :
    (xs ys : List (List ℕ)) (p : List ℕ) (acc : ℕ) → length p ≤ max_len_from acc (xs ++ (p ∷ ys))
unfolding max_len_from
length-le-max_len [] ys p acc = ground (arith, le-max_len ys (length p), le-max_len ys acc)
length-le-max_len (x ∷ xs) ys p acc =
    length-le-max_len xs ys p (if ltb acc (length x) then length x else acc)

abbrev received : List (List ℕ) → List (Option (List ℕ))
received = map some

-- A block of which one packet did not arrive.
abbrev pub all_but : List (List ℕ) → List (List ℕ) → List (Option (List ℕ))
all_but xs ys = map some xs ++ (none ∷ map some ys)

find_missing-received :
    (ys : List (List ℕ)) (i : ℕ) (found : Option ℕ) → find_missing i found (received ys) ≡ at found
unfolding find_missing
find_missing-received [] i found = refl
find_missing-received (y ∷ ys) i found = find_missing-received ys (suc i) found

find_missing-all_but :
    (xs ys : List (List ℕ)) (i : ℕ)
    → find_missing i none (all_but xs ys) ≡ at (some (i + length xs))
unfolding find_missing
find_missing-all_but [] ys i =
    find_missing-received ys (suc i) (some i) ∙ ap (λ t. at (some t)) (omega arith)
find_missing-all_but (x ∷ xs) ys i =
    find_missing-all_but xs ys (suc i) ∙ ap (λ t. at (some t)) (omega arith)

xor_others-received :
    (ys : List (List ℕ)) (i m : ℕ) (out : List ℕ)
    → m < i
    → xor_others i m out (received ys) ≡ xor_each out ys
unfolding xor_others xor_each
xor_others-received [] i m out h = refl
xor_others-received (y ∷ ys) i m out h =
    ap (λ b. xor_others (suc i) m (if b then out else xor_into out y) (received ys))
      (ne→==-false i m (omega arith))
    ∙ xor_others-received ys (suc i) m (xor_into out y) (omega arith)

xor_others-all_but :
    (xs ys : List (List ℕ)) (i m : ℕ) (out : List ℕ)
    → m ≡ i + length xs
    → xor_others i m out (all_but xs ys) ≡ xor_each (xor_each out xs) ys
unfolding xor_others xor_each
xor_others-all_but [] ys i m out h = xor_others-received ys (suc i) m out (omega arith)
xor_others-all_but (x ∷ xs) ys i m out h =
    ap (λ b. xor_others (suc i) m (if b then out else xor_into out x) (all_but xs ys))
      (ne→==-false i m (omega arith))
    ∙ xor_others-all_but xs ys (suc i) m (xor_into out x) (omega arith)

set-all_but :
    (xs ys : List (List ℕ)) (v : Option (List ℕ))
    → set (all_but xs ys) (length xs) v ≡ map some xs ++ (v ∷ map some ys)
set-all_but [] ys v = refl
set-all_but (x ∷ xs) ys v = ap (◌∷◌ (some x)) (set-all_but xs ys v)

xor_twice : (a b c : ℕ) → bit_xor (bit_xor (bit_xor a (bit_xor b c)) a) c ≡ b
xor_twice a b c =
    ap (λ t. bit_xor t c)
      (bit_xor_comm (bit_xor a (bit_xor b c)) a
        ∙ sym (bit_xor_assoc a a (bit_xor b c))
        ∙ ap (λ t. bit_xor t (bit_xor b c)) (bit_xor_self a)
        ∙ bit_xor_comm 0 (bit_xor b c)
        ∙ bit_xor-zero (bit_xor b c))
    ∙ bit_xor_cancel b c

module _ (xs ys : List (List ℕ)) (p : List ℕ) where
  abbrev longest : ℕ
  longest = max_len_from 0 (xs ++ (p ∷ ys))

  repair : List ℕ
  repair = xor_all (xs ++ (p ∷ ys))

  length-repair : length repair ≡ longest
  unfolding repair xor_all
  length-repair =
      length-xor_each (xs ++ (p ∷ ys)) (replicate longest 0) ∙ length-replicate {A = ℕ} longest 0

  repair_byte :
      (j : ℕ)
      → j < longest
      → get_or repair j 0 ≡ bit_xor (xor_bytes j xs) (bit_xor (get_or p j 0) (xor_bytes j ys))
  unfolding repair xor_all
  repair_byte j h =
      get_or-xor_each (xs ++ (p ∷ ys)) (replicate longest 0) j
        (omega (arith, length-replicate {A = ℕ} longest 0))
      ∙ ap (λ t. bit_xor t (xor_bytes j (xs ++ (p ∷ ys)))) (get_or-replicate {A = ℕ} longest j 0)
      ∙ bit_xor_comm 0 (xor_bytes j (xs ++ (p ∷ ys)))
      ∙ bit_xor-zero (xor_bytes j (xs ++ (p ∷ ys)))
      ∙ unfold xor_bytes in xor_bytes-append j xs (p ∷ ys)

  recovered : List ℕ
  recovered = xor_each (xor_each repair xs) ys

  recovered-pad : recovered ≡ pad longest p
  unfolding recovered
  recovered-pad = eq_of_bytes recovered (pad longest p) same_length bytes
    where
      len : length (xor_each (xor_each repair xs) ys) ≡ longest
      len = length-xor_each ys (xor_each repair xs) ∙ length-xor_each xs repair ∙ length-repair

      same_length : length (xor_each (xor_each repair xs) ys) ≡ length (pad longest p)
      same_length = omega (
        arith,
        len,
        length-append {0} p (replicate (longest - length p) 0),
        length-replicate {A = ℕ} (longest - length p) 0,
        length-le-max_len xs ys p 0,
      )

      bytes :
          (j : ℕ)
          → j < length (xor_each (xor_each repair xs) ys)
          → get_or (xor_each (xor_each repair xs) ys) j 0 ≡ get_or (pad longest p) j 0
      bytes j h =
          get_or-xor_each ys (xor_each repair xs) j
            (omega (arith, len, length-xor_each xs repair, length-repair))
          ∙ ap (λ t. bit_xor t (xor_bytes j ys))
              (get_or-xor_each xs repair j (omega (arith, len, length-repair)))
          ∙ ap (λ t. bit_xor (bit_xor t (xor_bytes j xs)) (xor_bytes j ys))
              (repair_byte j (omega (arith, len)))
          ∙ xor_twice (xor_bytes j xs) (get_or p j 0) (xor_bytes j ys)
          ∙ sym (get_or-pad longest p j)

-- One lost packet of a block comes back from the repair packet, padded with zeros to the length of
-- the longest packet of the block; the others are as they were.
pub xor_recover-xor_all :
    (xs ys : List (List ℕ)) (p : List ℕ)
    → xor_recover (all_but xs ys) (xor_all (xs ++ (p ∷ ys)))
      ≡ some (map some xs ++ (some (pad (max_len_from 0 (xs ++ (p ∷ ys))) p) ∷ map some ys))
unfolding xor_recover
xor_recover-xor_all xs ys p =
    ap (λ x. recovered_from x (all_but xs ys) (xor_all (xs ++ (p ∷ ys))))
      (find_missing-all_but xs ys 0 ∙ ap (λ t. at (some t)) (zero-add (length xs)))
    ∙ (ap some (
        set-all_but xs ys
          (some (xor_others 0 (length xs) (xor_all (xs ++ (p ∷ ys))) (all_but xs ys)))
        ∙ ap (λ q. map some xs ++ (some q ∷ map some ys))
            (xor_others-all_but xs ys 0 (length xs) (xor_all (xs ++ (p ∷ ys))) (omega arith)
              ∙ unfold recovered repair in recovered-pad xs ys p)))
