-- ===== src/Fec/Shards.antt =====
-- internal/fec/fec.go: the Reed-Solomon path. The code of github.com/klauspost/reedsolomon is a
-- parameter, with what its documentation promises of it.
use supervpn.Base.{
  ℕ, ◌+◌, ◌-◌, ◌≤◌, ◌<◌, ◌≡◌, ◌≢◌, List, [], ◌∷◌, ◌++◌, ltb, ◌==◌, if◌then◌else◌, length, replicate,
  true, false, Bool, Option, none, some, take, All,
}
use mathlib.Core.List.{map}
use supervpn.Fec.Xor.{max_len_from}

pub record ReedSolomon : Type 0 where
  -- `New(k, r)` succeeds.
  pub create : ℕ → ℕ → Bool
  -- `Encode`: the repair shards of the data shards, or an error.
  pub encode : ℕ → ℕ → List (List ℕ) → Option (List (List ℕ))
  -- `ReconstructData`: the shards with the missing data filled in, or an error.
  pub reconstruct : ℕ → ℕ → List (Option (List ℕ)) → Option (List (Option (List ℕ)))
  pub create_ok : (k r : ℕ) → 0 < k → 0 < r → k + r ≤ 256 → create k r ≡ true
  pub encode_ok :
      (k r n : ℕ) (shards : List (List ℕ))
      → 0 < k
      → create k r ≡ true
      → length shards ≡ k
      → 0 < n
      → All (λ s. length s ≡ n) shards
      → (repairs : List (List ℕ)) × (encode k r shards ≡ some repairs)
        × (length repairs ≡ r)
        × All (λ s. length s ≡ n) repairs
  pub reconstruct_fills :
      (k r : ℕ) (slots result : List (Option (List ℕ)))
      → length slots ≡ k + r
      → reconstruct k r slots ≡ some result
      → (k ≤ length result) × All (λ s. s ≢ none) (take k result)

abbrev pub is_some {ℓ} : {A : Type ℓ} → Option A → Bool
is_some none = false
is_some (some a) = true

-- A copy padded to `maxLen`; a packet of that length is aliased.
unfoldable pub shard : ℕ → List ℕ → List ℕ
shard max_len p = if length p == max_len then p else p ++ replicate (max_len - length p) 0

-- `none` is the nil that the caller gets on an encoder error.
unfoldable pub rs_encode : ReedSolomon → ℕ → ℕ → List (List ℕ) → Option (List (List ℕ))
unfolding shard
rs_encode rs k r slots =
    let max_len = max_len_from 0 slots in rs.encode k r (map (shard max_len) slots)

-- `len(nil)` is 0.
abbrev pub slot_len : Option (List ℕ) → ℕ
slot_len none = 0
slot_len (some p) = length p

unfoldable pub max_slot_from : ℕ → List (Option (List ℕ)) → ℕ
max_slot_from acc [] = acc
max_slot_from acc (s ∷ slots) =
    max_slot_from (if ltb acc (slot_len s) then slot_len s else acc) slots

abbrev pub copy_slot : ℕ → Option (List ℕ) → Option (List ℕ)
copy_slot max_len none = none
copy_slot max_len (some p) = some (p ++ replicate (max_len - length p) 0)

-- The data slots after reconstruction; `none` is ErrUnrecoverable.
unfoldable pub rs_recover :
    ReedSolomon
    → ℕ
    → ℕ
    → List (Option (List ℕ))
    → List (Option (List ℕ))
    → Option (List (Option (List ℕ)))
rs_recover rs k r slots repair =
    let max_len = max_slot_from (max_slot_from 0 slots) repair in
    let shards = map (copy_slot max_len) slots ++ map (copy_slot max_len) repair in
    elim (rs.reconstruct k r shards) [ none ↦ none | some result ↦ some (take k result) ]
