-- ===== src/Base/Assoc.antt =====
-- A Go map with number keys, as an association list in which the first entry of a key counts.
use Prim.Native.Nat.{ℕ}
use mathlib.Core.Path.{◌≡◌, refl}
use mathlib.Core.Logic.{◌≢◌}
use mathlib.Core.Bool.{Bool}
use mathlib.Core.List.{List, [], ◌∷◌}
use mathlib.Core.Option.{Option, none, some}
use native.Mathlib.Omega.{arith}
use supervpn.Base.Tests.{◌==◌, if◌then◌else◌}

module _ {ℓ} {A : Type ℓ} where
  unfoldable pub find : ℕ → List (ℕ × A) → Option A
  find key [] = none
  find key ((k, a) ∷ entries) = let rest = find key entries in if k == key then some a else rest

  unfoldable pub store : ℕ → A → List (ℕ × A) → List (ℕ × A)
  store key a [] = (key, a) ∷ []
  store key a ((k, b) ∷ entries) =
      let rest = store key a entries in if k == key then (key, a) ∷ entries else (k, b) ∷ rest

  unfoldable pub erase : ℕ → List (ℕ × A) → List (ℕ × A)
  erase key [] = []
  erase key ((k, a) ∷ entries) =
      let rest = erase key entries in if k == key then rest else (k, a) ∷ rest

  -- The entries that pass a test.
  unfoldable pub keep : (A → Bool) → List (ℕ × A) → List (ℕ × A)
  keep test [] = []
  keep test ((k, a) ∷ entries) =
      let rest = keep test entries in if test a then (k, a) ∷ rest else rest

  pub find-store_self :
      (key : ℕ) (a : A) (entries : List (ℕ × A)) → find key (store key a entries) ≡ some a
  unfolding find store
  find-store_self key a [] = ground arith
  find-store_self key a ((k, b) ∷ entries) = ground (arith, find-store_self key a entries)

  pub find-store_ne :
      (key other : ℕ) (a : A) (entries : List (ℕ × A))
      → key ≢ other
      → find other (store key a entries) ≡ find other entries
  unfolding find store
  find-store_ne key other a [] ne = ground arith
  find-store_ne key other a ((k, b) ∷ entries) ne =
      ground (arith, find-store_ne key other a entries ne)

  pub find-erase_self : (key : ℕ) (entries : List (ℕ × A)) → find key (erase key entries) ≡ none
  unfolding find erase
  find-erase_self key [] = refl
  find-erase_self key ((k, b) ∷ entries) = ground (arith, find-erase_self key entries)

  pub find-erase_ne :
      (key other : ℕ) (entries : List (ℕ × A))
      → key ≢ other
      → find other (erase key entries) ≡ find other entries
  unfolding find erase
  find-erase_ne key other [] ne = refl
  find-erase_ne key other ((k, b) ∷ entries) ne = ground (arith, find-erase_ne key other entries ne)
