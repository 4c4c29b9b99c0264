-- ===== src/Base/Outcome.antt =====
-- What a Go function that may fail does: it returns a value, returns an error, or panics at an
-- index or a slice bound out of range.
use Prim.Native.Nat.{ℕ, ◌-◌, ◌+◌, ◌≤◌, ◌<◌}
use mathlib.Core.Path.{◌≡◌, refl}
use mathlib.Core.Logic.{◌≢◌}
use mathlib.Core.Bool.{Bool, true, false, ◌&&◌}
use mathlib.Core.List.{List, [], ◌∷◌, ◌++◌}
use mathlib.Core.Option.{Option, none, some}
use native.Mathlib.Omega.{arith}
use supervpn.Base.Tests.{if◌then◌else◌, leb, le→leb}
use supervpn.Base.Lists.{
  length, get_elem?, take, drop, get_elem?_lt, get_elem?-append_length, length-append, take_all,
  take-append_length, drop-append_length,
}

pub data Go {ℓ} (E : Type 0) (A : Type ℓ) : Type ℓ where
  ok : A → Go E A
  err : E → Go E A
  panic : Go E A

infixl 5 ◌>>=◌ ◌>>◌
abbrev pub ◌>>=◌ {ℓ κ} : {E : Type 0} {A : Type ℓ} {B : Type κ} → Go E A → (A → Go E B) → Go E B
ok a >>= f = f a
err e >>= f = err e
panic >>= f = panic

abbrev pub ◌>>◌ {ℓ} : {E : Type 0} {B : Type ℓ} → Go E (Unit {0}) → Go E B → Go E B
m >> k = m >>= λ _. k

-- `if !b { return err }`
abbrev pub guard : {E : Type 0} → Bool → E → Go E (Unit {0})
guard true e = ok tt
guard false e = err e

abbrev pub or_panic {ℓ} : {E : Type 0} {A : Type ℓ} → Option A → Go E A
or_panic none = panic
or_panic (some a) = ok a

module _ {ℓ} {E : Type 0} {A : Type ℓ} where
  -- `b[i]`
  unfoldable pub index : ℕ → List A → Go E A
  index i b = or_panic (get_elem? b i)

  -- `b[lo:hi]`
  unfoldable pub slice : ℕ → ℕ → List A → Go E (List A)
  slice lo hi b = if leb lo hi && leb hi (length b) then ok (take (hi - lo) (drop lo b)) else panic

  pub index_ok : (i : ℕ) (b : List A) → i < length b → (a : A) × (index i b ≡ ok a)
  unfolding index
  index_ok i b h = let (a, e) = get_elem?_lt b i h in (a, ground (arith, e))

  pub index-ne-panic : (i : ℕ) (b : List A) → i < length b → index i b ≢ panic
  index-ne-panic i b h = let (a, e) = index_ok i b h in rw e (λ p. cc)

  pub slice_ok :
      (lo hi : ℕ) (b : List A)
      → lo ≤ hi
      → hi ≤ length b
      → slice lo hi b ≡ ok (take (hi - lo) (drop lo b))
  unfolding slice
  slice_ok lo hi b h k = ground (arith, le→leb lo hi h, le→leb hi (length b) k)

  pub index-append :
      (xs : List A) (y : A) (ys : List A) (i : ℕ) → i ≡ length xs → index i (xs ++ (y ∷ ys)) ≡ ok y
  unfolding index
  index-append xs y ys i h = ground (arith, get_elem?-append_length xs ys y i h)

  pub slice-append :
      (xs ys zs : List A) (lo hi : ℕ)
      → lo ≡ length xs
      → hi ≡ length xs + length ys
      → slice lo hi (xs ++ (ys ++ zs)) ≡ ok ys
  slice-append xs ys zs lo hi h k = ground (
    arith,
    slice_ok lo hi (xs ++ (ys ++ zs)),
    length-append xs (ys ++ zs),
    length-append ys zs,
    drop-append_length xs (ys ++ zs) lo,
    take-append_length ys zs (hi - lo),
  )

  -- `b[:n]` and `b[n:]`
  pub slice_first : (xs ys : List A) (n : ℕ) → n ≡ length xs → slice 0 n (xs ++ ys) ≡ ok xs
  slice_first xs ys n h = slice-append [] xs ys 0 n refl (omega arith)

  pub slice_rest :
      (xs ys : List A) (n : ℕ) → n ≡ length xs → slice n (length (xs ++ ys)) (xs ++ ys) ≡ ok ys
  slice_rest xs ys n h = ground (
    arith,
    slice_ok n (length (xs ++ ys)) (xs ++ ys),
    length-append xs ys,
    drop-append_length xs ys n,
    take_all (length (xs ++ ys) - n) ys,
  )
