-- ===== src/Base/Related.antt =====
-- Two maps, of which the second has every entry of the first up to a relation.
use supervpn.Base.{
  ℕ, ◌≡◌, ◌≢◌, List, Option, some, none, inl, inr, ◌∙◌, sym, ap, subst, Bool-cases, ◌==◌, arith,
  ◌⊎◌,
}
use supervpn.Base.Assoc.{find, store, find-store_self, find-store_ne}

pub same_or_not : (a b : ℕ) → (a ≡ b) ⊎ (a ≢ b)
same_or_not a b = elim (Bool-cases (a == b)) [
  | inl same ↦ inl (ground arith)
  | inr other ↦ inr (λ e. ground arith)
]

pub some_inj {ℓ} : {A : Type ℓ} (x y : A) → some x ≡ some y → x ≡ y
some_inj x y e = ap (λ (o : Option _). elim o [ none ↦ x | some z ↦ z ]) e

module _ {A : Type 0} (R : A → A → Type 0) where
  abbrev pub Related : List (ℕ × A) → List (ℕ × A) → Type 0
  Related m m' = (t : ℕ) (a : A) → find t m ≡ some a → (b : A) × (find t m' ≡ some b) × R a b

  pub Related-refl : ((a : A) → R a a) → (m : List (ℕ × A)) → Related m m
  Related-refl r m t a e = (a, e, r a)

  pub Related-trans :
      ((a b c : A) → R a b → R b c → R a c)
      → (m n o : List (ℕ × A)) → Related m n
      → Related n o
      → Related m o
  Related-trans r m n o f g t a e =
      let (b, eb, rb) = f t a e in let (c, ec, rc) = g t b eb in (c, ec, r a b c rb rc)

  pub Related-store :
      ((a : A) → R a a)
      → (key : ℕ) (old new : A) (m : List (ℕ × A)) → find key m ≡ some old
      → R old new
      → Related m (store key new m)
  Related-store r key old new m found keeps t a e = elim (same_or_not key t) [
    | inl same ↦
        let here : find t (store key new m) ≡ some new =
          ap (λ k. find k (store key new m)) (sym same) ∙ find-store_self key new m in
        let was : old ≡ a = some_inj old a (sym found ∙ ap (λ k. find k m) same ∙ e) in
        (new, here, subst (λ x. R x new) was keeps)
    | inr other ↦ (a, find-store_ne key t new m other ∙ e, r a)
  ]
