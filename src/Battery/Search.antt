-- ===== src/Battery/Search.antt =====
-- internal/bmwbattery/battery.go: what findVoltage and findVoltageFromEnd find.
use supervpn.Base.{
  ℕ, ◌≡◌, ◌≤◌, refl, List, [], ◌∷◌, if◌then◌else◌, Option, none, some, true, false, ◌⊎◌, inl, inr,
  Bool-cases, arith, ap, ◌∙◌,
}
use supervpn.Battery.Voltage.{
  in_range, be_word, le_word, first_aligned, last_aligned, either_word, or_else, first_any_from,
  last_any_from, first_any, last_any, find_voltage, find_voltage_from_end,
}

-- Two bytes side by side make the word, in either order.
abbrev pub HasWordFrom : ℕ → ℕ → List ℕ → Type 0
HasWordFrom w a [] = ⊥
HasWordFrom w a (b ∷ d) = (w ≡ be_word a b) ⊎ ((w ≡ le_word a b) ⊎ HasWordFrom w b d)

abbrev pub HasWord : ℕ → List ℕ → Type 0
HasWord w [] = ⊥
HasWord w (a ∷ d) = HasWordFrom w a d

-- What is found stands in the block and is between 11.0 and 15.2 volts.
abbrev pub IsFound : List ℕ → Option ℕ → Type 0
IsFound d none = Unit
IsFound d (some w) = HasWord w d × (11_000 ≤ w) × (w ≤ 15_200)

-- A result, and where there is none, no word of the block that is in range.
abbrev pub Decides : List ℕ → Option ℕ → Type 0
Decides d none = (w : ℕ) → HasWord w d → in_range w ≡ false
Decides d (some w) = HasWord w d × (11_000 ≤ w) × (w ≤ 15_200)

IsFound-or_else :
    (d : List ℕ) (o next : Option ℕ) → IsFound d o → IsFound d next → IsFound d (or_else o next)
IsFound-or_else d none next v w = w
IsFound-or_else d (some x) next v w = v

Decides-or_else :
    (d : List ℕ) (o next : Option ℕ) → IsFound d o → Decides d next → Decides d (or_else o next)
Decides-or_else d none next v w = w
Decides-or_else d (some x) next v w = v

-- The word of the first two bytes.
abbrev Reads : (ℕ → ℕ → ℕ) → Type 0
Reads word = (a b : ℕ) (d : List ℕ) → HasWord (word a b) (a ∷ b ∷ d)

behind_two : (w a b : ℕ) (d : List ℕ) → HasWord w d → HasWord w (a ∷ b ∷ d)
behind_two w a b [] h = elim h [ ]
behind_two w a b (c ∷ d) h = inr (inr (inr (inr h)))

IsFound-behind : (a b : ℕ) (d : List ℕ) (o : Option ℕ) → IsFound d o → IsFound (a ∷ b ∷ d) o
IsFound-behind a b d none v = v
IsFound-behind a b d (some w) v = (behind_two w a b d (v.0), v.1, v.2)

module _ (word : ℕ → ℕ → ℕ) (reads : Reads word) where
  here : (a b : ℕ) (d : List ℕ) → in_range (word a b) ≡ true → IsFound (a ∷ b ∷ d) (some (word a b))
  here a b d e = (reads a b d, ground (arith, e), ground (arith, e))

  IsFound-first_aligned : (d : List ℕ) → IsFound d (first_aligned word d)
  unfolding first_aligned
  IsFound-first_aligned [] = tt
  IsFound-first_aligned (a ∷ []) = tt
  IsFound-first_aligned (a ∷ b ∷ d) = elim (Bool-cases (in_range (word a b))) [
    | inl hit ↦ rw hit (here a b d hit)
    | inr miss ↦ rw miss (IsFound-behind a b d _ (IsFound-first_aligned d))
  ]

  IsFound-last_aligned : (d : List ℕ) → IsFound d (last_aligned word d)
  unfolding last_aligned
  IsFound-last_aligned [] = tt
  IsFound-last_aligned (a ∷ []) = tt
  IsFound-last_aligned (a ∷ b ∷ d) = later (last_aligned word d) (IsFound-last_aligned d)
    where
      later :
          (o : Option ℕ)
          → IsFound d o
          → IsFound (a ∷ b ∷ d) (elim o [
            | some w ↦ some w
            | none ↦ if in_range (word a b) then some (word a b) else none
          ])
      later (some w) v = IsFound-behind a b d (some w) v
      later none v = elim (Bool-cases (in_range (word a b))) [
        | inl hit ↦ rw hit (here a b d hit)
        | inr miss ↦ rw miss tt
      ]

-- The words at the first offset and those behind it.
front : (w a b : ℕ) (d : List ℕ) → HasWord w (a ∷ b ∷ []) → HasWord w (a ∷ b ∷ d)
front w a b d (inl big) = inl big
front w a b d (inr (inl little)) = inr (inl little)
front w a b d (inr (inr none_left)) = elim none_left [ ]

either_word-Decides : (a b : ℕ) → Decides (a ∷ b ∷ []) (either_word a b)
either_word-Decides a b = elim (Bool-cases (in_range (be_word a b))) [
  | inl big ↦ rw big (inl refl, ground (arith, big), ground (arith, big))
  | inr not_big ↦ rw not_big (elim (Bool-cases (in_range (le_word a b))) [
    | inl little ↦ rw little (inr (inl refl), ground (arith, little), ground (arith, little))
    | inr not_little ↦ rw not_little (neither not_big not_little)
  ])
]
  where
    neither :
        in_range (be_word a b) ≡ false
        → in_range (le_word a b) ≡ false
        → (w : ℕ) → HasWord w (a ∷ b ∷ [])
        → in_range w ≡ false
    neither e f w (inl big) = ap in_range big ∙ e
    neither e f w (inr (inl little)) = ap in_range little ∙ f
    neither e f w (inr (inr none_left)) = elim none_left [ ]

-- Neither offset has a word in range.
no_word :
    (a b : ℕ) (d : List ℕ)
    → Decides (a ∷ b ∷ []) none
    → Decides (b ∷ d) none
    → Decides (a ∷ b ∷ d) none
no_word a b d v u w (inl big) = v w (inl big)
no_word a b d v u w (inr (inl little)) = v w (inr (inl little))
no_word a b d v u w (inr (inr behind)) = u w behind

Decides-first :
    (a b : ℕ) (d : List ℕ) (o next : Option ℕ)
    → Decides (a ∷ b ∷ []) o
    → Decides (b ∷ d) next
    → Decides (a ∷ b ∷ d) (or_else o next)
Decides-first a b d (some x) next (h, low, high) u = (front x a b d h, low, high)
Decides-first a b d none (some y) v (h, low, high) = (inr (inr h), low, high)
Decides-first a b d none none v u = no_word a b d v u

Decides-last :
    (a b : ℕ) (d : List ℕ) (o next : Option ℕ)
    → Decides (a ∷ b ∷ []) o
    → Decides (b ∷ d) next
    → Decides (a ∷ b ∷ d) (or_else next o)
Decides-last a b d o (some y) v (h, low, high) = (inr (inr h), low, high)
Decides-last a b d (some x) none (h, low, high) u = (front x a b d h, low, high)
Decides-last a b d none none v u = no_word a b d v u

Decides-first_any_from : (a : ℕ) (d : List ℕ) → Decides (a ∷ d) (first_any_from a d)
unfolding first_any_from
Decides-first_any_from a [] = λ w h. elim h [ ]
Decides-first_any_from a (b ∷ d) =
    Decides-first a b d _ _ (either_word-Decides a b) (Decides-first_any_from b d)

Decides-last_any_from : (a : ℕ) (d : List ℕ) → Decides (a ∷ d) (last_any_from a d)
unfolding last_any_from
Decides-last_any_from a [] = λ w h. elim h [ ]
Decides-last_any_from a (b ∷ d) =
    Decides-last a b d _ _ (either_word-Decides a b) (Decides-last_any_from b d)

Decides-first_any : (d : List ℕ) → Decides d (first_any d)
unfolding first_any
Decides-first_any [] = λ w h. elim h [ ]
Decides-first_any (a ∷ d) = Decides-first_any_from a d

Decides-last_any : (d : List ℕ) → Decides d (last_any d)
unfolding last_any
Decides-last_any [] = λ w h. elim h [ ]
Decides-last_any (a ∷ d) = Decides-last_any_from a d

-- Both searches give a voltage from 11.0 to 15.2 volts that two bytes of the block side by side make in
-- one of the two orders, and nothing exactly where no two bytes make one.
pub find_voltage-Decides :
    (d : List ℕ) → Decides d (find_voltage d) × Decides d (find_voltage_from_end d)
unfolding find_voltage find_voltage_from_end
find_voltage-Decides d = (
  Decides-or_else d _ _ (IsFound-first_aligned be_word (λ a b e. inl refl) d) (
      Decides-or_else d _ _ (IsFound-first_aligned le_word (λ a b e. inr (inl refl)) d)
        (Decides-first_any d)),
  Decides-or_else d _ _ (IsFound-last_aligned be_word (λ a b e. inl refl) d) (
      Decides-or_else d _ _ (IsFound-last_aligned le_word (λ a b e. inr (inl refl)) d)
        (Decides-last_any d)),
)
