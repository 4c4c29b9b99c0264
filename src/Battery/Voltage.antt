-- ===== src/Battery/Voltage.antt =====
-- internal/bmwbattery/battery.go: findVoltage and findVoltageFromEnd. A voltage is in millivolts; `none` is
-- the result that is not ok.
use supervpn.Base.{ℕ, ◌+◌, ◌*◌, List, [], ◌∷◌, leb, ◌&&◌, if◌then◌else◌, Option, none, some, Bool}

abbrev pub in_range : ℕ → Bool
in_range w = leb 11_000 w && leb w 15_200

abbrev pub be_word : ℕ → ℕ → ℕ
be_word a b = a * 256 + b

abbrev pub le_word : ℕ → ℕ → ℕ
le_word a b = b * 256 + a

-- The first word in range at an even offset.
unfoldable pub first_aligned : (ℕ → ℕ → ℕ) → List ℕ → Option ℕ
first_aligned word [] = none
first_aligned word (a ∷ []) = none
first_aligned word (a ∷ b ∷ d) =
    let rest = first_aligned word d in if in_range (word a b) then some (word a b) else rest

-- The last one: the loop that goes down from the last even offset.
unfoldable pub last_aligned : (ℕ → ℕ → ℕ) → List ℕ → Option ℕ
last_aligned word [] = none
last_aligned word (a ∷ []) = none
last_aligned word (a ∷ b ∷ d) = elim (last_aligned word d) [
  | some w ↦ some w
  | none ↦ if in_range (word a b) then some (word a b) else none
]

-- The word at one offset, in either order of bytes.
abbrev pub either_word : ℕ → ℕ → Option ℕ
either_word a b =
    if in_range (be_word a b)
    then some (be_word a b)
    else if in_range (le_word a b)
    then some (le_word a b)
    else none

abbrev pub or_else : Option ℕ → Option ℕ → Option ℕ
or_else (some w) next = some w
or_else none next = next

-- From an offset on, with its byte and the bytes behind it.
unfoldable pub first_any_from : ℕ → List ℕ → Option ℕ
first_any_from a [] = none
first_any_from a (b ∷ d) = or_else (either_word a b) (first_any_from b d)

unfoldable pub last_any_from : ℕ → List ℕ → Option ℕ
last_any_from a [] = none
last_any_from a (b ∷ d) = or_else (last_any_from b d) (either_word a b)

unfoldable pub first_any : List ℕ → Option ℕ
first_any [] = none
first_any (a ∷ d) = first_any_from a d

unfoldable pub last_any : List ℕ → Option ℕ
last_any [] = none
last_any (a ∷ d) = last_any_from a d

unfoldable pub find_voltage : List ℕ → Option ℕ
find_voltage d = or_else (first_aligned be_word d) (or_else (first_aligned le_word d) (first_any d))

unfoldable pub find_voltage_from_end : List ℕ → Option ℕ
find_voltage_from_end d =
    or_else (last_aligned be_word d) (or_else (last_aligned le_word d) (last_any d))
