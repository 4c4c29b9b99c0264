-- ===== src/Battery/Held.antt =====
-- internal/bmwbattery/poller.go: what StickyPoll holds.
use supervpn.Base.{
  ℕ, ◌≡◌, refl, List, [], ◌∷◌, if◌then◌else◌, Option, none, some, Bool-cases, inl, inr, ap, ◌∙◌,
}
use supervpn.Battery.Voltage.{or_else}
use supervpn.Battery.Status.{Status, no_status, merge_into, merge, held_after}

abbrev pub soc_of : Status → Option ℕ
soc_of st = if st.has_soc then some st.soc_percent else none

abbrev pub voltage_of : Status → Option ℕ
voltage_of st = if st.has_voltage then some st.voltage_mv else none

abbrev pub ageing_of : Status → Option ℕ
ageing_of st = if st.has_ageing then some st.ageing_percent else none

-- The field of what is held, if anything is.
abbrev pub known_of : (Status → Option ℕ) → Option Status → Option ℕ
known_of field none = none
known_of field (some st) = field st

-- The field of the last reading that has it, and before there is one what was known.
abbrev pub last_known : (Status → Option ℕ) → List (Option Status) → Option ℕ → Option ℕ
last_known field [] known = known
last_known field (none ∷ readings) known = last_known field readings known
last_known field (some st ∷ readings) known = last_known field readings (or_else (field st) known)

-- Merging takes the field of the fresh reading where it has it.
abbrev Merges : (Status → Option ℕ) → Type 0
Merges field =
    (held fresh : Status)
    → field (merge_into held (some fresh)) ≡ or_else (field fresh) (field held)

soc_of-Merges : Merges soc_of
unfolding merge_into
soc_of-Merges held fresh = elim (Bool-cases fresh.has_soc) [
  | inl has ↦ rw has refl
  | inr has_not ↦ rw has_not refl
]

voltage_of-Merges : Merges voltage_of
unfolding merge_into
voltage_of-Merges held fresh = elim (Bool-cases fresh.has_voltage) [
  | inl has ↦ rw has refl
  | inr has_not ↦ rw has_not refl
]

ageing_of-Merges : Merges ageing_of
unfolding merge_into
ageing_of-Merges held fresh = elim (Bool-cases fresh.has_ageing) [
  | inl has ↦ rw has refl
  | inr has_not ↦ rw has_not refl
]

module _ (field : Status → Option ℕ) (blank : field no_status ≡ none) (merges : Merges field) where
  merged :
      (held : Option Status) (fresh : Status)
      → field (merge held (some fresh)) ≡ or_else (field fresh) (known_of field held)
  unfolding merge
  merged none fresh = merges no_status fresh ∙ ap (or_else (field fresh)) blank
  merged (some held) fresh = merges held fresh

  unmerged : (held : Option Status) → field (merge held none) ≡ known_of field held
  unfolding merge merge_into
  unmerged none = blank
  unmerged (some held) = refl

  held :
      (readings : List (Option Status)) (start : Option Status)
      → known_of field (held_after readings start)
        ≡ last_known field readings (known_of field start)
  unfolding held_after
  held [] start = refl
  held (none ∷ readings) start =
      held readings (some (merge start none)) ∙ ap (last_known field readings) (unmerged start)
  held (some fresh ∷ readings) start =
      held readings (some (merge start (some fresh)))
      ∙ ap (last_known field readings) (merged start fresh)

-- After any readings, failed ones among them, StickyPoll holds of each of the three fields the value of
-- the last reading that had it.
pub held_after-last_known :
    (readings : List (Option Status))
    → let held = held_after readings none in
      (known_of soc_of held ≡ last_known soc_of readings none)
      × (known_of voltage_of held ≡ last_known voltage_of readings none)
      × (known_of ageing_of held ≡ last_known ageing_of readings none)
held_after-last_known readings = (
  held soc_of refl soc_of-Merges readings none,
  held voltage_of refl voltage_of-Merges readings none,
  held ageing_of refl ageing_of-Merges readings none,
)
