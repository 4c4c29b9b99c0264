-- ===== src/Battery/Tests.antt =====
-- Runs of the battery monitor, and its theorems at concrete inputs.
use supervpn.Base.{ℕ, ◌≡◌, refl, List, [], ◌∷◌, ◌++◌, Option, none, some, true, false}
use supervpn.Base.Text.{codes}
use supervpn.Battery.Voltage.{find_voltage, find_voltage_from_end, first_aligned, last_aligned}
use supervpn.Battery.Search.{Decides, find_voltage-Decides}
use supervpn.Battery.Frame.{write_frame, response, acks}
use supervpn.Battery.Status.{Status, read_battery, held_after}
use supervpn.Battery.Plausible.{IsPlausible, read_battery-IsPlausible}
use supervpn.Battery.Held.{
  soc_of, voltage_of, ageing_of, known_of, last_known, held_after-last_known,
}

-- 12.45 volts, then 13.06 volts.
abbrev block : List ℕ
block = 0 ∷ 7 ∷ 48 ∷ 162 ∷ 51 ∷ 4 ∷ []

find_voltage_run : (find_voltage block ≡ some 12_450) × (find_voltage_from_end block ≡ some 13_060)
unfolding find_voltage find_voltage_from_end first_aligned last_aligned
find_voltage_run = (refl, refl)

find_voltage-Decides_example :
    Decides block (find_voltage block) × Decides block (find_voltage_from_end block)
find_voltage-Decides_example = find_voltage-Decides block

-- An acknowledgement and a state of charge of 62 percent.
abbrev car : List ℕ → List ℕ
car asked = acks 1 (write_frame (response 0x40 0xAD (62 ∷ [])) ++ [])

read_battery-IsPlausible_example : IsPlausible (read_battery car (codes "S15A")).0
read_battery-IsPlausible_example = read_battery-IsPlausible car (codes "S15A")

abbrev charged : Status
charged = record {
  soc_percent = 62;
  has_soc = true;
  voltage_mv = 0;
  has_voltage = false;
  ageing_percent = 58;
  has_ageing = true;
}

abbrev readings : List (Option Status)
readings = some charged ∷ none ∷ some (record charged { has_ageing = false; soc_percent = 61 }) ∷ []

held_after-last_known_example :
    let held = held_after readings none in
    (known_of soc_of held ≡ last_known soc_of readings none)
    × (known_of voltage_of held ≡ last_known voltage_of readings none)
    × (known_of ageing_of held ≡ last_known ageing_of readings none)
held_after-last_known_example = held_after-last_known readings
