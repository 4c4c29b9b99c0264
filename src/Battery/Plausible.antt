-- ===== src/Battery/Plausible.antt =====
-- internal/bmwbattery/battery.go: the values that a reading can have.
use supervpn.Base.{
  ℕ, ◌≡◌, ◌≤◌, List, [], ◌∷◌, ltb, ◌&&◌, length, get_or, Option, none, some, true, false, arith,
  if_both, Bool-cases, inl, inr,
}
use supervpn.Battery.Voltage.{find_voltage, find_voltage_from_end}
use supervpn.Battery.Search.{find_voltage-Decides, Decides}
use supervpn.Battery.Status.{
  Status, Reading, no_status, is_percent, use_soc, use_last_soc, use_ageing, use_millivolts,
  use_voltage, read_g, read_f, is_g_series, read_battery,
}

-- A percentage is from 1 to 100 and a voltage from 11.0 to 15.2 volts, where the reading has it.
pub record IsPlausible (st : Status) : Type 0 where
  pub soc_in : st.has_soc ≡ true → (1 ≤ st.soc_percent) × (st.soc_percent ≤ 100)
  pub voltage_in : st.has_voltage ≡ true → (11_000 ≤ st.voltage_mv) × (st.voltage_mv ≤ 15_200)
  pub ageing_in : st.has_ageing ≡ true → (1 ≤ st.ageing_percent) × (st.ageing_percent ≤ 100)

abbrev HasPlausible : Reading → Type 0
HasPlausible (st, got) = IsPlausible st

percent_in : (v : ℕ) → is_percent v ≡ true → (1 ≤ v) × (v ≤ 100)
percent_in v e = (ground (arith, e), ground (arith, e))

nothing_known : IsPlausible no_status
nothing_known = record { soc_in = λ e. cc; voltage_in = λ e. cc; ageing_in = λ e. cc }

use_soc-IsPlausible :
    (answer : Option (List ℕ)) (r : Reading) → HasPlausible r → HasPlausible (use_soc answer r)
unfolding use_soc
use_soc-IsPlausible none r v = v
use_soc-IsPlausible (some []) r v = v
use_soc-IsPlausible (some (x ∷ d)) (st, got) v = elim (Bool-cases (is_percent x)) [
  | inl fine ↦
      rw fine record {
        soc_in = λ e. percent_in x fine;
        voltage_in = v.voltage_in;
        ageing_in = v.ageing_in;
      }
  | inr odd ↦ rw odd v
]

use_last_soc-IsPlausible :
    (answer : Option (List ℕ)) (r : Reading) → HasPlausible r → HasPlausible (use_last_soc answer r)
unfolding use_last_soc
use_last_soc-IsPlausible none r v = v
use_last_soc-IsPlausible (some d) (st, got) v =
    elim (Bool-cases (ltb 17 (length d) && is_percent (get_or d 17 0))) [
      | inl fine ↦ rw fine record {
        soc_in = λ e. percent_in (get_or d 17 0) (ground (arith, fine));
        voltage_in = v.voltage_in;
        ageing_in = v.ageing_in;
      }
      | inr odd ↦ rw odd v
    ]

use_ageing-IsPlausible :
    (answer : Option (List ℕ)) (r : Reading) → HasPlausible r → HasPlausible (use_ageing answer r)
unfolding use_ageing
use_ageing-IsPlausible none r v = v
use_ageing-IsPlausible (some d) (st, got) v =
    elim (Bool-cases (ltb 19 (length d) && is_percent (get_or d 19 0))) [
      | inl fine ↦ rw fine record {
        soc_in = v.soc_in;
        voltage_in = v.voltage_in;
        ageing_in = λ e. percent_in (get_or d 19 0) (ground (arith, fine));
      }
      | inr odd ↦ rw odd v
    ]

use_millivolts-IsPlausible :
    (d : List ℕ) (found : Option ℕ) (r : Reading)
    → Decides d found
    → HasPlausible r
    → HasPlausible (use_millivolts found r)
unfolding use_millivolts
use_millivolts-IsPlausible d none r f v = v
use_millivolts-IsPlausible d (some mv) (st, got) f v = record {
  soc_in = v.soc_in;
  voltage_in = λ e. (f.1, f.2);
  ageing_in = v.ageing_in;
}

use_voltage-IsPlausible :
    (search : List ℕ → Option ℕ)
    → ((d : List ℕ) → Decides d (search d))
    → (answer : Option (List ℕ)) (r : Reading) → HasPlausible r
    → HasPlausible (use_voltage search answer r)
unfolding use_voltage
use_voltage-IsPlausible search decides none r v = v
use_voltage-IsPlausible search decides (some d) r v =
    use_millivolts-IsPlausible d (search d) r (decides d) v

-- Whatever a car answers and whatever its platform is, a reading has only percentages from 1 to 100 and
-- voltages from 11.0 to 15.2 volts.
pub read_battery-IsPlausible :
    (peer : List ℕ → List ℕ) (platform : List ℕ) → IsPlausible (read_battery peer platform).0
unfolding read_battery read_g read_f
read_battery-IsPlausible peer platform =
    if_both HasPlausible (is_g_series platform) _ _
      (use_ageing-IsPlausible _ _ (
        use_voltage-IsPlausible find_voltage (λ d. (find_voltage-Decides d).0) _ _
          (use_soc-IsPlausible _ (no_status, false) nothing_known)))
      (use_voltage-IsPlausible find_voltage_from_end (λ d. (find_voltage-Decides d).1) _ _
        (use_last_soc-IsPlausible _ (no_status, false) nothing_known))
