-- ===== src/Battery/Status.antt =====
-- internal/bmwbattery/battery.go: Status, readG, readF and Read. series.go: IsGSeries. poller.go: merge and
-- StickyPoll. A voltage stays in millivolts, where the source divides it by 1000.
use supervpn.Base.{
  ℕ, List, [], ◌∷◌, ltb, leb, ◌&&◌, if◌then◌else◌, length, get_or, Option, none, some, Bool, true,
  false,
}
use supervpn.Base.Text.{codes, has_text}
use supervpn.Battery.Voltage.{find_voltage, find_voltage_from_end}
use supervpn.Battery.Frame.{read_did}

pub record Status : Type 0 where
  pub soc_percent : ℕ
  pub has_soc : Bool
  pub voltage_mv : ℕ
  pub has_voltage : Bool
  pub ageing_percent : ℕ
  pub has_ageing : Bool

abbrev pub no_status : Status
no_status = record {
  soc_percent = 0;
  has_soc = false;
  voltage_mv = 0;
  has_voltage = false;
  ageing_percent = 0;
  has_ageing = false;
}

-- A reading so far, and whether there was any data.
abbrev pub Reading : Type 0
Reading = Status × Bool

abbrev pub is_percent : ℕ → Bool
is_percent v = leb 1 v && leb v 100

unfoldable pub use_soc : Option (List ℕ) → Reading → Reading
use_soc none r = r
use_soc (some []) r = r
use_soc (some (v ∷ d)) (st, got) =
    if is_percent v then (record st { soc_percent = v; has_soc = true }, true) else (st, got)

unfoldable pub use_millivolts : Option ℕ → Reading → Reading
use_millivolts none r = r
use_millivolts (some mv) (st, got) = (record st { voltage_mv = mv; has_voltage = true }, true)

unfoldable pub use_voltage : (List ℕ → Option ℕ) → Option (List ℕ) → Reading → Reading
use_voltage search none r = r
use_voltage search (some d) r = use_millivolts (search d) r

unfoldable pub use_ageing : Option (List ℕ) → Reading → Reading
use_ageing none r = r
use_ageing (some d) (st, got) =
    let v = get_or d 19 0 in
    if ltb 19 (length d) && is_percent v
    then (record st { ageing_percent = v; has_ageing = true }, true)
    else (st, got)

-- The F series: data of any kind counts as an answer.
unfoldable pub use_last_soc : Option (List ℕ) → Reading → Reading
use_last_soc none r = r
use_last_soc (some d) (st, got) =
    let v = get_or d 17 0 in
    if ltb 17 (length d) && is_percent v
    then (record st { soc_percent = v; has_soc = true }, true)
    else (st, true)

-- The second part is whether there is no error.
unfoldable pub read_g : (List ℕ → List ℕ) → Reading
read_g peer =
    let (soc, left1) = read_did peer 0x40 0xAD (some []) in
    let (voltage, left2) = read_did peer 0x40 0xC3 left1 in
    let (ageing, left3) = read_did peer 0x40 0xB5 left2 in
    use_ageing ageing (use_voltage find_voltage voltage (use_soc soc (no_status, false)))

unfoldable pub read_f : (List ℕ → List ℕ) → Reading
read_f peer =
    let (soc, left1) = read_did peer 0x40 0x23 (some []) in
    let (voltage, left2) = read_did peer 0x40 0x22 left1 in
    use_voltage find_voltage_from_end voltage (use_last_soc soc (no_status, false))

abbrev pub g_series_platforms : List (List ℕ)
g_series_platforms = codes "S15A" ∷ codes "S15C" ∷ codes "S18A" ∷ codes "G045" ∷ codes "G070" ∷ []

unfoldable pub is_g_series : List ℕ → Bool
is_g_series platform = has_text platform g_series_platforms

-- On a connection that was opened.
unfoldable pub read_battery : (List ℕ → List ℕ) → List ℕ → Reading
read_battery peer platform = if is_g_series platform then read_g peer else read_f peer

unfoldable pub merge_into : Status → Option Status → Status
merge_into held none = held
merge_into held (some fresh) = record {
  soc_percent = if fresh.has_soc then fresh.soc_percent else held.soc_percent;
  has_soc = if fresh.has_soc then true else held.has_soc;
  voltage_mv = if fresh.has_voltage then fresh.voltage_mv else held.voltage_mv;
  has_voltage = if fresh.has_voltage then true else held.has_voltage;
  ageing_percent = if fresh.has_ageing then fresh.ageing_percent else held.ageing_percent;
  has_ageing = if fresh.has_ageing then true else held.has_ageing;
}

unfoldable pub merge : Option Status → Option Status → Status
merge none fresh = merge_into no_status fresh
merge (some held) fresh = merge_into held fresh

-- What StickyPoll holds after the readings; a reading may have failed.
unfoldable pub held_after : List (Option Status) → Option Status → Option Status
held_after [] held = held
held_after (fresh ∷ readings) held = held_after readings (some (merge held fresh))
