-- ===== src/Power/Ipmi/Tests.antt =====
-- The theorems on the IPMI meter at concrete inputs, over whole numbers.
use efimon.Prelude.{
  ℕ, zero, suc, ◌≡◌, refl, Bool, true, false, none, some, [], ◌∷◌, arith, Text, codes, to_string,
}
use efimon.Float.{whole, whole-IsExact}
use efimon.Status.{Status, not_found}
use efimon.Power.Ipmi.Runs.{IsReadable}
use efimon.Observer.{system, type_bits}
use efimon.Outcome.{Outcome, returns}
use efimon.Proc.Machine.{leading}
use efimon.Power.Ipmi.{
  Ipmi, PsuReadings, FanReadings, Run, value, rated_line, read_rated, put_power, power_line,
  read_power, get_power, parse_results, meter, meter_all, stamp, walk, validate, trigger, reset,
  get_info, blank, warm_up, construct,
}
use efimon.Power.Ipmi.Payload.{index, substr, field}
use efimon.Power.Ipmi.Fields.{field-lines}
use efimon.Power.Ipmi.Outcomes.{walk_status, trigger-status}
use efimon.Power.Ipmi.Totals.{constructed, triggered, IsMeter, reached-IsMeter}

abbrev stof : Text → Outcome ℕ
stof t = returns (leading 0 t)

field-lines_example :
    (field (codes "Instantaneous Power : 126 W") ≡ returns (codes "126"))
    × (field (codes "Rated Watts : 126 W") ≡ returns (codes "126 W"))
field-lines_example =
    field-lines (codes "126") (omega arith, (omega arith, (omega arith, tt))) (omega arith)

abbrev rated : Run
rated = some (codes "Rated Watts : 750 W" ∷ codes "Rated Watts : 500 W" ∷ [])

-- The second unit does not answer.
abbrev runs : ℕ → Run
runs zero = some (codes "Instantaneous Power : 126 W" ∷ [])
runs (suc i) = some []

abbrev readings : PsuReadings ℕ
readings = record {
  type = 0;
  timestamp = 7;
  difference = 7;
  overall_power = 7;
  overall_energy = 7;
  psu_power = [];
  psu_max_power = [];
  psu_energy = [];
}

abbrev fans : FanReadings ℕ
fans = record { overall_speed = 7; fan_speeds = [] }

abbrev meter_of : Bool → ℕ → ℕ → Ipmi ℕ
meter_of valid time difference = record {
  valid = valid;
  psu_id = 100;
  num_psus = 2;
  max_power = 750 ∷ 500 ∷ [];
  interval_ms = 100;
  caps_type = 704;
  readings = record {
    type = 576;
    timestamp = time;
    difference = difference;
    overall_power = 126;
    overall_energy = 0;
    psu_power = 126 ∷ 0 ∷ [];
    psu_max_power = 750 ∷ 500 ∷ [];
    psu_energy = 0 ∷ 0 ∷ [];
  };
  fans = record { overall_speed = 0; fan_speeds = [] };
}

constructed_run :
    construct whole stof readings fans system 100 rated rated none runs 5000
    ≡ returns (meter_of false 5000 5000)
unfolding construct get_info read_rated rated_line value field index substr blank warm_up reset
    trigger stamp walk meter_all meter get_power read_power power_line put_power parse_results
    validate leading type_bits
constructed_run = refl

abbrev second_failed : Status
second_failed = record { code = not_found; msg = codes "Cannot get the consumption of the PSU1" }

-- The second unit's failure is the one that shows.
triggered_run :
    trigger whole stof none runs 6000 (meter_of false 5000 5000)
    ≡ returns (meter_of true 6000 1000, second_failed)
unfolding value field index substr trigger stamp walk meter_all meter get_power read_power
    power_line put_power parse_results validate leading type_bits to_string
triggered_run = refl

trigger-status_example :
    (second_failed ≡ walk_status runs 100 2)
    × ((meter_of true 6000 1000).valid ≡ true)
    × ((meter_of true 6000 1000).num_psus ≡ 2)
    × ((meter_of true 6000 1000).psu_id ≡ 100)
trigger-status_example =
    trigger-status whole stof none runs 6000 (meter_of false 5000 5000) (meter_of true 6000 1000)
      second_failed (λ e. cc) triggered_run

reached-IsMeter_example : IsMeter whole stof (meter_of true 6000 1000)
reached-IsMeter_example = reached-IsMeter whole stof whole-IsExact (meter_of true 6000 1000) (
    triggered none runs 6000 second_failed
      (constructed readings fans system 100 rated rated none runs 5000 constructed_run)
      triggered_run)

readable : (i : ℕ) → IsReadable whole stof (runs i)
unfolding value field index substr
readable zero = ((λ h. (126, unfold leading in refl)), tt)
readable (suc i) = tt
