-- ===== src/Power/Ipmi.antt =====
-- `IPMIMeterObserver` (src/efimon/power/ipmi.cpp). What the three commands print, the reading of a
-- float from a text (`std::stof`), the uptime, and whether the sensors are built in are arguments.
pub mod State
pub mod Payload
pub mod Fields
pub mod Outcomes
pub mod Runs
pub mod Totals
pub mod Tests
use efimon.Prelude.{
  ℕ, zero, suc, ◌+◌, Bool, true, false, not, ◌&&◌, Option, none, some, List, [], ◌∷◌, ◌++◌, ltb,
  ◌==◌, if◌then◌else◌, length, set, replicate, Text, codes, find, contains,
}
use efimon.Float.{Float}
use efimon.Status.{
  Status, status_ok, is_ok, fail, file_error, not_found, access_denied, invalid_parameter,
  not_implemented,
}
use efimon.Observer.{ObserverScope, process, system, type_bits, none_type, psu, power, interval}
use efimon.Outcome.{Outcome, returns, throws, escapes, faults, ◌>>=◌}
use efimon.Words.{u64, add64, sub64}
use efimon.Power.Rapl.{nth}
use efimon.Power.Ipmi.Payload.{field, fan_field}
unfoldable pub use efimon.Power.Ipmi.State.*

module _ {F : Type 0} (d : Float F) (stof : Text → Outcome F) where
  open d use {of_ℕ, add, mul, div, single}

  -- 1e-3 of the product of watts and milliseconds, as a `float`.
  unfoldable pub energy_of : ℕ → Ipmi F → F
  unfolding nth
  energy_of i r = single (
      mul (single (mul (nth d r.readings.psu_power i) (single (of_ℕ r.readings.difference))))
        (div (of_ℕ 1) (of_ℕ 1000)))

  unfoldable pub account : ℕ → Ipmi F → Ipmi F
  unfolding nth
  account i r =
      let q = r.readings in
      let energy = energy_of i r in
      record r {
        readings = record q {
          overall_energy = single (add q.overall_energy energy);
          psu_energy = set q.psu_energy i (single (add (nth d q.psu_energy i) energy));
        };
      }

  unfoldable pub parse_results : ℕ → Ipmi F → Outcome (Ipmi F)
  unfolding account
  parse_results i r =
      if not r.valid
      then returns r
      else if ltb i (length r.readings.psu_power) && ltb i (length r.readings.psu_energy)
      then returns (account i r)
      else escapes

  -- One unit in `Trigger`: the results are parsed whatever the status.
  unfoldable pub meter : (ℕ → Run) → ℕ → Ipmi F → Outcome (Ipmi F × Status)
  meter runs i r =
      get_power d stof (runs i) i r >>= λ p. parse_results i (p.0) >>= λ r'. returns (r', p.1)

  -- The loop over the units from `i` on, with the status so far.
  unfoldable pub meter_all : (ℕ → Run) → ℕ → ℕ → Status → Ipmi F → Outcome (Ipmi F × Status)
  meter_all runs zero i st r = returns (r, st)
  meter_all runs (suc left) i st r = meter runs i r >>= λ p. meter_all runs left (i + 1) (p.1) (p.0)

  -- The metadata that a trigger writes first.
  unfoldable pub stamp : ℕ → Ipmi F → Ipmi F
  stamp time r =
      let q = r.readings in
      record r {
        readings = record q {
          type = type_bits psu + type_bits power;
          difference = sub64 time q.timestamp;
          timestamp = time;
          overall_power = of_ℕ 0;
        };
      }

  -- The selected unit, or all of them.
  unfoldable pub walk : (ℕ → Run) → Ipmi F → Outcome (Ipmi F × Status)
  walk runs r =
      if ltb r.psu_id r.num_psus
      then meter runs r.psu_id r
      else meter_all runs r.num_psus 0 status_ok r

  unfoldable pub validate : Ipmi F × Status → Ipmi F × Status
  validate p = (record (p.0) { valid = true }, p.1)

  -- `none` for the sensors where they are not built in.
  unfoldable pub trigger : Option Run → (ℕ → Run) → ℕ → Ipmi F → Outcome (Ipmi F × Status)
  trigger none runs time r = walk runs (stamp time r) >>= λ p. returns (validate p)
  trigger (some sensors) runs time r = get_fan_speed d stof sensors (stamp time r) >>= λ p.
      if is_ok (p.1).code then (walk runs (p.0) >>= λ q. returns (validate q)) else returns p

  unfoldable pub reset : Ipmi F → Ipmi F × Status
  reset r = (
    record r {
      readings = record {
        type = type_bits none_type;
        timestamp = 0;
        difference = 0;
        overall_power = of_ℕ 0;
        overall_energy = of_ℕ 0;
        psu_power = replicate r.num_psus (of_ℕ 0);
        psu_max_power = r.max_power;
        psu_energy = replicate r.num_psus (of_ℕ 0);
      };
      fans = record { overall_speed = of_ℕ 0; fan_speeds = [] };
    },
    status_ok,
  )

  unfoldable pub get_readings : Ipmi F → PsuReadings F × FanReadings F
  get_readings r = (r.readings, r.fans)

  -- The object before its constructor's calls; `readings` and `fans` are numbers nobody wrote.
  unfoldable pub blank : PsuReadings F → FanReadings F → ℕ → Ipmi F
  blank readings fans ms = record {
    valid = false;
    psu_id = 100;
    num_psus = 0;
    max_power = [];
    interval_ms = ms;
    caps_type = type_bits psu + type_bits power + type_bits interval;
    readings = record readings { psu_power = []; psu_max_power = []; psu_energy = [] };
    fans = record fans { fan_speeds = [] };
  }

  -- The second reading of the units, the reset and the first trigger; their statuses are not
  -- looked at.
  unfoldable pub warm_up : Run → Option Run → (ℕ → Run) → ℕ → Ipmi F → Outcome (Ipmi F)
  warm_up info sensors runs time r = get_info d stof info r >>= λ p.
      trigger sensors runs time ((reset (p.0)).0) >>= λ q. returns (record (q.0) { valid = false })

  -- The constructor; the units are read twice.
  unfoldable pub construct :
      PsuReadings F
      → FanReadings F
      → ObserverScope
      → ℕ
      → Run
      → Run
      → Option Run
      → (ℕ → Run)
      → ℕ
      → Outcome (Ipmi F)
  construct readings fans process ms info info' sensors runs time =
      throws (fail invalid_parameter "Process-scope is not supported")
  construct readings fans system ms info info' sensors runs time =
      get_info d stof info (blank readings fans ms) >>= λ p.
      if is_ok (p.1).code
      then warm_up info' sensors runs time (p.0)
      else throws (fail access_denied "Cannot get info from IPMI")

  unfoldable pub select_device : ℕ → Ipmi F → Ipmi F × Status
  select_device device r = (record r { psu_id = device }, status_ok)

  unfoldable pub set_scope : ObserverScope → Ipmi F → Ipmi F × Status
  set_scope system r = (r, status_ok)
  set_scope process r = (r, fail not_implemented "The scope is only set to SYSTEM")

  unfoldable pub set_pid : ℕ → Ipmi F → Ipmi F × Status
  set_pid pid r =
      (r, fail not_implemented "It is not possible to set a PID in a SYSTEM wide Observer")

  unfoldable pub set_interval : ℕ → Ipmi F → Ipmi F × Status
  set_interval ms r = (record r { interval_ms = ms }, status_ok)

  unfoldable pub clear_interval : Ipmi F → Ipmi F × Status
  clear_interval r = (r, fail not_implemented "The clear interval is not implemented yet")
