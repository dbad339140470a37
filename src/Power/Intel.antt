-- ===== src/Power/Intel.antt =====
-- `IntelMeterObserver` (src/efimon/power/intel.cpp). The library PCM and the uptime are arguments;
-- `S` is what one call of `getAllCounterStates` stores. The variables of the file, the mutex among
-- them, are one state that all meters share.
pub mod State
pub mod Locks
pub mod Totals
pub mod Tests
use efimon.Prelude.{
  ℕ, zero, suc, ◌+◌, Bool, true, false, not, Option, none, some, List, [], ◌∷◌, ◌++◌, ltb, ◌==◌,
  if◌then◌else◌, length, get_elem?, set, replicate,
}
use efimon.Float.{Float}
use efimon.Status.{
  Status, status_ok, fail, access_denied, resource_busy, not_ready, invalid_parameter,
  not_implemented,
}
use efimon.Observer.{ObserverScope, process, system, type_bits, none_type, cpu, power, interval}
use efimon.Words.{sub64}
use efimon.Power.Rapl.{nth, resize}
unfoldable pub use efimon.Power.Intel.State.*

module _ {F S : Type 0} (d : Float F) (api : Pcm F S) where
  open d use {of_ℕ, add, mul, div, neg, single}
  open api use {num_sockets, num_cores, socket_id, energy_available, ipc, joules}

  -- `v[i] += x`.
  unfoldable pub add_at : ℕ → F → List F → List F
  unfolding nth
  add_at i x v = set v i (single (add (nth d v i) x))

  -- The loop over the cores from `i` on, with the numbers of cores of the sockets.
  unfoldable pub parse_cores : S → S → ℕ → ℕ → IntelReadings F × List ℕ → IntelReadings F × List ℕ
  unfolding add_at
  parse_cores a b zero i p = p
  parse_cores a b (suc left) i (q, counts) =
      let x = ipc a b i in
      let s = socket_id i in
      let count : ℕ = elim (get_elem? counts s) [ none ↦ 0 | some n ↦ n ] in
      parse_cores a b left (i + 1) (
        record q {
          overall_usage = single (add q.overall_usage x);
          socket_usage = add_at s x q.socket_usage;
          core_usage = q.core_usage ++ (single x ∷ []);
        },
        set counts s (count + 1),
      )

  -- One socket, where `socket_energy` has an element for it.
  unfoldable pub parse_socket : S → S → List ℕ → ℕ → IntelReadings F → IntelReadings F
  unfolding add_at nth
  parse_socket a b counts i q =
      let energy = single (joules a b i) in
      let watts = single (div (single (mul energy (of_ℕ 1000))) (single (of_ℕ q.difference))) in
      let count : ℕ = elim (get_elem? counts i) [ none ↦ 0 | some n ↦ n ] in
      record q {
        overall_power = single (add q.overall_power watts);
        overall_energy = single (add q.overall_energy energy);
        socket_power = q.socket_power ++ (watts ∷ []);
        socket_energy = add_at i energy q.socket_energy;
        socket_usage =
            set q.socket_usage i (single (div (nth d q.socket_usage i) (single (of_ℕ count))));
      }

  -- The loop over the sockets from `i` on; `none` where `at` throws.
  unfoldable pub parse_sockets : S → S → List ℕ → ℕ → ℕ → IntelReadings F → Option (IntelReadings F)
  unfolding parse_socket
  parse_sockets a b counts zero i q = some q
  parse_sockets a b counts (suc left) i q =
      if ltb i (length q.socket_energy)
      then parse_sockets a b counts left (i + 1) (parse_socket a b counts i q)
      else none

  -- `ParseResults`, for the sockets of the cores in range.
  unfoldable pub parse_results : S → S → IntelReadings F → Option (IntelReadings F)
  unfolding parse_cores parse_sockets
  parse_results a b q =
      let fresh : IntelReadings F = record q {
        overall_power = of_ℕ 0;
        socket_power = [];
        overall_usage = of_ℕ 0;
        socket_usage = replicate num_sockets (of_ℕ 0);
        core_usage = [];
      } in
      let (q', counts) = parse_cores a b num_cores 0 (fresh, replicate num_sockets 0) in
      parse_sockets a b counts num_sockets 0
        (record q' { overall_usage = single (div q'.overall_usage (single (of_ℕ num_cores))) })

  -- `Trigger` with the lock; `sample` is what the counters show.
  unfoldable pub sample_locked : S → ℕ → Shared S → Intel F → Ended (Intel F × Status) S
  unfolding parse_results
  sample_locked sample time g m =
      if g.pcm_valid == 0
      then ended (m, status_ok) (record g { state_1 = sample; pcm_valid = 1 })
      else elim (parse_results g.state_1 sample (record m.readings {
        type = type_bits cpu + type_bits power;
        difference = sub64 time m.readings.timestamp;
        timestamp = time;
      })) [
        | none ↦ out_of_range
        | some q ↦
            ended (record m { valid = true; readings = q }, status_ok)
              (record g { pcm_valid = 2; state_1 = sample; state_2 = g.state_1 })
      ]

  -- A guard locks the mutex; the call that has it runs alone.
  unfoldable pub trigger : S → ℕ → Shared S → Intel F → Ended (Intel F × Status) S
  unfolding sample_locked
  trigger sample time g m = if g.locked then waits else sample_locked sample time g m

  unfoldable pub cleared : Intel F → Intel F
  unfolding resize
  cleared m =
      let q = m.readings in
      record m {
        readings = record q {
          type = type_bits none_type;
          timestamp = 0;
          difference = 0;
          overall_usage = neg (of_ℕ 1);
          overall_power = neg (of_ℕ 1);
          overall_energy = of_ℕ 0;
          socket_power = [];
          core_energy = [];
          core_usage = [];
          socket_usage = [];
          socket_energy = resize num_sockets (of_ℕ 0) q.socket_energy;
        };
      }

  unfoldable pub reset : Shared S → Intel F → Ended (Intel F × Status) S
  reset g m = if g.locked then waits else ended (cleared m, status_ok) g

  unfoldable pub get_status : Shared S → Intel F → Ended (Intel F × Status) S
  get_status g m =
      if g.locked
      then waits
      else ended
          (
            m,
            if ltb g.pcm_valid 2
                then fail not_ready "The Intel PCM does not have taken enough samples"
                else if not m.valid
                then fail not_ready "The internal trigger() has not been launched yet"
                else status_ok,
          )
          g

  -- The end of the constructor.
  unfoldable pub with_caps : Intel F → Intel F
  with_caps m = record m {
    caps_type =
        type_bits cpu + type_bits interval + (if energy_available then type_bits power else 0);
  }

  -- The part behind the successful programming: the mutex is released, then `Reset` and `Trigger`.
  unfoldable pub start_meter : S → ℕ → Shared S → Intel F → Ended (Intel F) S
  unfolding reset trigger with_caps
  start_meter sample time g m = elim (reset (record g { locked = false }) m) [
    | ended p g1 ↦ elim (trigger sample time g1 (p.0)) [
      | ended r g2 ↦ ended (with_caps (r.0)) g2
      | raised e g2 ↦ raised e g2
      | out_of_range ↦ out_of_range
      | waits ↦ waits
    ]
    | raised e g1 ↦ raised e g1
    | out_of_range ↦ out_of_range
    | waits ↦ waits
  ]

  unfoldable pub program_status : Programmed → Status
  program_status success = status_ok
  program_status msr_access_denied =
      fail access_denied
        "Access to Intel(r) Performance Counter Monitor has denied (no MSR or PCI CFG space access).\n"
  program_status pmu_busy =
      fail resource_busy
        "Access to Intel(r) Performance Counter Monitor has denied (Performance Monitoring Unit is occupied by other application). Try to stop the application that uses PMU.\n Alternatively you can try running PCM with option -r to reset PMU.\n"
  program_status unknown_error =
      fail access_denied
        "Access to Intel(r) Performance Counter Monitor has denied (Unknown error).\n"

  -- The first meter programs the counters; `g` has the mutex locked.
  unfoldable pub program_counters : Programmed → S → ℕ → Shared S → Intel F → Ended (Intel F) S
  unfolding start_meter program_status
  program_counters success sample time g m = start_meter sample time g m
  program_counters msr_access_denied sample time g m = raised (program_status msr_access_denied) g
  program_counters pmu_busy sample time g m = raised (program_status pmu_busy) g
  program_counters unknown_error sample time g m = raised (program_status unknown_error) g

  -- The constructor; the readings are numbers that nobody wrote, with empty vectors.
  unfoldable pub construct :
      IntelReadings F → ℕ → ObserverScope → ℕ → Programmed → S → ℕ → Shared S → Ended (Intel F) S
  unfolding program_counters with_caps
  construct memory pid process ms answer sample time g =
      raised (fail invalid_parameter "Process-scope is not supported") g
  construct memory pid system ms answer sample time g =
      let m : Intel F = record {
        valid = false;
        pid = pid;
        interval_ms = ms;
        caps_type = 0;
        readings = memory;
      } in
      if g.locked
      then waits
      else if g.created
      then ended (with_caps m) (record g { locked = true })
      else program_counters answer sample time (record g { locked = true; created = true }) m

  unfoldable pub select_device : ℕ → Intel F → Intel F × Status
  select_device device m = (m, fail not_implemented "Cannot select a device")

  unfoldable pub set_scope : ObserverScope → Intel F → Intel F × Status
  set_scope system m = (m, status_ok)
  set_scope process m = (m, fail not_implemented "The scope is only set to SYSTEM")

  unfoldable pub set_pid : ℕ → Intel F → Intel F × Status
  set_pid pid m =
      (m, fail not_implemented "It is not possible to set a PID in a SYSTEM wide Observer")

  unfoldable pub set_interval : ℕ → Intel F → Intel F × Status
  set_interval ms m = (record m { interval_ms = ms }, status_ok)

  unfoldable pub clear_interval : Intel F → Intel F × Status
  clear_interval m = (m, fail not_implemented "The clear interval is not implemented yet")
