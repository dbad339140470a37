-- ===== src/Power/Intel/Tests.antt =====
-- The theorems on the PCM meter at concrete inputs, over whole numbers.
use efimon.Prelude.{ℕ, ◌-◌, ◌≡◌, refl, Bool, true, false, List, [], ◌∷◌, length}
use efimon.Float.{whole, whole-IsExact}
use efimon.Status.{status_ok}
use efimon.Observer.{system, type_bits}
use efimon.Power.Rapl.{nth}
use efimon.Power.Intel.{
  success, Pcm, Shared, IntelReadings, Intel, ended, add_at, parse_cores, parse_socket,
  parse_sockets, parse_results, sample_locked, trigger, construct,
}
use efimon.Power.Intel.Locks.{IsStuck, construct-second}
use efimon.Power.Intel.Totals.{IsSummed, trigger-IsSummed}

-- A sample is the number of joules of each socket so far.
abbrev machine : Pcm ℕ ℕ
machine = record {
  num_sockets = 2;
  num_cores = 2;
  socket_id = λ i. i;
  energy_available = true;
  ipc = λ a b i. 1;
  joules = λ a b i. b - a;
}

abbrev shared : Bool → ℕ → ℕ → ℕ → Shared ℕ
shared created valid a b = record {
  locked = false;
  created = created;
  pcm_valid = valid;
  state_1 = a;
  state_2 = b;
}

abbrev readings_of : ℕ → ℕ → List ℕ → List ℕ → ℕ → IntelReadings ℕ
readings_of time watts powers energies total = record {
  type = 65;
  timestamp = time;
  difference = 1000;
  overall_usage = 1;
  overall_power = watts;
  overall_energy = total;
  core_usage = 1 ∷ 1 ∷ [];
  socket_usage = 1 ∷ 1 ∷ [];
  socket_power = powers;
  socket_energy = energies;
  core_energy = [];
}

abbrev meter_of : Bool → IntelReadings ℕ → Intel ℕ
meter_of valid q = record {
  valid = valid;
  pid = 0;
  interval_ms = 100;
  caps_type = 193;
  readings = q;
}

abbrev before : Intel ℕ
before = meter_of false (readings_of 1000 0 [] (3 ∷ 4 ∷ []) 7)

abbrev after : Intel ℕ
after = meter_of true (readings_of 2000 20 (10 ∷ 10 ∷ []) (13 ∷ 14 ∷ []) 27)

counted_run :
    trigger whole machine 60 2000 (shared true 1 50 0) before
    ≡ ended (after, status_ok) (shared true 2 60 50)
unfolding trigger sample_locked parse_results parse_cores parse_sockets parse_socket add_at nth
    type_bits
counted_run = refl

trigger-IsSummed_example :
    IsSummed whole machine whole-IsExact after.readings
    × (length after.readings.socket_power ≡ 2)
    × (after.valid ≡ true)
    × ((shared true 2 60 50).locked ≡ false)
trigger-IsSummed_example =
    trigger-IsSummed whole machine whole-IsExact 60 2000 (shared true 1 50 0) (shared true 2 60 50)
      before after status_ok (λ e. cc) refl counted_run

construct-second_example :
    (m : Intel ℕ) × (g : Shared ℕ) × (construct whole machine before.readings 0 system 100 success
        60 2000
        (shared true 2 60 50)
      ≡ ended m g)
    × IsStuck whole machine g
construct-second_example =
    construct-second whole machine before.readings 0 100 success 60 2000 (shared true 2 60 50) refl
      refl
