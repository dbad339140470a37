-- ===== src/Power/Rapl/Tests.antt =====
-- The theorems on the RAPL meter at concrete inputs, over whole numbers.
use efimon.Prelude.{ℕ, ◌≡◌, refl, ◌≢◌, true, [], ◌∷◌, arith}
use efimon.Float.{whole, whole-IsExact}
use efimon.Status.{status_ok}
use efimon.Outcome.{returns}
use efimon.Power.Rapl.{
  PowerReadings, Rapl, Sample, unopened, unparsable, trigger, stamp, meter, walk, validate,
  get_socket_consumption, parse_results, account,
}
use efimon.Power.Rapl.Sized.{IsSized}
use efimon.Power.Rapl.Totals.{IsBalanced, trigger-IsBalanced}

abbrev readings : PowerReadings ℕ
readings = record {
  type = 65;
  timestamp = 100;
  difference = 50;
  overall_usage = 0;
  overall_power = 0;
  overall_energy = 30;
  socket_power = 0 ∷ 0 ∷ [];
  socket_energy = 10 ∷ 20 ∷ [];
  core_power = [];
}

abbrev two_sockets : Rapl ℕ
two_sockets = record {
  num_sockets = 2;
  logical_cores = 0;
  valid = true;
  device = 1;
  interval_ms = 1000;
  caps_type = 193;
  before = 5 ∷ 6 ∷ [];
  after = 7 ∷ 9 ∷ [];
  max = 100 ∷ 100 ∷ [];
  readings = readings;
}

two_sockets-IsSized : IsSized two_sockets
two_sockets-IsSized = omega arith

abbrev no_files : ℕ → Sample ℕ
no_files s = unopened

opened : (s : ℕ) → no_files s ≢ unparsable
opened s e = cc

after_unopened : Rapl ℕ
after_unopened = record (account whole 1 (stamp whole 150 two_sockets)) { valid = true }

unopened_run : trigger whole no_files 150 two_sockets ≡ returns (after_unopened, status_ok)
unfolding after_unopened trigger walk meter get_socket_consumption parse_results validate stamp
    account
unopened_run = refl

trigger-IsBalanced_example : IsBalanced whole after_unopened
trigger-IsBalanced_example =
    trigger-IsBalanced whole whole-IsExact no_files 150 two_sockets after_unopened status_ok refl
      unopened_run
