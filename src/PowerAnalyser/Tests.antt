-- ===== src/PowerAnalyser/Tests.antt =====
-- The power analyser at concrete inputs.
use efimon.Prelude.{
  ℕ, ◌+◌, ◌*◌, ◌≡◌, refl, true, false, List, [], ◌∷◌, length, replicate, Text, codes, to_string,
}
use efimon.Float.{whole}
use efimon.Status.{status_ok}
use efimon.Outcome.{returns}
use efimon.Logger.{Value, uint64, single_float, CsvLogger}
use efimon.Logger.Rows.{insert_all}
use efimon.Daemon.Columns.{Features}
use efimon.Daemon.Rows.{put_value, put_indexed}
use efimon.PowerAnalyser.{
  Sizes, Sample, Observers, sample_values, triggers, trigger_all, measure, put_rapl, put_ipmi,
  put_perf, put_frequencies, put_last,
}
use efimon.PowerAnalyser.Turns.{IsReady, measure-rows}
use efimon.PowerAnalyser.Measures.{Grows, measure-insert_all}

abbrev same_order : List (ℕ × ℕ) → List (ℕ × ℕ)
same_order os = os

abbrev rapl_only : Features
rapl_only = record { ipmi = false; rapl = true; perf = false }

abbrev one : Sizes
one = record { socket_num = 1; psu_num = 0; fan_num = 0 }

abbrev sample_at : ℕ → Sample ℕ
sample_at m = record {
  record_timestamp = 0;
  record_difference = 0;
  sys_timestamp = 1000 * m;
  sys_difference = 1000;
  socket_power = (40 + m) ∷ [];
  psu_power = [];
  fan_speeds = [];
  classification = [];
  num_sockets = 1;
  socket_frequency = 1800 ∷ [];
  system_usage = 50;
  process_usage = 20;
}

-- The meter of the system counts the turns.
abbrev observers : Observers ℕ ℕ
observers = record {
  proc_stat = λ m. returns (m, status_ok);
  sys_stat = λ m. returns (m + 1, status_ok);
  cpuinfo = λ m. returns (m, status_ok);
  perf_record = λ m. returns (m, status_ok);
  perf_annotate = λ m. returns (m, status_ok);
  rapl_meter = λ m. returns (m, status_ok);
  ipmi_meter = λ m. returns (m, status_ok);
  sample = sample_at;
}

abbrev log : CsvLogger
log = record { opened = true; table = []; records = []; last_id = 0 }

abbrev row_at : ℕ → List (Text × Value ℕ)
row_at m =
    (codes "Timestamp", uint64 (1000 * m))
    ∷ (codes "SocketPower0", single_float (40 + m))
    ∷ (codes "SocketFreq0", single_float 1800)
    ∷ (codes "SystemCpuUsage", single_float 50)
    ∷ (codes "ProcessCpuUsage", single_float 20)
    ∷ (codes "TimeDifference", uint64 1000)
    ∷ []

abbrev logs : CsvLogger
logs = insert_all to_string (row_at 2 ∷ row_at 3 ∷ []) log

-- Three turns, and then the process has terminated.
measure_run :
    measure whole same_order to_string rapl_only one observers
      (false ∷ false ∷ false ∷ true ∷ [])
      true
      0
      log
    ≡ returns (3, logs)
unfolding measure triggers trigger_all sample_values put_rapl put_ipmi put_perf put_frequencies
    put_last put_value put_indexed to_string
measure_run = refl

measure-insert_all_example : Grows whole same_order to_string rapl_only one observers 1 3 log logs
measure-insert_all_example =
    measure-insert_all whole same_order to_string rapl_only one observers 1 (λ m. refl)
      (false ∷ false ∷ false ∷ true ∷ []) true 0 3 log logs measure_run

observers-IsReady : IsReady whole same_order to_string rapl_only one observers
unfolding triggers sample_values put_rapl put_ipmi put_perf put_frequencies put_last put_value
    put_indexed to_string
observers-IsReady = record {
  succeed = ((λ m. (m, refl)), ((λ m. (m + 1, refl)), ((λ m. (m, refl)), ((λ m. (m, refl)), tt))));
  whole_rows = λ m. (row_at m, refl);
}

measure-rows_example :
    (r : ℕ × CsvLogger) × (measure whole same_order to_string rapl_only one observers
        (replicate 3 false)
        true
        0
        log
      ≡ returns r)
    × (length r.1.records ≡ 2)
measure-rows_example =
    measure-rows whole same_order to_string rapl_only one observers observers-IsReady 2 0 log refl
