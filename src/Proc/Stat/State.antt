-- ===== src/Proc/Stat/State.antt =====
-- The state of `ProcStatObserver` (include/efimon/proc/stat.hpp) and its initial values.
use efimon.Prelude.{ℕ, Bool, ◌||◌, List, ◌==◌}
use efimon.Status.{Status}
use efimon.Observer.{ObserverScope}

-- The fields of /proc/pid/stat that are stored. Signed times are their 64-bit patterns, and the
-- number of resident pages is not negative.
pub record StatFields : Type 0 where
  pub pid : ℕ
  pub state : ℕ
  pub utime : ℕ
  pub stime : ℕ
  pub cutime : ℕ
  pub cstime : ℕ
  pub starttime : ℕ
  pub vsize : ℕ
  pub rss : ℕ
  pub processor : ℕ

-- `ProcStatData`: with the totals of the last sample.
pub record ProcStatData : Type 0 where
  pub fields : StatFields
  pub total : ℕ
  pub active : ℕ

-- A line of /proc/stat: a core's times, with the totals of the last sample.
pub record ProcStatGlobalData : Type 0 where
  pub cpu_idx : ℕ
  pub user : ℕ
  pub nice : ℕ
  pub system_time : ℕ
  pub idle : ℕ
  pub iowait : ℕ
  pub total : ℕ
  pub active : ℕ

pub record CpuReadings (F : Type 0) : Type 0 where
  pub type : ℕ
  pub timestamp : ℕ
  pub difference : ℕ
  pub overall_usage : F
  pub overall_power : F
  pub core_usage : List F
  pub core_power : List F

pub record RamReadings (F : Type 0) : Type 0 where
  pub type : ℕ
  pub timestamp : ℕ
  pub difference : ℕ
  pub overall_usage : F
  pub total_memory_usage : F
  pub swap_usage : F
  pub overall_bw : F
  pub overall_power : F

pub record StatObserver (F : Type 0) : Type 0 where
  pub pid : ℕ
  pub interval_ms : ℕ
  pub status : Status
  pub caps_type : ℕ
  pub scope : ObserverScope
  pub global : Bool
  pub proc_data : ProcStatData
  pub global_data : List ProcStatGlobalData
  pub cpu_readings : CpuReadings F
  pub ram_readings : RamReadings F
  pub uptime : ℕ
  pub uptime_idle : ℕ

abbrev pub max_num_cpus : ℕ
max_num_cpus = 1024

abbrev pub zero_fields : StatFields
zero_fields = record {
  pid = 0;
  state = 0;
  utime = 0;
  stime = 0;
  cutime = 0;
  cstime = 0;
  starttime = 0;
  vsize = 0;
  rss = 0;
  processor = 0;
}

abbrev pub zero_data : ProcStatData
zero_data = record { fields = zero_fields; total = 0; active = 0 }

abbrev pub zero_core : ProcStatGlobalData
zero_core = record {
  cpu_idx = 0;
  user = 0;
  nice = 0;
  system_time = 0;
  idle = 0;
  iowait = 0;
  total = 0;
  active = 0;
}

-- `PROC_STATE_STOPPED` and `PROC_STATE_DEAD`.
unfoldable pub is_halted : ℕ → Bool
is_halted state = state == b'T' || state == b'X'
