-- ===== src/Proc/Stat/Tests.antt =====
-- The theorems on the process and system observers at concrete inputs, over whole numbers.
use efimon.Prelude.{ℕ, ◌-◌, ◌^◌, ◌≡◌, refl, false, [], replicate, codes}
use efimon.Status.{status_ok}
use efimon.Observer.{process}
use efimon.Outcome.{returns}
use efimon.Proc.Machine.{Machine, split_spaces}
use efimon.Proc.Stat.{StatFields, CpuReadings, RamReadings, StatObserver, zero_fields, zero_core}
use efimon.Proc.Stat.Global.{read_core}

abbrev machine : Machine
machine = record { clk_tck = 100; processors = 2; page_size = 4096 }

abbrev cpu_before : CpuReadings ℕ
cpu_before = record {
  type = 1;
  timestamp = 1000;
  difference = 500;
  overall_usage = 3;
  overall_power = 0;
  core_usage = [];
  core_power = [];
}

abbrev ram_before : RamReadings ℕ
ram_before = record {
  type = 2;
  timestamp = 1000;
  difference = 500;
  overall_usage = 1;
  total_memory_usage = 2;
  swap_usage = 1;
  overall_bw = 0;
  overall_power = 0;
}

abbrev running : StatFields
running = record zero_fields { pid = 9; state = b'R'; utime = 60; starttime = 400 }

abbrev observer : StatObserver ℕ
observer = record {
  pid = 9;
  interval_ms = 1;
  status = status_ok;
  caps_type = 129;
  scope = process;
  global = false;
  proc_data = record { fields = running; total = 600; active = 500 };
  global_data = replicate 4 zero_core;
  cpu_readings = cpu_before;
  ram_readings = ram_before;
  uptime = 1500;
  uptime_idle = 0;
}

abbrev busy : StatFields
busy = record running { utime = 460 }

-- The first line of /proc/stat has two blanks behind its name.
read_core_run :
    read_core 0 (split_spaces (codes "cpu  12 0 7 900 3")) zero_core
    ≡ returns (record zero_core {
      cpu_idx = 2 ^ 32 - 1;
      user = 12;
      system_time = 7;
      idle = 900;
      iowait = 3;
    })
unfolding read_core efimon.Proc.Machine.split_spaces efimon.Proc.Machine.number_at
read_core_run = refl
