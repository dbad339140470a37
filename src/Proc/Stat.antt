-- ===== src/Proc/Stat.antt =====
-- `ProcStatObserver` (src/efimon/proc/stat.cpp, include/efimon/proc/stat.hpp) in the scope of one
-- process, and the operations that both scopes share. /proc/pid/stat is an argument: whether it can
-- be opened, and the fields that `fscanf` stores. The system scope is in `Global`.
pub mod State
pub mod Usage
pub mod Sampled
pub mod Global
pub mod Cores
pub mod Tests
use efimon.Prelude.{
  ℕ, ◌+◌, ◌*◌, ◌/◌, ◌^◌, Bool, true, false, not, ◌||◌, Option, none, some, List, [], ◌∷◌, ◌==◌,
  if◌then◌else◌, replicate,
}
use efimon.Float.{Float}
use efimon.Status.{Status, Code, status_ok, is_ok, fail, not_found, not_implemented}
use efimon.Observer.{ObserverScope, process, system, type_bits, none_type, cpu, ram, interval}
use efimon.Words.{add64, sub64, mul64}
use efimon.Proc.Machine.{Machine, uptime_ms}
unfoldable pub use efimon.Proc.Stat.State.*

module _ {F : Type 0} (d : Float F) where
  open d use {of_ℕ, add, sub, mul, div, neg, single, trunc}

  abbrev pub minus_one : F
  minus_one = neg (of_ℕ 1)

  -- `Reset` clears the data and the readings; the fields of the RAM readings that it does not name
  -- stay.
  unfoldable pub reset : StatObserver F → StatObserver F × Status
  reset o = (
    record o {
      proc_data = zero_data;
      global_data = replicate max_num_cpus zero_core;
      cpu_readings = record {
        type = type_bits none_type;
        timestamp = 0;
        difference = 0;
        overall_usage = of_ℕ 0;
        overall_power = of_ℕ 0;
        core_usage = [];
        core_power = [];
      };
      ram_readings = record o.ram_readings {
        type = type_bits none_type;
        timestamp = 0;
        difference = 0;
        overall_usage = of_ℕ 0;
        overall_bw = of_ℕ 0;
        overall_power = of_ℕ 0;
      };
    },
    status_ok,
  )

  -- The constructor, over whatever the memory of the object holds. The capability is stored before
  -- the RAM bit is added to the local variable.
  unfoldable pub construct : StatObserver F → ℕ → ObserverScope → ℕ → StatObserver F
  unfolding reset
  construct memory pid scope ms =
      (reset (record memory {
        pid = pid;
        interval_ms = ms;
        status = status_ok;
        caps_type = type_bits cpu + type_bits interval;
        global = elim scope [ process ↦ false | system ↦ true ];
        scope = scope;
      })).0

  -- `GetUptime`: the two floats of /proc/uptime, if it can be opened.
  unfoldable pub get_uptime : Machine → Option (F × F) → StatObserver F → StatObserver F
  get_uptime m none o = o
  get_uptime m (some (up, idle)) o = record o {
    uptime = uptime_ms d m up;
    uptime_idle = uptime_ms d m idle;
  }

  unfoldable pub check_alive : Bool → StatObserver F → StatObserver F
  check_alive alive o = record o {
    status = if alive then status_ok else fail not_found "The process is not available";
  }

  unfoldable pub get_proc_stat : Option StatFields → StatObserver F → StatObserver F
  get_proc_stat none o = record o { status = fail not_found "The process is not available" }
  get_proc_stat (some f) o = record o { proc_data = record o.proc_data { fields = f } }

  -- The base part of both readings.
  unfoldable pub stamp : StatObserver F → StatObserver F
  stamp o =
      let diff = sub64 o.uptime o.cpu_readings.timestamp in
      record o {
        cpu_readings = record o.cpu_readings {
          type = type_bits cpu;
          difference = diff;
          timestamp = o.uptime;
        };
        ram_readings = record o.ram_readings {
          type = type_bits ram;
          difference = diff;
          timestamp = o.uptime;
        };
      }

  -- The time that the process was active, in milliseconds.
  unfoldable pub active_ms : Machine → StatFields → ℕ
  active_ms m f = mul64 (add64 (add64 (add64 f.utime f.stime) f.cutime) f.cstime) 1000 / m.clk_tck

  -- A percentage of one processor, divided by the number of processors.
  unfoldable pub usage_of : Machine → ℕ → ℕ → F
  usage_of m diff_active diff_total = single (
      div
        (single
          (mul (of_ℕ 100) (single (div (single (of_ℕ diff_active)) (single (of_ℕ diff_total))))))
        (single (of_ℕ m.processors)))

  -- The RAM readings, in MiB.
  unfoldable pub ram_of : Machine → StatFields → RamReadings F → RamReadings F
  ram_of m f q =
      let used = single (of_ℕ (f.rss * m.page_size / 2 ^ 20)) in
      let all = single (of_ℕ (f.vsize / 2 ^ 20)) in
      record q {
        overall_usage = used;
        total_memory_usage = all;
        swap_usage = single (sub all used);
        overall_power = minus_one;
        overall_bw = minus_one;
      }

  -- The update of a process that is neither stopped nor dead.
  unfoldable pub measure : Machine → StatObserver F → StatObserver F
  measure m o =
      let f = o.proc_data.fields in
      let total = sub64 o.uptime f.starttime in
      let active = active_ms m f in
      let diff_total = sub64 total o.proc_data.total in
      let diff_active = sub64 active o.proc_data.active in
      let warmup = o.proc_data.total == 0 || diff_total == 0 in
      record o {
        proc_data = record { fields = f; total = total; active = active };
        cpu_readings = record o.cpu_readings {
          overall_usage = if warmup then of_ℕ 0 else usage_of m diff_active diff_total;
          overall_power = minus_one;
          core_power = replicate m.processors minus_one;
          core_usage = replicate m.processors minus_one;
        };
        ram_readings = ram_of m f o.ram_readings;
      }

  unfoldable pub translate_readings : Machine → StatObserver F → StatObserver F
  translate_readings m o =
      let o' = stamp o in if is_halted o'.proc_data.fields.state then o' else measure m o'

  -- `Trigger` for a process: `alive` is whether the first `fopen` succeeds, `file` what the second
  -- one finds. The status of `GetProcStat` is not looked at.
  unfoldable pub trigger_process :
      Machine → Bool → Option (F × F) → Option StatFields → StatObserver F → StatObserver F × Status
  trigger_process m alive up file o =
      let o' = check_alive alive o in
      if is_ok o'.status.code
      then (translate_readings m (get_proc_stat file (get_uptime m up o')), status_ok)
      else (o', o'.status)

  -- The number of readings that `GetReadings` gives: the RAM ones only for a process.
  unfoldable pub reading_types : StatObserver F → List ℕ
  reading_types o =
      if o.global then o.cpu_readings.type ∷ [] else o.cpu_readings.type ∷ o.ram_readings.type ∷ []

  unfoldable pub set_pid : ℕ → StatObserver F → StatObserver F × Status
  unfolding reset
  set_pid pid o = reset (record o { pid = pid })

  unfoldable pub select_device : ℕ → StatObserver F → StatObserver F × Status
  select_device device o =
      (o, fail not_implemented "Cannot select a device since it is not implemented")

  unfoldable pub set_scope : ObserverScope → StatObserver F → StatObserver F × Status
  set_scope scope o = (o, fail not_implemented "Cannot select a device since it is not implemented")

  unfoldable pub set_interval : ℕ → StatObserver F → StatObserver F × Status
  set_interval ms o = (record o { interval_ms = ms }, status_ok)

  unfoldable pub clear_interval : StatObserver F → StatObserver F × Status
  clear_interval o = (o, status_ok)
