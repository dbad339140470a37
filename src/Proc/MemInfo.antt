-- ===== src/Proc/MemInfo.antt =====
-- `ProcMemInfoObserver` (src/efimon/proc/meminfo.cpp). The lines of /proc/meminfo and the floats of
-- /proc/uptime are arguments.
pub mod Amounts
pub mod Labels
pub mod Tests
use efimon.Prelude.{
  ℕ, ◌+◌, ◌-◌, ◌/◌, ◌^◌, not, Option, none, some, List, [], ◌∷◌, ltb, if◌then◌else◌, length,
  get_elem?, set, Text, codes, contains,
}
use efimon.Status.{Status, status_ok, fail, not_implemented, invalid_parameter}
use efimon.Observer.{ObserverScope, process, system, type_bits, none_type, ram, cpu, interval}
use efimon.Float.{Float}
use efimon.Outcome.{Outcome, returns, throws, escapes, faults, ◌>>=◌}
use efimon.Words.{sub64}
use efimon.Proc.Machine.{Machine, uptime_ms, split_spaces, stoull}
use efimon.Proc.Stat.{RamReadings}

pub record MemData : Type 0 where
  pub swap_available : ℕ
  pub swap_total : ℕ
  pub phys_available : ℕ
  pub phys_total : ℕ

pub record MemObserver (F : Type 0) : Type 0 where
  pub interval_ms : ℕ
  pub status : Status
  pub caps_type : ℕ
  pub proc_data : MemData
  pub readings : RamReadings F
  pub uptime : ℕ

pub data Field : Type 0 where
  mem_available swap_free mem_total swap_total : Field

-- The chain of tests on the first piece of a line.
unfoldable pub field_of : Text → Option Field
field_of label =
    if contains (codes "MemAvailable") label
    then some mem_available
    else if contains (codes "SwapFree") label
    then some swap_free
    else if contains (codes "MemTotal") label
    then some mem_total
    else if contains (codes "SwapTotal") label
    then some swap_total
    else none

unfoldable pub store : Field → ℕ → MemData → MemData
store mem_available n q = record q { phys_available = n }
store swap_free n q = record q { swap_available = n }
store mem_total n q = record q { phys_total = n }
store swap_total n q = record q { swap_total = n }

-- `values[values.size() - 2]`, which with one piece is far out of bounds.
unfoldable pub second_last : List Text → Outcome Text
second_last values =
    if ltb (length values) 2
    then faults
    else elim (get_elem? values (length values - 2)) [ none ↦ faults | some v ↦ returns v ]

-- `values[0]` of an empty line is out of bounds.
unfoldable pub read_pieces : List Text → MemData → Outcome MemData
read_pieces [] q = faults
read_pieces (label ∷ values) q = elim (field_of label) [
  | none ↦ returns q
  | some f ↦ second_last (label ∷ values) >>= stoull >>= λ n. returns (store f n q)
]

unfoldable pub read_lines : List Text → MemData → Outcome MemData
read_lines [] q = returns q
read_lines (line ∷ lines) q = read_pieces (split_spaces line) q >>= read_lines lines

module _ {F : Type 0} (d : Float F) where
  open d use {of_ℕ, add, neg, single}

  -- `Reset`; the other fields of the readings stay.
  unfoldable pub reset : MemObserver F → MemObserver F × Status
  reset o = (
    record o {
      proc_data = record { swap_available = 0; swap_total = 0; phys_available = 0; phys_total = 0 };
      readings = record o.readings {
        overall_usage = of_ℕ 0;
        overall_bw = of_ℕ 0;
        overall_power = of_ℕ 0;
        type = type_bits none_type;
        timestamp = 0;
        difference = 0;
      };
    },
    status_ok,
  )

  unfoldable pub construct : MemObserver F → ObserverScope → ℕ → Outcome (MemObserver F)
  construct memory process ms = throws (fail invalid_parameter "Process-scope is not supported")
  construct memory system ms =
      returns
        (reset (record memory {
          interval_ms = ms;
          status = status_ok;
          caps_type = type_bits cpu + type_bits interval;
        })).0

  unfoldable pub get_uptime : Machine → Option F → MemObserver F → MemObserver F
  get_uptime mc none o = o
  get_uptime mc (some up) o = record o { uptime = uptime_ms d mc up }

  -- A number of KiB in MiB.
  unfoldable pub mib : ℕ → F
  mib kib = single (of_ℕ (kib / 2 ^ 10))

  unfoldable pub translate_readings : MemObserver F → MemObserver F
  translate_readings o =
      let q = o.proc_data in
      let used = mib (sub64 q.phys_total q.phys_available) in
      let swap = mib (sub64 q.swap_total q.swap_available) in
      record o {
        readings = record {
          type = type_bits ram;
          difference = sub64 o.uptime o.readings.timestamp;
          timestamp = o.uptime;
          overall_usage = used;
          swap_usage = swap;
          total_memory_usage = single (add used swap);
          overall_power = neg (of_ℕ 1);
          overall_bw = neg (of_ℕ 1);
        };
      }

  unfoldable pub trigger :
      Machine → Option F → List Text → MemObserver F → Outcome (MemObserver F × Status)
  trigger mc up lines o =
      let o' = get_uptime mc up o in
      read_lines lines o'.proc_data >>= λ q.
      returns (translate_readings (record o' { proc_data = q }), status_ok)

  unfoldable pub select_device : ℕ → MemObserver F → MemObserver F × Status
  select_device device o =
      (o, fail not_implemented "Cannot select a device since it is not implemented")

  unfoldable pub set_scope : ObserverScope → MemObserver F → MemObserver F × Status
  set_scope scope o = (o, fail not_implemented "Cannot select a device since it is not implemented")

  unfoldable pub set_pid : ℕ → MemObserver F → MemObserver F × Status
  set_pid pid o = (o, fail not_implemented "Cannot set a PID since it is not implemented")

  unfoldable pub set_interval : ℕ → MemObserver F → MemObserver F × Status
  set_interval ms o = (record o { interval_ms = ms }, status_ok)

  unfoldable pub clear_interval : MemObserver F → MemObserver F × Status
  clear_interval o = (o, status_ok)
