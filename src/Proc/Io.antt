-- ===== src/Proc/Io.antt =====
-- `ProcIOObserver` (src/efimon/proc/io.cpp). What opens, the float in /proc/uptime and the two
-- numbers that `fscanf` takes from /proc/pid/io are arguments.
pub mod Volumes
pub mod Tests
use efimon.Prelude.{ℕ, ◌+◌, ◌-◌, Bool, not, Option, none, some, if◌then◌else◌}
use efimon.Status.{Status, status_ok, is_ok, fail, ok, not_found, not_implemented}
use efimon.Observer.{ObserverScope, process, system, type_bits, none_type, io, interval}
use efimon.Float.{Float}
use efimon.Outcome.{Outcome, returns, throws}
use efimon.Words.{u64, sub64}
use efimon.Proc.Machine.{Machine, uptime_ms}

pub record IoData : Type 0 where
  pub rchar : ℕ
  pub wchar : ℕ

pub record IoReadings (F : Type 0) : Type 0 where
  pub type : ℕ
  pub timestamp : ℕ
  pub difference : ℕ
  pub read_bw : F
  pub write_bw : F
  pub read_volume : ℕ
  pub write_volume : ℕ
  pub read_power : F
  pub write_power : F

pub record IoObserver (F : Type 0) : Type 0 where
  pub pid : ℕ
  pub interval_ms : ℕ
  pub status : Status
  pub caps_type : ℕ
  pub scope : ObserverScope
  pub proc_data : IoData
  pub readings : IoReadings F
  pub uptime : ℕ

module _ {F : Type 0} (d : Float F) where
  open d use {of_ℕ, mul, div, neg, single}

  -- `Reset`; the volumes are unsigned, so -1 is the largest number. The powers stay.
  unfoldable pub reset : IoObserver F → IoObserver F × Status
  reset o = (
    record o {
      proc_data = record { rchar = 0; wchar = 0 };
      readings = record o.readings {
        type = type_bits none_type;
        timestamp = 0;
        difference = 0;
        read_bw = neg (of_ℕ 1);
        write_bw = neg (of_ℕ 1);
        read_volume = u64 - 1;
        write_volume = u64 - 1;
      };
    },
    status_ok,
  )

  -- The constructor, over whatever the memory of the object holds.
  unfoldable pub construct : IoObserver F → ℕ → ObserverScope → ℕ → Outcome (IoObserver F)
  construct memory pid system ms = throws (fail not_implemented "System monitor not implemented")
  construct memory pid process ms =
      returns
        (reset (record memory {
          pid = pid;
          interval_ms = ms;
          status = status_ok;
          caps_type = type_bits io + type_bits interval;
          scope = process;
        })).0

  unfoldable pub get_uptime : Machine → Option F → ℕ
  get_uptime m none = 0
  get_uptime m (some up) = uptime_ms d m up

  unfoldable pub check_alive : Bool → IoObserver F → IoObserver F
  check_alive alive o = record o {
    status = if alive then status_ok else fail not_found "The process is not available";
  }

  unfoldable pub get_proc_io : Option IoData → IoObserver F → IoObserver F
  get_proc_io none o = record o { status = fail not_found "The process is not available" }
  get_proc_io (some q) o = record o { proc_data = q }

  -- Bytes over milliseconds, as a number per second.
  unfoldable pub bandwidth : ℕ → ℕ → F
  bandwidth bytes ms =
      single (div (single (mul (single (of_ℕ 1000)) (single (of_ℕ bytes)))) (single (of_ℕ ms)))

  unfoldable pub translate_readings : IoObserver F → IoObserver F
  translate_readings o =
      let diff = sub64 o.uptime o.readings.timestamp in
      let rchar = sub64 o.proc_data.rchar o.readings.read_volume in
      let wchar = sub64 o.proc_data.wchar o.readings.write_volume in
      record o {
        readings = record {
          type = type_bits io;
          difference = diff;
          timestamp = o.uptime;
          read_volume = o.proc_data.rchar;
          write_volume = o.proc_data.wchar;
          read_bw = bandwidth rchar diff;
          write_bw = bandwidth wchar diff;
          read_power = neg (of_ℕ 1);
          write_power = neg (of_ℕ 1);
        };
      }

  -- `Trigger`: `alive` is whether the first `fopen` succeeds, `file` what the second one finds. The
  -- status of `GetProcIO` is not looked at.
  unfoldable pub trigger :
      Machine → Bool → Option F → Option IoData → IoObserver F → IoObserver F × Status
  trigger m alive up file o =
      let o' = check_alive alive o in
      if is_ok o'.status.code
      then (
        translate_readings (get_proc_io file (record o' { uptime = get_uptime m up })),
        status_ok,
      )
      else (o', o'.status)

  unfoldable pub select_device : ℕ → IoObserver F → IoObserver F × Status
  select_device device o =
      (o, fail not_implemented "Cannot select a device since it is not implemented")

  unfoldable pub set_scope : ObserverScope → IoObserver F → IoObserver F × Status
  set_scope scope o = (o, fail not_implemented "Cannot select a device since it is not implemented")

  -- The pid is not taken.
  unfoldable pub set_pid : ℕ → IoObserver F → IoObserver F × Status
  set_pid pid o = (o, status_ok)

  unfoldable pub set_interval : ℕ → IoObserver F → IoObserver F × Status
  set_interval ms o = (record o { interval_ms = ms }, status_ok)

  unfoldable pub clear_interval : IoObserver F → IoObserver F × Status
  clear_interval o = (o, status_ok)
