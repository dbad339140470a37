-- ===== src/Perf/Record.antt =====
-- `PerfRecordObserver` (src/efimon/perf/record.cpp): the observer's fields, and the two things that
-- all observers share, the list `active_pids_` and the folders on disk. Whether a process is alive,
-- the uptime, and what the perf command and the file copy do are arguments.
pub mod State
pub mod Registry
pub mod Pids
pub mod Tests
use efimon.Prelude.{
  ℕ, ◌+◌, Bool, true, false, not, ◌&&◌, List, [], ◌∷◌, ◌++◌, ◌==◌, if◌then◌else◌, set, any, keep,
  Text, codes, text_eq, to_string,
}
use efimon.Status.{
  Status, status_ok, fail, ok, invalid_parameter, not_found, resource_busy, not_ready, file_error,
  not_implemented,
}
use efimon.Observer.{
  ObserverScope, process, system, type_bits, none_type, cpu, interval, cpu_instructions,
}
use efimon.Outcome.{Outcome, returns, throws, escapes, faults}
use efimon.Words.{sub64}
unfoldable pub use efimon.Perf.Record.State.*

unfoldable pub make_perf_command : Recorder → Recorder
make_perf_command r = record r {
  perf_cmd =
      codes "cd "
      ++ r.tmp_folder
      ++ codes " && perf record -e instructions -F"
      ++ to_string r.frequency
      ++ codes " -g -v -p "
      ++ to_string r.pid
      ++ codes " -a sleep "
      ++ to_string r.interval_ms;
}

-- `CheckAlive` of the pid that the observer has now.
unfoldable pub check_alive : (ℕ → Bool) → Recorder → Recorder × Bool
check_alive alive r =
    if alive r.pid
    then (record r { status = fail ok "OK" }, true)
    else (record r { status = fail not_found "The process is not available" }, false)

unfoldable pub set_pid_field : Recorder → ℕ → Recorder
set_pid_field r p = record r { pid = p }

-- The fields after the constructor's first lines. The readings and the paths are whatever the
-- memory holds: the constructor does not write the readings.
unfoldable pub fresh_recorder : RecordReadings → ℕ → ℕ → ℕ → Bool → Recorder
fresh_recorder memory pid interval_ms frequency no_dispose = record {
  valid = false;
  pid = pid;
  interval_ms = if interval_ms == 0 then 1000 else interval_ms;
  frequency = if frequency == 0 then 1000 else frequency;
  no_dispose = no_dispose;
  status = status_ok;
  caps_type = type_bits cpu + type_bits interval + type_bits cpu_instructions;
  perf_cmd = [];
  path_to_perf_data = [];
  tmp_folder = [];
  readings = memory;
}

-- Registering the pid, creating the folder and the command: the end of the constructor and of
-- `SetPID`.
unfoldable pub enlist : Recorder → World → Recorder × World
unfolding create_temporary_folder make_perf_command
enlist r w =
    let (r', w') = create_temporary_folder r (record w { active = w.active ++ (r.pid ∷ []) }) in
    (make_perf_command r', w')

unfoldable pub construct_alive : Recorder → World → Outcome (Recorder × World)
construct_alive r w =
    if is_active r.pid w.active
    then throws (fail resource_busy "The PID is already being tracked by perf record")
    else returns (enlist r w)

-- The constructor. A pid of 0 makes an observer without a process.
unfoldable pub construct :
    (ℕ → Bool)
    → RecordReadings
    → ℕ
    → ObserverScope
    → ℕ
    → ℕ
    → Bool
    → World
    → Outcome (Recorder × World)
construct alive memory pid system interval_ms frequency no_dispose w =
    throws (fail invalid_parameter "System-scope is not supported")
construct alive memory pid process interval_ms frequency no_dispose w =
    let r = fresh_recorder memory pid interval_ms frequency no_dispose in
    let (r', up) = check_alive alive r in
    if pid == 0
    then returns (r, w)
    else if up
    then construct_alive r' w
    else throws (fail not_found "Cannot check that PID is alive")

-- `SetPID` once the new pid is known to be alive and the old one is off the list.
unfoldable pub claim : Recorder → World → Recorder × World × Status
claim r w =
    let (r', w') = enlist r w in
    if is_active r.pid w.active
    then (
      record r { valid = false },
      w,
      fail resource_busy "The PID is already being tracked by perf record",
    )
    else (r', w', status_ok)

-- Erasing the end iterator, where the old pid is not on the list, is undefined.
unfoldable pub release : ℕ → Recorder → World → Outcome World
release old r w =
    if old == 0
    then returns w
    else if is_active old w.active
    then returns (dispose_temporary_folder r (record w { active = forget old w.active }))
    else faults

unfoldable pub set_pid : (ℕ → Bool) → ℕ → Recorder → World → Outcome (Recorder × World × Status)
set_pid alive p r w =
    let (r', up) = check_alive alive (set_pid_field r p) in
    if up
    then elim (release r.pid r' w) [
      | returns w' ↦ returns (claim r' w')
      | throws e ↦ throws e
      | escapes ↦ escapes
      | faults ↦ faults
    ]
    else returns (
      record r' { pid = r.pid; valid = false },
      w,
      fail not_found "Cannot check that PID is alive",
    )

-- The destructor disposes of the folder and leaves the list.
unfoldable pub destroy : Recorder → World → World
unfolding dispose_temporary_folder
destroy r w = dispose_temporary_folder r w

-- `MovePerfData`, where `copy_file` succeeds.
unfoldable pub move_perf_data : Text → Recorder → Recorder
move_perf_data opath r = record r { valid = true; path_to_perf_data = opath }

-- `Trigger`: `opened` says whether the command's pipe opens, `copied` whether `copy_file` succeeds
-- (it throws if not), `time` is the uptime.
unfoldable pub trigger : (ℕ → Bool) → Bool → Bool → ℕ → Recorder → Outcome (Recorder × Status)
unfolding check_alive move_perf_data
trigger alive opened copied time r =
    let (r', up) = check_alive alive r in
    let r'' = move_perf_data (r.tmp_folder ++ codes "/perf.data.ulock") r' in
    if r.pid == 0
    then returns (r, fail not_ready "Invalid PID. Assign one")
    else if not up
    then returns (r', r'.status)
    else if not opened
    then returns (r', fail file_error "Cannot execute perf record command")
    else if not copied
    then escapes
    else returns (
      record r'' {
        readings = record {
          perf_data_path = r''.path_to_perf_data;
          type = type_bits cpu;
          timestamp = time;
          difference = sub64 time r.readings.timestamp;
        };
      },
      status_ok,
    )

unfoldable pub reset : Recorder → Recorder × Status
reset r = (
  record r {
    valid = false;
    readings = record {
      perf_data_path = [];
      type = type_bits none_type;
      timestamp = 0;
      difference = 0;
    };
  },
  status_ok,
)

unfoldable pub select_device : ℕ → Recorder → Recorder × Status
select_device device r = (r, fail not_implemented "Cannot select a device")

unfoldable pub set_scope : ObserverScope → Recorder → Recorder × Status
set_scope process r = (r, status_ok)
set_scope system r = (r, fail not_implemented "The scope is only set to PROCESS")

unfoldable pub set_interval : ℕ → Recorder → Recorder × Status
set_interval ms r = (record r { interval_ms = ms }, status_ok)

unfoldable pub clear_interval : Recorder → Recorder × Status
clear_interval r = (r, fail not_implemented "The clear interval is not implemented yet")
