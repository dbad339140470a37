-- ===== src/Daemon/Analyser.antt =====
-- The workers and the analyser that owns them, `EfimonWorker::Start`, `Stop`, `State` and
-- `EfimonAnalyser` (src/tools/efimon-daemon/efimon-worker.cpp and efimon-analyser.cpp). A call that
-- joins a thread takes the acts of that thread until the join: `none` says that it still waits.
pub mod Starts
use efimon.Prelude.{
  ℕ, String, Bool, true, false, not, Option, none, some, List, [], ◌∷◌, ◌++◌, ◌==◌, if◌then◌else◌,
  Text, codes, to_string,
}
use efimon.Status.{Code, code_number, ok, resource_busy, cannot_open, not_found}
use efimon.Observer.{process}
use efimon.Outcome.{Outcome, returns, throws, escapes, faults}
use efimon.Perf.Record.{RecordReadings, Recorder, World, construct, destroy}
use efimon.Daemon.Thread.{
  Thread, Phase, launched, looping, finished, Act, clear, launch, run, state,
}
unfoldable pub use efimon.Daemon.Analyser.Starts.*

-- `system` is `sys_thread_` with `sys_running_`; `world` is what the observers of perf share.
pub record Analyser : Type 0 where
  pub system : Option Thread
  pub workers : List (ℕ × Worker)
  pub debug : Bool
  pub world : World

unfoldable pub new_analyser : World → Analyser
new_analyser world = record { system = none; workers = []; debug = false; world = world }

unfoldable pub find_worker : ℕ → List (ℕ × Worker) → Option Worker
find_worker pid [] = none
find_worker pid (e ∷ ws) = if e.0 == pid then some (e.1) else find_worker pid ws

-- `erase` of the entry that `find` found.
unfoldable pub erase_worker : ℕ → List (ℕ × Worker) → List (ℕ × Worker)
erase_worker pid [] = []
erase_worker pid (e ∷ ws) = if e.0 == pid then ws else e ∷ erase_worker pid ws

unfoldable pub start_system : ℕ → Analyser → Analyser × Notice
start_system delay a = elim (a.system) [
  | none ↦ (record a { system = some (record (launch 0) { flag = true }) }, notice ok "")
  | some t ↦ (a, notice resource_busy "The thread has already started")
]

unfoldable pub stop_system : List Act → Analyser → Option (Analyser × Notice)
stop_system acts a = elim (a.system) [
  | none ↦ some (a, notice not_found "The thread was not running")
  | some t ↦ if join acts t then some (record a { system = none }, notice ok "") else none
]

-- From the `emplace` on, which inserts nothing where the process has a worker.
unfoldable pub start_new :
    Setting → Text → ℕ → ℕ → ℕ → Bool → ℕ → Analyser → Outcome (Analyser × Notice)
start_new s name pid delay samples perf freq a = elim (find_worker pid a.workers) [
  | some w ↦ returns (a, notice_of cannot_open "Cannot create the monitor for the given PID: " pid)
  | none ↦ elim (worker_start s delay samples perf freq (new_worker name pid) (a.world)) [
    | returns (w, world, n) ↦
        returns (record a { workers = (pid, w) ∷ a.workers; world = world }, n)
    | throws e ↦ throws e
    | escapes ↦ escapes
    | faults ↦ faults
  ]
]

-- `StartWorkerThread`.
unfoldable pub start_worker :
    Setting → Text → ℕ → ℕ → ℕ → Bool → ℕ → Analyser → Outcome (Analyser × Notice)
start_worker s name pid delay samples perf freq a = elim (find_worker pid (a.workers)) [
  | some w ↦
      returns (a, notice_of resource_busy "The monitor has already started for the given PID: " pid)
  | none ↦ start_new s name pid delay samples perf freq a
]

-- `CheckWorkerThread`.
unfoldable pub check_worker : ℕ → Analyser → Notice
check_worker pid a = elim (find_worker pid (a.workers)) [
  | none ↦ record { code = not_found; what = to_string (code_number not_found) }
  | some w ↦ worker_state w
]

-- `StopWorkerThread`: the status of `Stop` is not looked at.
unfoldable pub stop_worker : List Act → ℕ → Analyser → Option (Analyser × Notice)
stop_worker acts pid a = elim (find_worker pid (a.workers)) [
  | none ↦ some (a, notice_of not_found "No monitor linked to the given PID: " pid)
  | some w ↦ elim (worker_stop acts w (a.world)) [
    | none ↦ none
    | some (w', world, n) ↦
        some (record a { workers = erase_worker pid (a.workers); world = world }, notice ok "")
  ]
]

unfoldable pub enable_debug : Analyser → Analyser
enable_debug a = record a { debug = true }

-- Between two requests the thread of a worker, or that of the system's monitor, takes some steps; the
-- latter in fact never breaks out of its loop on an error.
unfoldable pub advance_thread : List Act → Option Thread → Option (Option Thread)
advance_thread acts none = none
advance_thread acts (some t) = elim (run acts t) [ none ↦ none | some t' ↦ some (some t') ]

unfoldable pub advance_workers : List Act → ℕ → List (ℕ × Worker) → List (ℕ × Worker)
advance_workers acts pid [] = []
advance_workers acts pid (e ∷ ws) =
    if e.0 == pid
    then elim (advance_thread acts e.1.thread) [
      | none ↦ e ∷ ws
      | some t ↦ (e.0, record (e.1) { thread = t }) ∷ ws
    ]
    else e ∷ advance_workers acts pid ws

unfoldable pub advance_worker : List Act → ℕ → Analyser → Analyser
advance_worker acts pid a = record a { workers = advance_workers acts pid a.workers }

unfoldable pub advance_system : List Act → Analyser → Analyser
advance_system acts a = elim (advance_thread acts a.system) [
  | none ↦ a
  | some t ↦ record a { system = t }
]
