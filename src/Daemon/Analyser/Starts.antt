-- ===== src/Daemon/Analyser/Starts.antt =====
-- The workers, `EfimonWorker::Start`, `Stop` and `State` (src/tools/efimon-daemon/efimon-worker.cpp). A
-- call that joins a thread takes the acts of that thread until the join: `none` says that it waits.
use efimon.Prelude.{
  ℕ, String, Bool, true, false, not, Option, none, some, List, ◌∷◌, ◌++◌, ◌==◌, if◌then◌else◌, Text,
  codes, to_string,
}
use efimon.Status.{Code, code_number, ok, cannot_open}
use efimon.Observer.{process}
use efimon.Outcome.{Outcome, returns, throws, escapes, faults}
use efimon.Perf.Record.{RecordReadings, Recorder, World, construct, destroy}
use efimon.Daemon.Thread.{
  Thread, Phase, launched, looping, finished, terminated, Act, clear, launch, run, state,
}

-- A `Status` whose message is put together at run time.
pub record Notice : Type 0 where
  pub code : Code
  pub what : Text

abbrev pub notice : Code → String → Notice
notice c s = record { code = c; what = codes s }

-- A message that ends in the number of a pid.
abbrev pub notice_of : Code → String → ℕ → Notice
notice_of c s pid = record { code = c; what = codes s ++ to_string pid }

-- `delay` and `metered` are the observer of /proc (`proc_meter_`), `recorder` that of perf record;
-- `thread` holds the flag `running_` and the samples left.
pub record Worker : Type 0 where
  pub name : Text
  pub pid : ℕ
  pub delay : ℕ
  pub metered : Bool
  pub recorder : Option Recorder
  pub thread : Option Thread

-- Which processes are alive, what a new observer's memory holds, and `ENABLE_PERF`.
pub record Setting : Type 0 where
  pub alive : ℕ → Bool
  pub memory : RecordReadings
  pub perf_built : Bool

unfoldable pub new_worker : Text → ℕ → Worker
new_worker name pid = record {
  name = name;
  pid = pid;
  delay = 0;
  metered = false;
  recorder = none;
  thread = none;
}

-- The observers of perf, where the request enables them.
unfoldable pub make_perf :
    Setting → ℕ → ℕ → Bool → Worker → World → Outcome (Option Recorder × World)
make_perf s delay freq perf w world =
    if not perf
    then returns (w.recorder, world)
    else if not s.perf_built
    then returns (none, world)
    else elim (construct s.alive s.memory w.pid process delay freq true world) [
      | returns (r, world') ↦ returns (some r, world')
      | throws e ↦ throws e
      | escapes ↦ escapes
      | faults ↦ faults
    ]

-- The new thread takes the place of the old one, which ends the program if there is one.
unfoldable pub make_thread : ℕ → Worker → World → Outcome (Worker × World × Notice)
make_thread samples w world = elim (w.thread) [
  | none ↦ returns (record w { thread = some (launch samples) }, world, notice ok "")
  | some t ↦ escapes
]

-- `Start`.
unfoldable pub worker_start :
    Setting → ℕ → ℕ → Bool → ℕ → Worker → World → Outcome (Worker × World × Notice)
worker_start s delay samples perf freq w world =
    if w.pid == 0
    then returns (
      w,
      world,
      notice cannot_open "Invalid instance of the worker. Are you using default constructor?",
    )
    else elim (make_perf s delay freq perf w world) [
      | returns (r, world') ↦
          make_thread samples (record w { delay = delay; metered = true; recorder = r }) world'
      | throws e ↦ throws e
      | escapes ↦ escapes
      | faults ↦ faults
    ]

unfoldable pub is_finished : Phase → Bool
is_finished launched = false
is_finished looping = false
is_finished finished = true
is_finished terminated = false

-- The flag is cleared, and the thread is joined once it has ended.
unfoldable pub join : List Act → Thread → Bool
join acts t = elim (run (clear ∷ acts) t) [ none ↦ false | some t' ↦ is_finished t'.phase ]

unfoldable pub drop_recorder : Option Recorder → World → World
drop_recorder none world = world
drop_recorder (some r) world = destroy r world

-- The end of `Stop`.
unfoldable pub dismantle : Worker → World → Worker × World × Notice
dismantle w world = (
  record w { metered = false; recorder = none; thread = none },
  drop_recorder w.recorder world,
  notice ok "",
)

-- `Stop`.
unfoldable pub worker_stop : List Act → Worker → World → Option (Worker × World × Notice)
worker_stop acts w world =
    if w.pid == 0
    then some (
      w,
      world,
      notice cannot_open "Invalid instance of the worker. Are you using default constructor?",
    )
    else elim (w.thread) [
      | none ↦ some (dismantle w world)
      | some t ↦ if join acts t then some (dismantle w world) else none
    ]

-- The code of `State`; without a thread the flag is as the constructor or `Stop` left it.
unfoldable pub state_code : Option Thread → Code
state_code none = Code.stopped
state_code (some t) = state t

unfoldable pub worker_state : Worker → Notice
worker_state w =
    let c = state_code w.thread in record { code = c; what = to_string (code_number c) }
