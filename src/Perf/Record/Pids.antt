-- ===== src/Perf/Record/Pids.antt =====
-- Which pids an observer tracks, and what happens to the list when an observer moves or ends.
use efimon.Prelude.{
  ℕ, ◌+◌, ◌≤◌, ◌<◌, ◌≡◌, refl, ◌≢◌, ◌↔◌, inl, inr, Bool, true, false, ◌++◌, arith, ==_refl, codes,
}
use efimon.Status.{Status, status_ok, is_ok, fail, ok, resource_busy}
use efimon.Observer.{process, type_bits, cpu}
use efimon.Outcome.{Outcome, returns, throws, faults}
use efimon.Words.{sub64, u64, sub64-of_le}
use efimon.Perf.Record.{
  RecordReadings, Recorder, World, is_active, forget, dispose_temporary_folder, construct,
  construct_alive, claim, release, set_pid, destroy, check_alive, set_pid_field, fresh_recorder,
  trigger,
}
use efimon.Perf.Record.Registry.{
  IsUnique, is_active-append, is_active-forget, dispose-active, construct-active, renamed,
  renamed-pid, fresh-pid,
}

pub construct_alive-busy :
    (r : Recorder) (w : World)
    → is_active r.pid w.active ≡ true
    → construct_alive r w
      ≡ throws (fail resource_busy "The PID is already being tracked by perf record")
unfolding construct_alive
construct_alive-busy r w h = rw h

pub construct-tracks :
    (alive : ℕ → Bool) (m : RecordReadings) (p i f : ℕ) (k : Bool) (w w' : World) (r : Recorder)
    → p ≢ 0
    → construct alive m p process i f k w ≡ returns (r, w')
    → is_active p w'.active ≡ true
construct-tracks alive m p i f k w w' r np e = elim (construct-active alive m p i f k w w' r e) [
  | inl (z, _) ↦ absurd (np z)
  | inr (n, h) ↦ rw (h, is_active-append p p w.active, n) (==_refl p)
]

-- The destructor does not take the pid off the list: once an observer of a process was made and
-- destroyed, no other can be made for that pid while the list stands, even if it is alive.
pub construct-after_destroy :
    (alive alive' : ℕ → Bool) (m m' : RecordReadings) (p i i' f f' : ℕ) (k k' : Bool) (w w' : World)
    (r : Recorder)
    → p ≢ 0
    → construct alive m p process i f k w ≡ returns (r, w')
    → alive' p ≡ true
    → construct alive' m' p process i' f' k' (destroy r w')
      ≡ throws (fail resource_busy "The PID is already being tracked by perf record")
unfolding construct destroy
construct-after_destroy alive alive' m m' p i i' f f' k k' w w' r np e up =
    let w'' : World = dispose_temporary_folder r w' in
    let tracked : is_active p w''.active ≡ true =
      rw (dispose-active r w') (construct-tracks alive m p i f k w w' r np e) in
    let r'' : Recorder = (check_alive alive' (fresh_recorder m' p i' f' k')).0 in
    let (named, checked) = fresh-pid m' p i' f' k' alive' in
    let tracked' : is_active r''.pid w''.active ≡ true = rw named tracked in
    ground (arith, construct_alive-busy r'' w'' tracked')

-- A pid change is undefined exactly when the new process is alive and the old pid, other than 0, is
-- not on the list.
pub set_pid-faults_iff :
    (alive : ℕ → Bool) (p : ℕ) (r : Recorder) (w : World)
    → (set_pid alive p r w ≡ faults)
      ↔ ((alive p ≡ true) × (r.pid ≢ 0) × (is_active r.pid w.active ≡ false))
unfolding set_pid set_pid_field check_alive release
set_pid-faults_iff alive p r w = ground arith

-- A move of a tracking observer to a live pid that another observer tracks is refused as busy, but
-- the observer keeps the other's pid as its own and is off the list under its old one.
pub set_pid-busy :
    (alive : ℕ → Bool) (p : ℕ) (r : Recorder) (w : World)
    → IsUnique w.active
    → alive p ≡ true
    → r.pid ≢ 0
    → p ≢ r.pid
    → is_active r.pid w.active ≡ true
    → is_active p w.active ≡ true
    → (r' : Recorder) × (w' : World) × (set_pid alive p r w
        ≡ returns (r', w', fail resource_busy "The PID is already being tracked by perf record"))
      × (r'.pid ≡ p)
      × (is_active r.pid w'.active ≡ false)
      × (is_active p w'.active ≡ true)
unfolding set_pid release claim
set_pid-busy alive p r w u up nz np own other =
    let r' : Recorder = renamed p r alive in
    let w' : World = dispose_temporary_folder r' (record w { active = forget r.pid w.active }) in
    let left : w'.active ≡ forget r.pid w.active = dispose-active r' _ in
    let (named, checked) = renamed-pid p r alive in
    let gone : is_active r.pid w'.active ≡ false =
      rw left (ground (arith, is_active-forget r.pid r.pid w.active u)) in
    let held : is_active p w'.active ≡ true =
      rw left (ground (arith, is_active-forget p r.pid w.active u)) in
    let held' : is_active r'.pid w'.active ≡ true = rw named held in
    (record r' { valid = false }, w', ground arith, named, gone, held)

-- The result of a trigger is a status with the code OK.
abbrev pub succeeds : Outcome (Recorder × Status) → Bool
succeeds (returns (r, st)) = is_ok st.code
succeeds _ = false

-- A trigger succeeds exactly when the observer has a pid, the process is alive, the perf command
-- opens and the file is copied.
pub trigger-succeeds_iff :
    (alive : ℕ → Bool) (opened copied : Bool) (time : ℕ) (r : Recorder)
    → (succeeds (trigger alive opened copied time r) ≡ true)
      ↔ ((r.pid ≢ 0) × (alive r.pid ≡ true) × (opened ≡ true) × (copied ≡ true))
unfolding trigger
trigger-succeeds_iff alive opened copied time r = ground arith

-- It then returns with valid data: the path of the copy, the time as the timestamp, and the time
-- since the last timestamp as the difference, if the clock did not run back.
pub trigger-readings :
    (alive : ℕ → Bool) (time : ℕ) (r : Recorder)
    → r.pid ≢ 0
    → alive r.pid ≡ true
    → r.readings.timestamp ≤ time
    → time < u64
    → (r' : Recorder) × (trigger alive true true time r ≡ returns (r', status_ok))
      × (r'.valid ≡ true)
      × (r'.readings.perf_data_path ≡ r.tmp_folder ++ codes "/perf.data.ulock")
      × (r'.readings.timestamp ≡ time)
      × (r'.readings.difference + r.readings.timestamp ≡ time)
unfolding trigger
trigger-readings alive time r np up le lt = (
  record r {
    valid = true;
    status = fail ok "OK";
    path_to_perf_data = r.tmp_folder ++ codes "/perf.data.ulock";
    readings = record {
      perf_data_path = r.tmp_folder ++ codes "/perf.data.ulock";
      type = type_bits cpu;
      timestamp = time;
      difference = sub64 time r.readings.timestamp;
    };
  },
  ground arith,
  refl,
  refl,
  refl,
  ground (arith, sub64-of_le time r.readings.timestamp),
)
