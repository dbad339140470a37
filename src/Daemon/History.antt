-- ===== src/Daemon/History.antt =====
-- A process that is monitored with perf record again, after any history of the analyser.
use efimon.Prelude.{
  ℕ, ◌≡◌, refl, sym, ◌∙◌, ◌≢◌, inl, inr, Bool, true, Option, none, some, List, arith, Option-cases,
  Text,
}
use efimon.Status.{resource_busy, fail}
use efimon.Observer.{process}
use efimon.Outcome.{returns, throws, Outcome-cases}
use efimon.Perf.Record.{
  RecordReadings, Recorder, World, construct, destroy, is_active, check_alive, fresh_recorder,
}
use efimon.Perf.Record.Registry.{construct-active, is_active-append, dispose-active, fresh-pid}
use efimon.Perf.Record.Pids.{construct_alive-busy, construct-tracks}
use efimon.Daemon.Thread.{Act}
use efimon.Daemon.Analyser.{
  Notice, Worker, Setting, new_worker, make_perf, make_thread, worker_start, drop_recorder,
  dismantle, worker_stop, Analyser, find_worker, start_new, start_worker, stop_worker, start_system,
  stop_system, advance_worker, advance_system, enable_debug,
}
use efimon.Daemon.Workers.{start_worker-absent}
use efimon.Daemon.Restart.{
  make_perf-built, make_perf-throws, start_new-perf, start_new-throws, start_new-escapes,
}

-- Every call on the analyser, and the steps of the threads between them. Processes come and go, so
-- each call has its own view of the machine.
pub data Step (a a' : Analyser) : Type 0 where
  starts :
      (s : Setting) (name : Text) (pid delay samples : ℕ) (perf : Bool) (freq : ℕ) (n : Notice)
      → start_worker s name pid delay samples perf freq a ≡ returns (a', n)
      → Step a a'
  stops :
      (acts : List Act) (pid : ℕ) (n : Notice) → stop_worker acts pid a ≡ some (a', n) → Step a a'
  advances : (acts : List Act) (pid : ℕ) → a' ≡ advance_worker acts pid a → Step a a'
  starts_system : (delay : ℕ) → a' ≡ (start_system delay a).0 → Step a a'
  stops_system : (acts : List Act) (n : Notice) → stop_system acts a ≡ some (a', n) → Step a a'
  advances_system : (acts : List Act) → a' ≡ advance_system acts a → Step a a'
  debugs : a' ≡ enable_debug a → Step a a'

pub data History (a : Analyser) : Analyser → Type 0 where
  here : History a a
  next : {b c : Analyser} → History a b → Step b c → History a c

abbrev IsTracked : ℕ → World → Type 0
IsTracked p w = is_active p w.active ≡ true

construct-IsTracked :
    (alive : ℕ → Bool) (m : RecordReadings) (p q i f : ℕ) (k : Bool) (w w' : World) (r : Recorder)
    → construct alive m p process i f k w ≡ returns (r, w')
    → IsTracked q w
    → IsTracked q w'
construct-IsTracked alive m p q i f k w w' r e h =
    elim (construct-active alive m p i f k w w' r e) [
      | inl (_, same) ↦ rw same h
      | inr (_, more) ↦ rw (more, is_active-append q p w.active, h) refl
    ]

make_perf-IsTracked :
    (s : Setting) (delay freq q : ℕ) (perf : Bool) (w : Worker) (world world' : World)
    (ro : Option Recorder)
    → make_perf s delay freq perf w world ≡ returns (ro, world')
    → IsTracked q world
    → IsTracked q world'
unfolding make_perf
make_perf-IsTracked s delay freq q perf w world world' ro e h =
    elim (Outcome-cases (construct s.alive s.memory w.pid process delay freq true world)) [
      | inl (p, c) ↦
          let kept =
            construct-IsTracked s.alive s.memory w.pid q delay freq true world (p.1) (p.0) c h in
          ground arith
      | inr (inl (x, c)) ↦ ground arith
      | inr (inr (inl c)) ↦ ground arith
      | inr (inr (inr c)) ↦ ground arith
    ]

worker_start-IsTracked :
    (s : Setting) (delay samples freq q : ℕ) (perf : Bool) (w w' : Worker) (world world' : World)
    (n : Notice)
    → worker_start s delay samples perf freq w world ≡ returns (w', world', n)
    → IsTracked q world
    → IsTracked q world'
unfolding worker_start make_thread
worker_start-IsTracked s delay samples freq q perf w w' world world' n e h =
    elim (Outcome-cases (make_perf s delay freq perf w world)) [
      | inl (p, c) ↦
          let kept = make_perf-IsTracked s delay freq q perf w world (p.1) (p.0) c h in ground arith
      | inr (inl (x, c)) ↦ ground arith
      | inr (inr (inl c)) ↦ ground arith
      | inr (inr (inr c)) ↦ ground arith
    ]

start_worker-IsTracked :
    (s : Setting) (name : Text) (pid delay samples : ℕ) (perf : Bool) (freq q : ℕ) (a a' : Analyser)
    (n : Notice)
    → start_worker s name pid delay samples perf freq a ≡ returns (a', n)
    → IsTracked q a.world
    → IsTracked q a'.world
unfolding start_worker start_new
start_worker-IsTracked s name pid delay samples perf freq q a a' n e h =
    elim (Outcome-cases (worker_start s delay samples perf freq (new_worker name pid) a.world)) [
      | inl (t, c) ↦
          let kept =
            worker_start-IsTracked s delay samples freq q perf (new_worker name pid) (t.0) a.world
              (t.1) (t.2) c h in
          ground arith
      | inr (inl (x, c)) ↦ ground arith
      | inr (inr (inl c)) ↦ ground arith
      | inr (inr (inr c)) ↦ ground arith
    ]

drop_recorder-active : (r : Option Recorder) (w : World) → (drop_recorder r w).active ≡ w.active
unfolding drop_recorder destroy
drop_recorder-active none w = refl
drop_recorder-active (some r) w = dispose-active r w

stop_worker-active :
    (acts : List Act) (pid : ℕ) (a a' : Analyser) (n : Notice)
    → stop_worker acts pid a ≡ some (a', n)
    → a'.world.active ≡ a.world.active
unfolding stop_worker worker_stop dismantle
stop_worker-active acts pid a a' n e = elim (Option-cases (find_worker pid a.workers)) [
  | inl h ↦ ground arith
  | inr (w, h) ↦ let kept = drop_recorder-active w.recorder a.world in ground arith
]

stop_system-world :
    (acts : List Act) (a a' : Analyser) (n : Notice)
    → stop_system acts a ≡ some (a', n)
    → a'.world ≡ a.world
unfolding stop_system
stop_system-world acts a a' n e = ground arith

start_system-world : (delay : ℕ) (a : Analyser) → (start_system delay a).0.world ≡ a.world
unfolding start_system
start_system-world delay a = ground arith

advance_system-world : (acts : List Act) (a : Analyser) → (advance_system acts a).world ≡ a.world
unfolding advance_system
advance_system-world acts a = ground arith

advance_worker-world :
    (acts : List Act) (pid : ℕ) (a : Analyser) → (advance_worker acts pid a).world ≡ a.world
unfolding advance_worker
advance_worker-world acts pid a = refl

enable_debug-world : (a : Analyser) → (enable_debug a).world ≡ a.world
unfolding enable_debug
enable_debug-world a = refl

Step-IsTracked : (q : ℕ) (a b : Analyser) → Step a b → IsTracked q a.world → IsTracked q b.world
Step-IsTracked q a b (starts s name pid delay samples perf freq n e) h =
    start_worker-IsTracked s name pid delay samples perf freq q a b n e h
Step-IsTracked q a b (stops acts pid n e) h = rw (stop_worker-active acts pid a b n e) h
Step-IsTracked q a b (advances acts pid e) h = rw (e, advance_worker-world acts pid a) h
Step-IsTracked q a b (starts_system delay e) h = rw (e, start_system-world delay a) h
Step-IsTracked q a b (stops_system acts n e) h = rw (stop_system-world acts a b n e) h
Step-IsTracked q a b (advances_system acts e) h = rw (e, advance_system-world acts a) h
Step-IsTracked q a b (debugs e) h = rw (e, enable_debug-world a) h

History-IsTracked :
    (q : ℕ) {a b : Analyser} → History a b → IsTracked q a.world → IsTracked q b.world
History-IsTracked q here h = h
History-IsTracked q (next {b = m} {c = v} r st) h =
    Step-IsTracked q m v st (History-IsTracked q r h)

construct-busy :
    (alive : ℕ → Bool) (m : RecordReadings) (p i f : ℕ) (k : Bool) (w : World)
    → p ≢ 0
    → alive p ≡ true
    → IsTracked p w
    → construct alive m p process i f k w
      ≡ throws (fail resource_busy "The PID is already being tracked by perf record")
unfolding construct
construct-busy alive m p i f k w np up h =
    let r : Recorder = (check_alive alive (fresh_recorder m p i f k)).0 in
    let (named, checked) = fresh-pid m p i f k alive in
    let tracked : is_active r.pid w.active ≡ true = rw named h in
    ground (arith, construct_alive-busy r w tracked)

-- A start with perf that succeeds leaves the process tracked.
start_worker-tracks :
    (s : Setting) (name : Text) (pid delay samples freq : ℕ) (a a' : Analyser) (n : Notice)
    → s.perf_built ≡ true
    → pid ≢ 0
    → find_worker pid a.workers ≡ none
    → start_worker s name pid delay samples true freq a ≡ returns (a', n)
    → IsTracked pid a'.world
start_worker-tracks s name pid delay samples freq a a' n b np f e =
    let h = sym (start_worker-absent s name pid delay samples true freq a f) ∙ e in
    elim (Outcome-cases (construct s.alive s.memory pid process delay freq true a.world)) [
      | inl (p, c) ↦
          let m = make_perf-built s name pid delay freq a.world (p.1) (p.0) b c in
          let h1 = start_new-perf s name pid delay samples freq a (p.1) (p.0) np f m in
          let tracked =
            construct-tracks s.alive s.memory pid delay freq true a.world (p.1) (p.0) np c in
          let same : a'.world ≡ p.1 = ground (arith, sym h1 ∙ h) in rw same tracked
      | inr (inl (x, c)) ↦ absurd (
          ground (
            arith,
            h,
            start_new-throws s name pid delay samples freq a x np f
                (make_perf-throws s name pid delay freq a.world x b c),
          ))
      | inr (inr c) ↦ absurd (start_new-escapes s name pid delay samples freq a a' n np f b c h)
    ]

-- After a start with perf of a process that had no worker, and then any calls on the analyser and
-- any steps of the threads, a start with perf of the process while it has no worker and is alive
-- throws a `Status`: the process still counts as tracked.
pub restart-throws :
    (s s' : Setting) (name name' : Text) (pid delay delay' samples samples' freq freq' : ℕ)
    (a a1 a2 : Analyser) (n : Notice)
    → s.perf_built ≡ true
    → pid ≢ 0
    → find_worker pid a.workers ≡ none
    → start_worker s name pid delay samples true freq a ≡ returns (a1, n)
    → History a1 a2
    → find_worker pid a2.workers ≡ none
    → s'.perf_built ≡ true
    → s'.alive pid ≡ true
    → start_worker s' name' pid delay' samples' true freq' a2
      ≡ throws (fail resource_busy "The PID is already being tracked by perf record")
restart-throws s s' name name' pid delay delay' samples samples' freq freq' a a1 a2 n b np f e r f'
      b' up =
    let busy = fail resource_busy "The PID is already being tracked by perf record" in
    let tracked : IsTracked pid a2.world =
      History-IsTracked pid r (start_worker-tracks s name pid delay samples freq a a1 n b np f e) in
    let refused = construct-busy s'.alive s'.memory pid delay' freq' true a2.world np up tracked in
    start_worker-absent s' name' pid delay' samples' true freq' a2 f'
    ∙ start_new-throws s' name' pid delay' samples' freq' a2 busy np f'
        (make_perf-throws s' name' pid delay' freq' a2.world busy b' refused)
