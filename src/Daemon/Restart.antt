-- ===== src/Daemon/Restart.antt =====
-- How a start with perf goes, from the observer's constructor up.
use efimon.Prelude.{ℕ, ◌≡◌, ◌≢◌, ◌⊎◌, inl, inr, true, none, some, ◌∷◌, arith, Text}
use efimon.Status.{Status, ok}
use efimon.Observer.{process}
use efimon.Outcome.{returns, throws, escapes, faults}
use efimon.Perf.Record.{Recorder, World, construct}
use efimon.Daemon.Thread.{launch}
use efimon.Daemon.Analyser.{
  Notice, notice, Worker, Setting, new_worker, make_perf, make_thread, worker_start, Analyser,
  start_new, find_worker,
}

-- The worker that runs with an observer of perf.
abbrev pub perf_worker : Text → ℕ → ℕ → ℕ → Recorder → Worker
perf_worker name pid delay samples r = record {
  name = name;
  pid = pid;
  delay = delay;
  metered = true;
  recorder = some r;
  thread = some (launch samples);
}

pub make_perf-built :
    (s : Setting) (name : Text) (pid delay freq : ℕ) (world world' : World) (r : Recorder)
    → s.perf_built ≡ true
    → construct s.alive s.memory pid process delay freq true world ≡ returns (r, world')
    → make_perf s delay freq true (new_worker name pid) world ≡ returns (some r, world')
unfolding make_perf new_worker
make_perf-built s name pid delay freq world world' r b e = ground arith

pub make_perf-throws :
    (s : Setting) (name : Text) (pid delay freq : ℕ) (world : World) (e : Status)
    → s.perf_built ≡ true
    → construct s.alive s.memory pid process delay freq true world ≡ throws e
    → make_perf s delay freq true (new_worker name pid) world ≡ throws e
unfolding make_perf new_worker
make_perf-throws s name pid delay freq world e b h = ground arith

pub start_new-perf :
    (s : Setting) (name : Text) (pid delay samples freq : ℕ) (a : Analyser) (world : World)
    (r : Recorder)
    → pid ≢ 0
    → find_worker pid a.workers ≡ none
    → make_perf s delay freq true (new_worker name pid) (a.world) ≡ returns (some r, world)
    → start_new s name pid delay samples true freq a
      ≡ returns (
        record a {
          workers = (pid, perf_worker name pid delay samples r) ∷ a.workers;
          world = world;
        },
        notice ok "",
      )
unfolding start_new worker_start make_thread new_worker
start_new-perf s name pid delay samples freq a world r np f e = ground arith

pub start_new-throws :
    (s : Setting) (name : Text) (pid delay samples freq : ℕ) (a : Analyser) (e : Status)
    → pid ≢ 0
    → find_worker pid a.workers ≡ none
    → make_perf s delay freq true (new_worker name pid) (a.world) ≡ throws e
    → start_new s name pid delay samples true freq a ≡ throws e
unfolding start_new worker_start new_worker
start_new-throws s name pid delay samples freq a e np f h = ground arith

pub start_new-escapes :
    (s : Setting) (name : Text) (pid delay samples freq : ℕ) (a a' : Analyser) (n : Notice)
    → pid ≢ 0
    → find_worker pid a.workers ≡ none
    → s.perf_built ≡ true
    → let c = construct s.alive s.memory pid process delay freq true (a.world) in
      (c ≡ escapes) ⊎ (c ≡ faults)
      → start_new s name pid delay samples true freq a ≢ returns (a', n)
unfolding start_new worker_start make_perf new_worker
start_new-escapes s name pid delay samples freq a a' n np f b (inl c) = ground arith
start_new-escapes s name pid delay samples freq a a' n np f b (inr c) = ground arith
