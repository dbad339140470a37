-- ===== src/Launcher/Remote/Paced/Completes.antt =====
-- The polls of the launcher end with the samples of the worker.
use efimon.Prelude.{
  ℕ, zero, suc, ◌^◌, ◌<◌, ◌≡◌, refl, ap, ◌∙◌, inl, inr, true, false, some, List, [], ◌∷◌, arith,
  ◌==◌, Bool-cases, replicate,
}
use efimon.Status.{code_number}
use efimon.Outcome.{returns}
use efimon.Daemon.Thread.{
  Act, Thread, round, looping, run, step, state, on_round, count_sample, decrement,
}
use efimon.Daemon.Analyser.{
  Analyser, Worker, find_worker, advance_worker, advance_workers, advance_thread, check_worker,
  worker_state, state_code,
}
use efimon.Daemon.Server.{Json, Config, Server}
use efimon.Launcher.Json.{Writer, IsJson}
use efimon.Launcher.Monitor.{AppData, check_monitor, Watch, watch, watching, completed}
use efimon.Launcher.Remote.Polls.{check_monitor-check_worker}
use efimon.Launcher.Remote.Paced.{elapsed, paced_ask}

-- A worker's thread that has begun, with its samples left.
abbrev pub sampling : ℕ → Thread
sampling n = record { phase = looping; flag = true; samples = n; limited = true }

abbrev pub sampled : Thread
sampled = record { phase = looping; flag = false; samples = 0; limited = true }

-- After a round, with that many samples left.
abbrev after : ℕ → Thread
after zero = sampled
after (suc n) = sampling (suc n)

decrement-suc : (n : ℕ) → suc n < 2 ^ 32 → decrement (suc n) ≡ n
unfolding decrement
decrement-suc n h = omega arith

run-round : (n : ℕ) → suc n < 2 ^ 32 → run (round ∷ []) (sampling (suc n)) ≡ some (after n)
unfolding run step on_round count_sample
run-round zero h = rw (decrement-suc 0 h) refl
run-round (suc n) h = rw (decrement-suc (suc n) h) (ground arith)

find-advance :
    (pid : ℕ) (ws : List (ℕ × Worker)) (w : Worker) (t t' : Thread)
    → find_worker pid ws ≡ some w
    → w.thread ≡ some t
    → run (round ∷ []) t ≡ some t'
    → find_worker pid (advance_workers (round ∷ []) pid ws) ≡ some (record w { thread = some t' })
unfolding find_worker advance_workers advance_thread
find-advance pid [] w t t' f e r = cc
find-advance pid (x ∷ ws) w t t' f e r = elim (Bool-cases (x.0 == pid)) [
  | inl b ↦
      let same : x.1 ≡ w = ground arith in
      let mine : x.1.thread ≡ some t = ap (λ y. y.thread) same ∙ e in rw (b, mine, r, same, b) refl
  | inr b ↦ let ih = find-advance pid ws w t t' (ground arith) e r in rw (b, b) ih
]

find-elapsed :
    (pid n : ℕ) (s : Server) (v : Worker)
    → suc n < 2 ^ 32
    → find_worker pid s.analyser.workers ≡ some v
    → v.thread ≡ some (sampling (suc n))
    → find_worker pid (elapsed pid s).analyser.workers ≡ some (record v { thread = some (after n) })
unfolding advance_worker
find-elapsed pid n s v h f e =
    find-advance pid s.analyser.workers v (sampling (suc n)) _ f e (run-round n h)

code-found :
    (pid : ℕ) (a : Analyser) (v : Worker) (t : Thread)
    → find_worker pid a.workers ≡ some (record v { thread = some t })
    → (check_worker pid a).code ≡ state t
unfolding check_worker worker_state state_code
code-found pid a v t f = rw (f, check_worker) refl

module _ {J : Type 0} (api : Json J) (w : Writer J) (law : IsJson api w) (c : Config) where
  check-paced :
      (acts : List Act) (app : AppData) (s : Server) (v : Worker) (t : Thread)
      → app.pid < 2 ^ 32
      → find_worker app.pid (elapsed app.pid s).analyser.workers
        ≡ some (record v { thread = some t })
      → check_monitor api w (paced_ask api w c acts app.pid) app (some s)
        ≡ returns
            (some (some (elapsed app.pid s), record { code = code_number (state t); msg = "" }))
  unfolding check_monitor paced_ask
  check-paced acts app s v t h f =
      check_monitor-check_worker api w law c acts app (elapsed app.pid s) h
      ∙ rw (code-found app.pid (elapsed app.pid s).analyser v t f) refl

  -- What the loop comes to in some rounds without a flag.
  abbrev pub Comes : List Act → AppData → ℕ → Server → Watch → Type 0
  Comes acts app rounds s o =
      (s' : Server) × (watch api w (paced_ask api w c acts app.pid)
          (replicate rounds (false, false)) app (some s)
        ≡ returns (some (some s', o)))

  -- If the worker's thread ends one round before each poll and has some samples left, and no flag is
  -- set, then the loop of the launcher still polls after one poll fewer than there are samples, and
  -- is completed by the poll after the last sample.
  pub watch-completes :
      (acts : List Act) (app : AppData) (n : ℕ) (s : Server) (v : Worker)
      → app.pid < 2 ^ 32
      → suc n < 2 ^ 32
      → find_worker app.pid s.analyser.workers ≡ some v
      → v.thread ≡ some (sampling (suc n))
      → Comes acts app n s watching × Comes acts app (suc n) s completed
  unfolding watch state code_number
  watch-completes acts app zero s v h k f e =
      let one = check-paced acts app s v sampled h (find-elapsed app.pid 0 s v k f e) in
      ((s, refl), (elapsed app.pid s, rw one refl))
  watch-completes acts app (suc n) s v h k f e =
      let found = find-elapsed app.pid (suc n) s v k f e in
      let one = check-paced acts app s v (sampling (suc n)) h found in
      let ((s1, p), (s2, q)) =
        watch-completes acts app n (elapsed app.pid s) _ h (omega arith) found refl in
      ((s1, rw one p), (s2, rw one q))
