-- ===== src/Daemon/Workers.antt =====
-- The map of workers: what a start and a stop do to the worker of a process and to the others.
use efimon.Prelude.{
  ℕ, ◌≡◌, refl, sym, ap, subst, ◌∙◌, ◌≢◌, ◌⊎◌, inl, inr, Bool, false, none, some, List, [], ◌∷◌,
  arith, ◌==◌, if◌then◌else◌, ==_refl, Bool-cases, Option-cases, Text,
}
use efimon.Status.{resource_busy, not_found}
use efimon.Outcome.{returns, Outcome-cases}
use efimon.Daemon.Thread.{Act}
use efimon.Daemon.Analyser.{
  Notice, notice_of, Worker, Setting, new_worker, worker_start, Analyser, find_worker, erase_worker,
  start_new, start_worker, check_worker, stop_worker,
}

abbrev pub busy : ℕ → Notice
busy pid = notice_of resource_busy "The monitor has already started for the given PID: " pid

start_worker-present :
    (s : Setting) (name : Text) (pid delay samples : ℕ) (perf : Bool) (freq : ℕ) (a : Analyser)
    (w : Worker)
    → find_worker pid (a.workers) ≡ some w
    → start_worker s name pid delay samples perf freq a ≡ returns (a, busy pid)
unfolding start_worker
start_worker-present s name pid delay samples perf freq a w e = rw (e, start_worker) refl

pub start_worker-absent :
    (s : Setting) (name : Text) (pid delay samples : ℕ) (perf : Bool) (freq : ℕ) (a : Analyser)
    → find_worker pid (a.workers) ≡ none
    → start_worker s name pid delay samples perf freq a
      ≡ start_new s name pid delay samples perf freq a
unfolding start_worker
start_worker-absent s name pid delay samples perf freq a e = rw (e, start_worker) refl

-- A new worker is in front of the others, which stay.
start_new-workers :
    (s : Setting) (name : Text) (pid delay samples : ℕ) (perf : Bool) (freq : ℕ) (a a' : Analyser)
    (n : Notice)
    → find_worker pid a.workers ≡ none
    → start_new s name pid delay samples perf freq a ≡ returns (a', n)
    → (w : Worker) × (a'.workers ≡ (pid, w) ∷ a.workers)
unfolding start_new
start_new-workers s name pid delay samples perf freq a a' n f e =
    elim (Outcome-cases (worker_start s delay samples perf freq (new_worker name pid) (a.world))) [
      | inl (t, h) ↦ (t.0, ground arith)
      | inr (inl (e', h)) ↦ absurd (ground arith)
      | inr (inr (inl h)) ↦ absurd (ground arith)
      | inr (inr (inr h)) ↦ absurd (ground arith)
    ]

pub find_worker-same :
    (pid : ℕ) (w : Worker) (ws : List (ℕ × Worker)) → find_worker pid ((pid, w) ∷ ws) ≡ some w
unfolding find_worker
find_worker-same pid w ws = rw (==_refl pid) refl

find_worker-other :
    (q pid : ℕ) (w : Worker) (ws : List (ℕ × Worker))
    → q ≢ pid
    → find_worker q ((pid, w) ∷ ws) ≡ find_worker q ws
unfolding find_worker
find_worker-other q pid w ws ne = ground arith

-- A start that returns, whatever its status, leaves a worker for the process.
pub start_worker-finds :
    (s : Setting) (name : Text) (pid delay samples : ℕ) (perf : Bool) (freq : ℕ) (a a' : Analyser)
    (n : Notice)
    → start_worker s name pid delay samples perf freq a ≡ returns (a', n)
    → (w : Worker) × (find_worker pid (a'.workers) ≡ some w)
start_worker-finds s name pid delay samples perf freq a a' n e =
    elim (Option-cases (find_worker pid (a.workers))) [
      | inl h ↦
          let e' = sym (start_worker-absent s name pid delay samples perf freq a h) ∙ e in
          let (w, h') = start_new-workers s name pid delay samples perf freq a a' n h e' in
          (w, ap (find_worker pid) h' ∙ find_worker-same pid w (a.workers))
      | inr (w, h) ↦
          let e' = sym (start_worker-present s name pid delay samples perf freq a w h) ∙ e in
          (w, ground arith)
    ]

-- Once a start for a process has returned, with any status, an error too, a second start for the
-- process is refused as busy and changes nothing.
pub start_worker-again :
    (s s' : Setting) (name name' : Text) (pid delay delay' samples samples' : ℕ) (perf perf' : Bool)
    (freq freq' : ℕ) (a a' : Analyser) (n : Notice)
    → start_worker s name pid delay samples perf freq a ≡ returns (a', n)
    → start_worker s' name' pid delay' samples' perf' freq' a' ≡ returns (a', busy pid)
start_worker-again s s' name name' pid delay delay' samples samples' perf perf' freq freq' a a' n
      e =
    let (w, h) = start_worker-finds s name pid delay samples perf freq a a' n e in
    start_worker-present s' name' pid delay' samples' perf' freq' a' w h

-- No process has two workers.
abbrev pub IsKeyed : List (ℕ × Worker) → Type 0
IsKeyed [] = Unit
IsKeyed (e ∷ ws) = (find_worker (e.0) ws ≡ none) × IsKeyed ws

find_worker-erase :
    (pid : ℕ) (ws : List (ℕ × Worker)) → IsKeyed ws → find_worker pid (erase_worker pid ws) ≡ none
unfolding find_worker erase_worker
find_worker-erase pid [] k = refl
find_worker-erase pid (e ∷ ws) k = let ih = find_worker-erase pid ws (k.1) in ground arith

find_worker-erase_ne :
    (pid q : ℕ) (ws : List (ℕ × Worker))
    → q ≢ pid
    → find_worker q (erase_worker pid ws) ≡ find_worker q ws
unfolding find_worker erase_worker
find_worker-erase_ne pid q [] ne = refl
find_worker-erase_ne pid q (e ∷ ws) ne = let ih = find_worker-erase_ne pid q ws ne in ground arith

==_false : (p q : ℕ) → (p == q) ≡ false → p ≢ q
==_false p q h = let r = ==_refl q in λ e. absurd (ground arith)

erase-IsKeyed : (pid : ℕ) (ws : List (ℕ × Worker)) → IsKeyed ws → IsKeyed (erase_worker pid ws)
unfolding erase_worker
erase-IsKeyed pid [] k = k
erase-IsKeyed pid (e ∷ ws) k =
    let ih = erase-IsKeyed pid ws (k.1) in
    elim (Bool-cases (e.0 == pid)) [
      | inl h ↦ subst (λ b. IsKeyed (if b then ws else e ∷ erase_worker pid ws)) (sym h) (k.1)
      | inr h ↦
          subst (λ b. IsKeyed (if b then ws else e ∷ erase_worker pid ws)) (sym h)
            (find_worker-erase_ne pid (e.0) ws (==_false (e.0) pid h) ∙ k.0, ih)
    ]

stop_worker-cases :
    (acts : List Act) (pid : ℕ) (a a' : Analyser) (n : Notice)
    → stop_worker acts pid a ≡ some (a', n)
    → ((find_worker pid (a.workers) ≡ none) × (a' ≡ a))
      ⊎ ((w : Worker) × (find_worker pid (a.workers) ≡ some w)
          × (a'.workers ≡ erase_worker pid (a.workers)))
unfolding stop_worker
stop_worker-cases acts pid a a' n e = elim (Option-cases (find_worker pid (a.workers))) [
  | inl h ↦ inl (h, ground arith)
  | inr (w, h) ↦ inr (w, h, ground arith)
]

check_worker-of :
    (q : ℕ) (a a' : Analyser)
    → find_worker q (a'.workers) ≡ find_worker q (a.workers)
    → check_worker q a' ≡ check_worker q a
unfolding check_worker
check_worker-of q a a' e = rw (e, check_worker) refl

check_worker-none :
    (q : ℕ) (a : Analyser) → find_worker q (a.workers) ≡ none → (check_worker q a).code ≡ not_found
unfolding check_worker
check_worker-none q a e = rw (e, check_worker) refl

-- After a stop that returns, a poll of the process finds nothing, and a poll of any other process
-- tells what it told before; the map keeps at most one worker for each process.
pub stop_worker-check :
    (acts : List Act) (pid : ℕ) (a a' : Analyser) (n : Notice)
    → IsKeyed (a.workers)
    → stop_worker acts pid a ≡ some (a', n)
    → ((check_worker pid a').code ≡ not_found)
      × ((q : ℕ) → q ≢ pid → check_worker q a' ≡ check_worker q a)
      × IsKeyed (a'.workers)
stop_worker-check acts pid a a' n k e = elim (stop_worker-cases acts pid a a' n e) [
  | inl (h, same) ↦ (
    check_worker-none pid a' (ap (λ x. find_worker pid (x.workers)) same ∙ h),
    λ q ne. ap (check_worker q) same,
    subst (λ x. IsKeyed (x.workers)) (sym same) k,
  )
  | inr (w, h, h') ↦ (
    check_worker-none pid a' (ap (find_worker pid) h' ∙ find_worker-erase pid (a.workers) k),
    λ q ne.
        check_worker-of q a a' (ap (find_worker q) h' ∙ find_worker-erase_ne pid q (a.workers) ne),
    subst IsKeyed (sym h') (erase-IsKeyed pid (a.workers) k),
  )
]

-- A start that returns changes no poll of another process, and keeps at most one worker for each.
pub start_worker-check :
    (s : Setting) (name : Text) (pid delay samples : ℕ) (perf : Bool) (freq : ℕ) (a a' : Analyser)
    (n : Notice)
    → IsKeyed (a.workers)
    → start_worker s name pid delay samples perf freq a ≡ returns (a', n)
    → ((q : ℕ) → q ≢ pid → check_worker q a' ≡ check_worker q a) × IsKeyed (a'.workers)
start_worker-check s name pid delay samples perf freq a a' n k e =
    elim (Option-cases (find_worker pid (a.workers))) [
      | inl h ↦
          let e' = sym (start_worker-absent s name pid delay samples perf freq a h) ∙ e in
          let (w, h') = start_new-workers s name pid delay samples perf freq a a' n h e' in
          (
            λ q ne.
                check_worker-of q a a'
                  (ap (find_worker q) h' ∙ find_worker-other q pid w (a.workers) ne),
            subst IsKeyed (sym h') (h, k),
          )
      | inr (w, h) ↦
          let e' = sym (start_worker-present s name pid delay samples perf freq a w h) ∙ e in
          let same : a' ≡ a = ground arith in
          (λ q ne. ap (check_worker q) same, subst (λ x. IsKeyed (x.workers)) (sym same) k)
    ]
