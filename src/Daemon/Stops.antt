-- ===== src/Daemon/Stops.antt =====
-- When a worker's thread ends, and when `State` tells the truth about it.
use efimon.Prelude.{
  ℕ, zero, suc, ◌-◌, ◌^◌, ◌≤◌, ◌<◌, ◌≡◌, refl, ◌∙◌, ◌≢◌, ◌⊎◌, inl, inr, Bool, true, false, ◌&&◌,
  none, some, List, [], ◌∷◌, arith, Option-cases,
}
use efimon.Status.{running, stopped}
use efimon.Daemon.Thread.{
  looping, finished, Thread, Act, begin, cannot_log, round, break_out, leave, clear, launch,
  decrement, count_sample, step, run, state,
}

-- No act of the other side in the list, and no error.
abbrev pub is_smooth : Act → Bool
is_smooth begin = true
is_smooth cannot_log = false
is_smooth round = true
is_smooth break_out = false
is_smooth leave = true
is_smooth clear = false

abbrev pub all_smooth : List Act → Bool
all_smooth [] = true
all_smooth (a ∷ acts) = is_smooth a && all_smooth acts

-- The thread is in its loop, wants to stay there, and counts no samples.
abbrev IsEndless : Thread → Type 0
IsEndless t = (t.phase ≡ looping) × (t.flag ≡ true) × (t.limited ≡ false)

step-IsEndless :
    (a : Act) (t t' : Thread) → is_smooth a ≡ true → IsEndless t → step a t ≡ some t' → IsEndless t'
unfolding step count_sample
step-IsEndless begin t t' s e h = ground arith
step-IsEndless cannot_log t t' s e h = cc
step-IsEndless round t t' s e h = ground arith
step-IsEndless break_out t t' s e h = cc
step-IsEndless leave t t' s e h = ground arith
step-IsEndless clear t t' s e h = cc

run-IsEndless :
    (acts : List Act) (t t' : Thread)
    → all_smooth acts ≡ true
    → IsEndless t
    → run acts t ≡ some t'
    → IsEndless t'
unfolding run
run-IsEndless [] t t' s e h = ground arith
run-IsEndless (a ∷ acts) t t' s e h = elim (Option-cases (step a t)) [
  | inl none_left ↦ ground arith
  | inr (u, su) ↦
      run-IsEndless acts u t' (ground arith) (step-IsEndless a t u (ground arith) e su)
        (ground arith)
]

-- If `Stop` clears the flag before the new thread begins, the clearing is lost: with no limit of
-- samples and no error, the thread has not finished after any acts, and `State` says running.
pub stop-lost :
    (acts : List Act) (t : Thread)
    → all_smooth acts ≡ true
    → run (clear ∷ begin ∷ acts) (launch 0) ≡ some t
    → (t.phase ≢ finished) × (state t ≡ running)
unfolding run step launch state
stop-lost acts t s h =
    let looper : Thread = record (launch 0) { phase = looping; flag = true } in
    let e = run-IsEndless acts looper t s (refl, refl, refl) h in ground arith

still :
    (a : Act) (t : Thread)
    → t.phase ≡ looping
    → t.flag ≡ false
    → (step a t ≡ none) ⊎ (a ≡ leave) ⊎ (a ≡ clear)
unfolding step
still begin t p f = inl (ground arith)
still cannot_log t p f = inl (ground arith)
still round t p f = inl (ground arith)
still break_out t p f = inl (ground arith)
still leave t p f = inr (inl refl)
still clear t p f = inr (inr refl)

-- Once the thread is in its loop, a cleared flag stays cleared, and the thread can only leave; so
-- the join in `Stop` waits for no more than the test of the loop.
pub stop-effective :
    (a : Act) (t : Thread)
    → t.phase ≡ looping
    → t.flag ≡ false
    → ((step a t ≡ none) ⊎ (a ≡ leave) ⊎ (a ≡ clear))
      × (step leave t ≡ some (record t { phase = finished }))
      × (step clear t ≡ some t)
unfolding step
stop-effective a t p f = (still a t p f, ground arith, ground arith)

-- A thread that ended by an error leaves the flag set: `State` goes on to say that it is running.
pub break-state :
    (t t' : Thread) → step break_out t ≡ some t' → (t'.phase ≡ finished) × (state t' ≡ running)
unfolding step state
break-state t t' h = ground arith

abbrev pub rounds : ℕ → List Act
rounds zero = []
rounds (suc n) = round ∷ rounds n

-- A thread that counts down its samples.
abbrev IsCounting : ℕ → Thread → Type 0
IsCounting n t = (t.phase ≡ looping) × (t.flag ≡ true) × (t.limited ≡ true) × (t.samples ≡ suc n)

round-IsCounting :
    (n : ℕ) (t : Thread)
    → suc n < 2 ^ 32
    → IsCounting (suc n) t
    → (t' : Thread) × (step round t ≡ some t') × IsCounting n t'
unfolding step count_sample decrement
round-IsCounting n t lt c = (record t { samples = suc n }, ground arith, ground arith)

last-round :
    (t : Thread) → IsCounting 0 t → step round t ≡ some (record t { samples = 0; flag = false })
unfolding step count_sample decrement
last-round t c = ground arith

run-cons :
    (a : Act) (acts : List Act) (t t1 : Thread)
    → step a t ≡ some t1
    → run (a ∷ acts) t ≡ run acts t1
unfolding run
run-cons a acts t t1 e = rw (e, run) refl

run-rounds :
    (n k : ℕ) (t : Thread)
    → n < 2 ^ 32 - 1
    → k ≤ n
    → IsCounting n t
    → (t' : Thread) × (run (rounds k) t ≡ some t') × (state t' ≡ running)
unfolding run state
run-rounds n zero t lt le c = (t, refl, ground arith)
run-rounds zero (suc k) t lt le c = absurd (omega arith)
run-rounds (suc n) (suc k) t lt le c =
    let (t1, e, c1) = round-IsCounting n t (omega arith) c in
    let (t', e', f) = run-rounds n k t1 (omega arith) (omega arith) c1 in
    (t', run-cons round (rounds k) t t1 e ∙ e', f)

exhaust :
    (n : ℕ) (t : Thread)
    → n < 2 ^ 32 - 1
    → IsCounting n t
    → (t' : Thread) × (run (rounds (suc n)) t ≡ some t')
      × (state t' ≡ stopped)
      × (step leave t' ≡ some (record t' { phase = finished }))
unfolding run state
exhaust zero t lt c =
    let t' : Thread = record t { samples = 0; flag = false } in
    (t', run-cons round [] t t' (last-round t c), refl, (stop-effective leave t' (c.0) refl).1)
exhaust (suc n) t lt c =
    let (t1, e, c1) = round-IsCounting n t (omega arith) c in
    let (t', e', p, f) = exhaust n t1 (omega arith) c1 in
    (t', run-cons round (rounds (suc n)) t t1 e ∙ e', p, f)

abbrev counting : ℕ → Thread
counting n = record { phase = looping; flag = true; samples = suc n; limited = true }

begin-counting : (n : ℕ) → step begin (launch (suc n)) ≡ some (counting n)
unfolding step launch
begin-counting n = ground arith

-- A worker with a limit of samples takes exactly that many rounds, if none fails: after fewer it
-- still says that it is running, and after the last one it says that it is stopped and leaves.
pub rounds-stop :
    (n k : ℕ)
    → n < 2 ^ 32 - 1
    → k ≤ n
    → ((t : Thread) × (run (begin ∷ rounds k) (launch (suc n)) ≡ some t) × (state t ≡ running))
      × ((t : Thread) × (run (begin ∷ rounds (suc n)) (launch (suc n)) ≡ some t)
          × (state t ≡ stopped)
          × (step leave t ≡ some (record t { phase = finished })))
rounds-stop n k lt le =
    let c : IsCounting n (counting n) = (refl, refl, refl, refl) in
    let (t, e, s) = run-rounds n k (counting n) lt le c in
    let (t', e', s', l') = exhaust n (counting n) lt c in
    let start = begin-counting n in
    (
      (t, run-cons begin (rounds k) (launch (suc n)) (counting n) start ∙ e, s),
      (t', run-cons begin (rounds (suc n)) (launch (suc n)) (counting n) start ∙ e', s', l'),
    )
