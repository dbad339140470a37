-- ===== src/Daemon/Thread.antt =====
-- The thread of a worker, `EfimonWorker::ProcStatsWorker`, and the flag `running_` that it shares
-- with the thread that calls `Start`, `Stop` and `State` (src/tools/efimon-daemon/efimon-worker.cpp).
use efimon.Prelude.{
  ℕ, ◌+◌, ◌-◌, ◌%◌, ◌^◌, ◌≡◌, Bool, true, false, not, Option, none, some, List, [], ◌∷◌, ◌==◌,
  if◌then◌else◌,
}
use efimon.Status.{Code, running, stopped}

-- Created and not scheduled yet; before the test of the loop; out of the loop; ended by an exception,
-- with the whole program.
pub data Phase : Type 0 where
  launched looping finished terminated : Phase

-- `limited` is the local `enabled_samples`.
pub record Thread : Type 0 where
  pub phase : Phase
  pub flag : Bool
  pub samples : ℕ
  pub limited : Bool

-- What happens next. The thread: it begins, and opens its log; it begins, and the constructor of its
-- log throws, which nothing catches; a round goes well; a round breaks out of the loop on an
-- error of an observer or of the log; the test of the loop fails. The other side: it clears the flag.
pub data Act : Type 0 where
  begin cannot_log round break_out leave clear : Act

-- `Start` makes the thread; the flag is as the worker's constructor left it.
unfoldable pub launch : ℕ → Thread
launch samples = record { phase = launched; flag = false; samples = samples; limited = false }

-- `--(this->samples_)` of an unsigned 32-bit number.
unfoldable pub decrement : ℕ → ℕ
decrement n = (n + 2 ^ 32 - 1) % 2 ^ 32

-- The end of a round: the samples are counted, and the last one clears the flag.
unfoldable pub count_sample : Thread → Thread
count_sample t =
    let n = decrement t.samples in
    if t.limited
    then (if n == 0 then record t { samples = n; flag = false } else record t { samples = n })
    else t

-- `none` where the act cannot happen.
unfoldable pub on_begin : Thread → Phase → Option Thread
on_begin t launched =
    some (record t { phase = looping; flag = true; limited = not (t.samples == 0) })
on_begin t looping = none
on_begin t finished = none
on_begin t terminated = none

unfoldable pub on_cannot_log : Thread → Phase → Option Thread
on_cannot_log t launched = some (record t { phase = terminated; flag = true })
on_cannot_log t looping = none
on_cannot_log t finished = none
on_cannot_log t terminated = none

unfoldable pub on_round : Thread → Phase → Option Thread
on_round t launched = none
on_round t looping = if t.flag then some (count_sample t) else none
on_round t finished = none
on_round t terminated = none

unfoldable pub on_break : Thread → Phase → Option Thread
on_break t launched = none
on_break t looping = if t.flag then some (record t { phase = finished }) else none
on_break t finished = none
on_break t terminated = none

unfoldable pub on_leave : Thread → Phase → Option Thread
on_leave t launched = none
on_leave t looping = if t.flag then none else some (record t { phase = finished })
on_leave t finished = none
on_leave t terminated = none

unfoldable pub on_clear : Thread → Phase → Option Thread
on_clear t terminated = none
on_clear t _ = some (record t { flag = false })

unfoldable pub step : Act → Thread → Option Thread
unfolding on_begin on_cannot_log on_round on_break on_leave on_clear
step begin t = on_begin t t.phase
step cannot_log t = on_cannot_log t t.phase
step round t = on_round t t.phase
step break_out t = on_break t t.phase
step leave t = on_leave t t.phase
step clear t = on_clear t t.phase

unfoldable pub run : List Act → Thread → Option Thread
run [] t = some t
run (a ∷ acts) t = elim (step a t) [ none ↦ none | some t' ↦ run acts t' ]

-- `State`.
unfoldable pub state : Thread → Code
state t = if t.flag then running else stopped

-- `join` returns.
abbrev pub IsJoinable : Thread → Type 0
IsJoinable t = t.phase ≡ finished
