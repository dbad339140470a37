-- ===== src/Proc/Stat/Sampled.antt =====
-- The CPU usage of a process over two triggers.
use efimon.Prelude.{ℕ, ◌+◌, ◌*◌, ◌/◌, ◌≤◌, ◌<◌, ◌≡◌, true, false, some}
use efimon.Float.{Float}
use efimon.Words.{u64}
use efimon.Proc.Machine.{Machine, uptime_ms}
use efimon.Proc.Stat.{StatFields, StatObserver, is_halted, trigger_process}

module _ {F : Type 0} (d : Float F) where
  open d use {of_ℕ, mul, div, single}

  -- A trigger of a process that is alive, with its two floats of /proc/uptime and its fields.
  abbrev pub sampled : Machine → F × F → StatFields → StatObserver F → StatObserver F
  sampled m up f o = (trigger_process d m true (some up) (some f) o).0

  -- All the ticks that the process and its children were scheduled for.
  abbrev pub ticks : StatFields → ℕ
  ticks f = f.utime + f.stime + f.cutime + f.cstime

  -- The milliseconds of a number of ticks.
  abbrev pub ticks_ms : Machine → ℕ → ℕ
  ticks_ms m n = n * 1000 / m.clk_tck

  -- The percentage that some milliseconds are of others, over the processors.
  abbrev pub percent : Machine → ℕ → ℕ → F
  percent m active elapsed = single (
      div (single (mul (of_ℕ 100) (single (div (single (of_ℕ active)) (single (of_ℕ elapsed))))))
        (single (of_ℕ m.processors)))

  -- The fields of a process that runs, whose counters fit 64 bits.
  abbrev pub IsSample : Machine → F × F → StatFields → Type 0
  IsSample m up f =
      (is_halted f.state ≡ false)
      × (ticks f * 1000 < u64)
      × (f.starttime ≤ uptime_ms d m (up.0))
      × (uptime_ms d m (up.0) < u64)
