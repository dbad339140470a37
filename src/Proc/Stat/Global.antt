-- ===== src/Proc/Stat/Global.antt =====
-- `GetGlobalProcStat` and `TranslateGlobalReadings` of src/efimon/proc/stat.cpp: the whole system,
-- over the lines of /proc/stat. Line 0 is the sum of all cores, line i the core i - 1. A line that
-- the file does not have reads as empty.
use efimon.Prelude.{
  ℕ, zero, suc, ◌+◌, ◌-◌, ◌/◌, ◌^◌, Option, none, some, List, [], ◌∷◌, ltb, ◌==◌, if◌then◌else◌,
  length, get_elem?, set, replicate, Text,
}
use efimon.Float.{Float}
use efimon.Status.{Status, status_ok}
use efimon.Observer.{type_bits, cpu}
use efimon.Outcome.{Outcome, returns, faults, ◌>>=◌}
use efimon.Words.{add64, sub64, mul64}
use efimon.Proc.Machine.{Machine, split_spaces, number_at}
use efimon.Proc.Stat.{
  ProcStatGlobalData, StatObserver, max_num_cpus, zero_core, minus_one, get_uptime,
}

abbrev pub line_at : List Text → ℕ → Text
line_at lines i = elim (get_elem? lines i) [ none ↦ [] | some l ↦ l ]

abbrev pub core_at : List ProcStatGlobalData → ℕ → ProcStatGlobalData
core_at cores i = elim (get_elem? cores i) [ none ↦ zero_core | some c ↦ c ]

-- The number of rounds of `for (i = 0; i <= total_processors && i < MAX_NUM_CPUS; ++i)`.
abbrev pub rounds : Machine → ℕ
rounds m = if ltb (m.processors + 1) max_num_cpus then m.processors + 1 else max_num_cpus

-- The position of the first number: the first line has two blanks behind its name.
abbrev pub first_offset : ℕ → ℕ
first_offset i = if i == 0 then 2 else 1

-- The five times of a line; `cpu_idx` is `i - 1`, which wraps for the first.
unfoldable pub read_core : ℕ → List Text → ProcStatGlobalData → Outcome ProcStatGlobalData
read_core i values c = do
  user ← number_at values (first_offset i)
  nice ← number_at values (first_offset i + 1)
  sys ← number_at values (first_offset i + 2)
  idle ← number_at values (first_offset i + 3)
  iowait ← number_at values (first_offset i + 4)
  returns (record c {
    user = user;
    nice = nice;
    system_time = sys;
    idle = idle;
    iowait = iowait;
    cpu_idx = if i == 0 then 2 ^ 32 - 1 else i - 1;
  })

-- The loop from round `i` on. What an exception leaves half written is lost with it here.
unfoldable pub get_global :
    List Text → ℕ → ℕ → List ProcStatGlobalData → Outcome (List ProcStatGlobalData)
get_global lines zero i cores = returns cores
get_global lines (suc left) i cores =
    read_core i (split_spaces (line_at lines i)) (core_at cores i) >>= λ c.
    get_global lines left (i + 1) (set cores i c)

module _ {F : Type 0} (d : Float F) where
  open d use {of_ℕ, add, mul, div, single, trunc}

  -- `(user + nice + system + iowait + idle * 0.01)`, cut to an integer, times 100000 per tick.
  unfoldable pub core_active : Machine → ProcStatGlobalData → ℕ
  core_active m c =
      mul64
        (trunc (
          add (of_ℕ (add64 (add64 (add64 c.user c.nice) c.system_time) c.iowait))
            (mul (of_ℕ c.idle) (div (of_ℕ 1) (of_ℕ 100)))))
        100000
      / m.clk_tck

  -- The usage of a core since its last sample.
  unfoldable pub core_usage : Machine → ℕ → ProcStatGlobalData → F
  core_usage m uptime c = single (
      div (single (of_ℕ (sub64 (core_active m c) c.active))) (single (of_ℕ (sub64 uptime c.total))))

  unfoldable pub sampled : Machine → ℕ → ProcStatGlobalData → ProcStatGlobalData
  sampled m uptime c = record c { total = uptime; active = core_active m c }

  -- `core_usage[i - 1] = …`: writing past the end is undefined.
  unfoldable pub write_usage : ℕ → F → List F → Outcome (List F)
  write_usage i u usages = if ltb i (length usages) then returns (set usages i u) else faults

  -- The rounds for the cores, from round `i + 1` on.
  unfoldable pub translate_cores :
      Machine
      → ℕ
      → ℕ
      → ℕ
      → List ProcStatGlobalData
      → List F
      → Outcome (List ProcStatGlobalData × List F)
  translate_cores m uptime zero i cores usages = returns (cores, usages)
  translate_cores m uptime (suc left) i cores usages =
      let c = core_at cores (i + 1) in
      write_usage i (core_usage m uptime c) usages
      >>= translate_cores m uptime left (i + 1) (set cores (i + 1) (sampled m uptime c))

  -- `resize(n)` of a vector of floats fills with zeros.
  unfoldable pub resized : ℕ → List F → List F
  resized zero us = []
  resized (suc n) [] = of_ℕ 0 ∷ resized n []
  resized (suc n) (u ∷ us) = u ∷ resized n us

  -- The readings after the loop. The usage of the whole is cut to an integer before it is divided by
  -- the number of processors; `warmup` is never set.
  unfoldable pub report :
      Machine → StatObserver F → List ProcStatGlobalData × List F → StatObserver F
  report m o (cores, usages) =
      let q = o.cpu_readings in
      let whole = trunc (core_usage m o.uptime (core_at o.global_data 0)) in
      record o {
        global_data = cores;
        cpu_readings = record {
          type = type_bits cpu;
          difference = sub64 o.uptime q.timestamp;
          timestamp = o.uptime;
          overall_usage = single (div (single (of_ℕ whole)) (single (of_ℕ m.processors)));
          overall_power = minus_one d;
          core_usage = usages;
          core_power = replicate m.processors (minus_one d);
        };
      }

  unfoldable pub translate_global : Machine → StatObserver F → Outcome (StatObserver F)
  translate_global m o =
      let first = core_at o.global_data 0 in
      translate_cores m o.uptime (rounds m - 1) 0 (set o.global_data 0 (sampled m o.uptime first))
        (resized m.processors o.cpu_readings.core_usage)
      >>= λ p. returns (report m o p)

  -- `Trigger` for the system.
  unfoldable pub trigger_global :
      Machine → Option (F × F) → List Text → StatObserver F → Outcome (StatObserver F × Status)
  trigger_global m up lines o =
      let o' = get_uptime d m up o in
      get_global lines (rounds m) 0 o'.global_data >>= λ cores.
      translate_global m (record o' { global_data = cores }) >>= λ o''. returns (o'', status_ok)
