-- ===== src/Proc/Stat/Usage.antt =====
-- The CPU usage of a process over its samples, and the statuses of `Trigger`.
use efimon.Prelude.{
  ap, ◌∙◌, ℕ, ◌<◌, ◌≡◌, refl, ap, ◌∙◌, ◌≢◌, inl, inr, true, false, ◌||◌, Option, none, some, arith,
  ◌==◌, if◌then◌else◌, Bool-cases,
}
use efimon.Float.{Float}
use efimon.Status.{ok, not_found}
use efimon.Words.{u64, sub64}
use efimon.Proc.Machine.{Machine}
use efimon.Proc.Stat.{
  StatObserver, is_halted, get_uptime, check_alive, get_proc_stat, stamp, active_ms, usage_of,
  measure, translate_readings, trigger_process,
}

sub64-sub64 : (u t s : ℕ) → u < u64 → t < u64 → s < u64 → sub64 (sub64 u s) (sub64 t s) ≡ sub64 u t
sub64-sub64 u t s hu ht hs = omega arith

module _ {F : Type 0} (d : Float F) where
  open d use {of_ℕ}

  -- The total of the last sample stands for the timestamp of the last sample.
  abbrev pub IsInStep : StatObserver F → Type 0
  IsInStep o = o.proc_data.total ≡ sub64 o.cpu_readings.timestamp o.proc_data.fields.starttime

  -- The process's share of the time since the last sample: nothing in the first sample or if no time
  -- has passed.
  abbrev pub share : Machine → StatObserver F → ℕ → F
  share m o elapsed =
      if o.proc_data.total == 0 || elapsed == 0
      then of_ℕ 0
      else usage_of d m (sub64 (active_ms d m o.proc_data.fields) o.proc_data.active) elapsed

  -- For a process that runs, the usage is its share of exactly the time that the readings report as
  -- the difference, and the totals stay in step with the timestamp.
  pub translate-usage :
      (m : Machine) (o : StatObserver F)
      → IsInStep o
      → is_halted o.proc_data.fields.state ≡ false
      → o.uptime < u64
      → o.cpu_readings.timestamp < u64
      → o.proc_data.fields.starttime < u64
      → let o' = translate_readings d m o in
        (o'.cpu_readings.overall_usage ≡ share m o o'.cpu_readings.difference)
        × (o'.cpu_readings.difference ≡ sub64 o.uptime o.cpu_readings.timestamp)
        × IsInStep o'
  unfolding translate_readings stamp measure
  translate-usage m o st h hu ht hs =
      let same =
        sub64-sub64 o.uptime o.cpu_readings.timestamp o.proc_data.fields.starttime hu ht hs in
      rw h (rw (st, same) (refl, refl, refl))

  -- A sample of a stopped or dead process moves the timestamp and leaves the totals and the usage,
  -- so that later usages are over other times than the differences that are reported.
  pub translate-halted :
      (m : Machine) (o : StatObserver F)
      → IsInStep o
      → is_halted o.proc_data.fields.state ≡ true
      → o.uptime < u64
      → o.cpu_readings.timestamp < u64
      → o.proc_data.fields.starttime < u64
      → o.uptime ≢ o.cpu_readings.timestamp
      → let o' = translate_readings d m o in
        (o'.cpu_readings.overall_usage ≡ o.cpu_readings.overall_usage) × ¬ IsInStep o'
  unfolding translate_readings stamp
  translate-halted m o st h hu ht hs ne = rw h (refl, λ e. omega arith)

  translate-keeps :
      (m : Machine) (o : StatObserver F)
      → ((translate_readings d m o).status ≡ o.status)
        × ((translate_readings d m o).proc_data.fields ≡ o.proc_data.fields)
  unfolding translate_readings stamp measure
  translate-keeps m o = elim (Bool-cases (is_halted o.proc_data.fields.state)) [
    | inl h ↦ rw h (refl, refl)
    | inr h ↦ rw h (refl, refl)
  ]

  uptime-keeps :
      (m : Machine) (up : Option (F × F)) (o : StatObserver F)
      → ((get_uptime d m up o).status ≡ o.status) × ((get_uptime d m up o).proc_data ≡ o.proc_data)
  unfolding get_uptime
  uptime-keeps m none o = (refl, refl)
  uptime-keeps m (some (u, i)) o = (refl, refl)

  -- If the process ends between the two looks, the trigger returns OK, with the observer's own
  -- status at not found and the fields of the sample before.
  pub trigger-vanished :
      (m : Machine) (up : Option (F × F)) (o : StatObserver F)
      → let (o', st) = trigger_process d m true up none o in
        (st.code ≡ ok) × (o'.status.code ≡ not_found) × (o'.proc_data.fields ≡ o.proc_data.fields)
  unfolding trigger_process check_alive get_proc_stat
  trigger-vanished m up o =
      let o1 : StatObserver F = get_uptime d m up (check_alive d true o) in
      let (st, fields) = translate-keeps m (get_proc_stat d none o1) in
      let (_, data1) = uptime-keeps m up (check_alive d true o) in
      (refl, ap (λ s. s.code) st, fields ∙ ap (λ p. p.fields) data1)
