-- ===== src/Daemon/System.antt =====
-- The refresh of the system-wide meters, which the system thread of the analyser repeats
-- (src/tools/efimon-daemon/efimon-analyser.cpp). The observers are arguments.
pub mod Sockets
pub mod Tests
use efimon.Prelude.{not, Option, none, some, List, [], ◌∷◌, ◌++◌, if◌then◌else◌, Text}
use efimon.Float.{Float}
use efimon.Status.{Status, status_ok, is_ok}
use efimon.Outcome.{Outcome, returns, faults, ◌>>=◌}
use efimon.Proc.CpuInfo.{CpuInfo, refresh, get_socket_mean_frequency}
use efimon.Daemon.Columns.{CpuUsage}

-- What the thread calls of the observer of the system: its trigger, its readings, and the write of
-- the frequencies through the pointer to them.
pub record SystemObserver (F O : Type 0) : Type 0 where
  pub trigger : O → Outcome (O × Status)
  pub usage : O → CpuUsage F
  pub write_frequencies : List F → O → O

-- `TriggerIfEnabled`.
unfoldable pub trigger_if_enabled {ℓ} :
    {O : Type ℓ} → (O → Outcome (O × Status)) → Option O → Outcome (Option O × Status)
trigger_if_enabled trigger none = returns (none, status_ok)
trigger_if_enabled trigger (some o) = trigger o >>= λ p. returns (some (p.0), p.1)

-- The observers of a worker.
pub record WorkerMeters (P R A : Type 0) : Type 0 where
  pub proc_meter : Option P
  pub perf_record_meter : Option R
  pub perf_annotate_meter : Option A

-- `EfimonWorker::RefreshProcStat` (src/tools/efimon-daemon/efimon-worker.cpp): the first status that
-- is not OK ends it.
unfoldable pub refresh_proc_stat :
    {P R A : Type 0}
    → (P → Outcome (P × Status))
    → (R → Outcome (R × Status))
    → (A → Outcome (A × Status))
    → WorkerMeters P R A
    → Outcome (WorkerMeters P R A × Status)
unfolding trigger_if_enabled
refresh_proc_stat trigger_proc trigger_record trigger_annotate w =
    trigger_if_enabled trigger_proc w.proc_meter >>= λ p.
    if not (is_ok (p.1).code)
    then returns (record w { proc_meter = p.0 }, p.1)
    else trigger_if_enabled trigger_record w.perf_record_meter >>= λ r.
        if not (is_ok (r.1).code)
        then returns (record w { proc_meter = p.0; perf_record_meter = r.0 }, r.1)
        else trigger_if_enabled trigger_annotate w.perf_annotate_meter >>= λ a. returns (
          record { proc_meter = p.0; perf_record_meter = r.0; perf_annotate_meter = a.0 },
          if is_ok (a.1).code then status_ok else a.1,
        )

-- The meters of the analyser; `info` is `socket_info_`, and a warning is a status that is not OK.
pub record SystemMeters (F O I R : Type 0) : Type 0 where
  pub proc_sys : Option O
  pub ipmi : Option I
  pub rapl : Option R
  pub info : CpuInfo F
  pub warnings : List Status

module _ {F O I R : Type 0} (d : Float F) (stof : Text → Outcome F) (api : SystemObserver F O)
    (trigger_ipmi : I → Outcome (I × Status)) (trigger_rapl : R → Outcome (R × Status)) where
  open api use {trigger, usage, write_frequencies}

  unfoldable pub refresh_ipmi : SystemMeters F O I R → Outcome (SystemMeters F O I R × Status)
  unfolding trigger_if_enabled
  refresh_ipmi s =
      trigger_if_enabled trigger_ipmi s.ipmi >>= λ p. returns (record s { ipmi = p.0 }, p.1)

  unfoldable pub refresh_rapl : SystemMeters F O I R → Outcome (SystemMeters F O I R × Status)
  unfolding trigger_if_enabled
  refresh_rapl s =
      trigger_if_enabled trigger_rapl s.rapl >>= λ p. returns (record s { rapl = p.0 }, p.1)

  -- The mean frequencies, written into the readings of an observer that is there; the readings of
  -- one that is not there are asked for through a null pointer.
  unfoldable pub write_means :
      Option O → CpuInfo F → SystemMeters F O I R → Outcome (SystemMeters F O I R)
  write_means none info s = faults
  write_means (some o) info s =
      let (info', means) = get_socket_mean_frequency d stof info in
      returns (record s { proc_sys = some (write_frequencies means o); info = info' })

  -- `lines` are those of /proc/cpuinfo.
  unfoldable pub refresh_proc_sys :
      List Text → SystemMeters F O I R → Outcome (SystemMeters F O I R × Status)
  unfolding trigger_if_enabled write_means
  refresh_proc_sys lines s = trigger_if_enabled trigger s.proc_sys >>= λ p.
      refresh d stof lines s.info >>= λ q. write_means (p.0) (q.0) s >>= λ s'. returns (s', p.1)

  -- `EFM_CHECK(..., EFM_WARN)`.
  unfoldable pub warn : SystemMeters F O I R × Status → SystemMeters F O I R
  warn p =
      if is_ok (p.1).code then p.0 else record (p.0) { warnings = (p.0).warnings ++ (p.1 ∷ []) }

  -- One round of the loop.
  unfoldable pub system_round : List Text → SystemMeters F O I R → Outcome (SystemMeters F O I R)
  unfolding refresh_proc_sys refresh_ipmi refresh_rapl warn
  system_round lines s = refresh_proc_sys lines s >>= λ p1.
      refresh_ipmi (warn p1) >>= λ p2. refresh_rapl (warn p2) >>= λ p3. returns (warn p3)
