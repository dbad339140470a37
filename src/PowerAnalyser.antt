-- ===== src/PowerAnalyser.antt =====
-- The power analyser, src/tools/efimon-power-analyser.cpp: its options, the columns of its log, and
-- the loop that measures. The observers are arguments; `types`, `type_fields` and `put_types` of the
-- daemon's log are the same loops over the instructions.
use efimon.Prelude.{
  ℕ, zero, suc, ◌+◌, Bool, true, false, not, ◌&&◌, ◌||◌, Option, none, some, List, [], ◌∷◌, ◌++◌,
  ltb, if◌then◌else◌, length, get_elem?, Text, codes, to_string,
}
pub mod Start
pub mod Known
pub mod Turns
pub mod Tests
pub mod Measures
use efimon.Float.{Float}
use efimon.Manager.{Pipe, ProcessManager}
use efimon.Launcher
use efimon.Launcher.{Launch}
use efimon.Status.{Status, is_ok}
use efimon.Outcome.{Outcome, returns, escapes, faults, ◌>>=◌}
use efimon.Args.{parser, exists, get_begin}
use efimon.Options.{of_found, exists_either, get_either, number_or, text_or, read_uint, def_samples}
use efimon.Logger.{FieldType, integer64, float, Value, uint64, single_float, CsvLogger, insert_row}
use efimon.Daemon.Server.{def_frequency}
use efimon.Daemon.Columns.{Features, types, type_fields, indexed_fields}
use efimon.Daemon.Rows.{put_value, put_indexed, put_types}
unfoldable pub use efimon.PowerAnalyser.Start.*

-- The numbers of sockets, units and fans that the first triggers gave.
pub record Sizes : Type 0 where
  pub socket_num : ℕ
  pub psu_num : ℕ
  pub fan_num : ℕ

-- What the observers show after their triggers: the times of the record of perf and of the system,
-- the powers and speeds, the sockets of `CPUInfo` with their frequencies, and the usages.
pub record Sample (F : Type 0) : Type 0 where
  pub record_timestamp : ℕ
  pub record_difference : ℕ
  pub sys_timestamp : ℕ
  pub sys_difference : ℕ
  pub socket_power : List F
  pub psu_power : List F
  pub fan_speeds : List F
  pub classification : List (ℕ × List (ℕ × List (ℕ × F)))
  pub num_sockets : ℕ
  pub socket_frequency : List F
  pub system_usage : F
  pub process_usage : F

-- The observers.
pub record Observers (F M : Type 0) : Type 0 where
  pub proc_stat : M → Outcome (M × Status)
  pub sys_stat : M → Outcome (M × Status)
  pub cpuinfo : M → Outcome (M × Status)
  pub perf_record : M → Outcome (M × Status)
  pub perf_annotate : M → Outcome (M × Status)
  pub rapl_meter : M → Outcome (M × Status)
  pub ipmi_meter : M → Outcome (M × Status)
  pub sample : M → Sample F

unfoldable pub rapl_columns : Bool → ℕ → List (Text × FieldType)
unfolding indexed_fields
rapl_columns enabled socket_num =
    if enabled then indexed_fields (codes "SocketPower") socket_num 0 else []

unfoldable pub ipmi_columns : Bool → Sizes → List (Text × FieldType)
unfolding indexed_fields
ipmi_columns enabled z =
    if enabled
    then indexed_fields (codes "PSUPower") z.psu_num 0
      ++ indexed_fields (codes "FanSpeed") z.fan_num 0
    else []

unfoldable pub perf_columns : Bool → List (Text × FieldType)
unfolding type_fields
perf_columns enabled = if enabled then type_fields types else []

abbrev pub last_columns : List (Text × FieldType)
last_columns =
    (codes "SystemCpuUsage", float)
    ∷ (codes "ProcessCpuUsage", float)
    ∷ (codes "TimeDifference", integer64)
    ∷ []

-- The columns, for the number of sockets of `CPUInfo`.
unfoldable pub log_table : Features → Sizes → ℕ → List (Text × FieldType)
unfolding rapl_columns perf_columns ipmi_columns indexed_fields
log_table on z sockets =
    ((codes "Timestamp", integer64) ∷ [])
    ++ (rapl_columns on.rapl z.socket_num
        ++ (perf_columns on.perf
            ++ (ipmi_columns on.ipmi z
                ++ (indexed_fields (codes "SocketFreq") sockets 0 ++ last_columns))))

module _ {F : Type 0} where
  -- The loop over the frequencies, with `[i]`.
  unfoldable pub put_frequencies :
      List F → ℕ → ℕ → List (Text × Value F) → Outcome (List (Text × Value F))
  unfolding put_value
  put_frequencies xs zero i vals = returns vals
  put_frequencies xs (suc left) i vals = elim (get_elem? xs i) [
    | none ↦ faults
    | some x ↦
        put_frequencies xs left (i + 1)
          (put_value (codes "SocketFreq" ++ to_string i) (single_float x) vals)
  ]

  unfoldable pub put_rapl :
      Bool → ℕ → Sample F → List (Text × Value F) → Outcome (List (Text × Value F))
  unfolding put_indexed
  put_rapl enabled socket_num s vals =
      if enabled
      then put_indexed (codes "SocketPower") s.socket_power socket_num 0 vals
      else returns vals

  unfoldable pub put_ipmi :
      Bool → Sizes → Sample F → List (Text × Value F) → Outcome (List (Text × Value F))
  unfolding put_indexed
  put_ipmi enabled z s vals =
      if enabled
      then (put_indexed (codes "PSUPower") s.psu_power z.psu_num 0 vals
          >>= put_indexed (codes "FanSpeed") s.fan_speeds z.fan_num 0)
      else returns vals

  -- The time columns: of the record of perf, if it is built.
  abbrev pub timestamp : Bool → Sample F → ℕ
  timestamp perf s = if perf then s.record_timestamp else s.sys_timestamp

  abbrev pub difference : Bool → Sample F → ℕ
  difference perf s = if perf then s.record_difference else s.sys_difference

  unfoldable pub put_last : Bool → Sample F → List (Text × Value F) → List (Text × Value F)
  unfolding put_value
  put_last perf s vals = put_value (codes "TimeDifference") (uint64 (difference perf s)) (
      put_value (codes "ProcessCpuUsage") (single_float s.process_usage)
        (put_value (codes "SystemCpuUsage") (single_float s.system_usage) vals))

module _ {F : Type 0} (d : Float F) (arrange : List (ℕ × F) → List (ℕ × F)) where
  unfoldable pub put_perf : Bool → Sample F → List (Text × Value F) → List (Text × Value F)
  unfolding put_types
  put_perf enabled s vals =
      if enabled then put_types d arrange s.classification types vals else vals

  -- The values of a row.
  unfoldable pub sample_values : Features → Sizes → Sample F → Outcome (List (Text × Value F))
  unfolding put_rapl put_perf put_ipmi put_frequencies put_last
  sample_values on z s =
      put_rapl on.rapl z.socket_num s ((codes "Timestamp", uint64 (timestamp on.perf s)) ∷ [])
      >>= λ v1. put_ipmi on.ipmi z s (put_perf on.perf s v1) >>= λ v2.
          put_frequencies s.socket_frequency s.num_sockets 0 v2 >>= λ v3.
          returns (put_last on.perf s v3)

-- The first status that is not OK ends the loop; `true` says that all were.
unfoldable pub trigger_all : {M : Type 0} → List (M → Outcome (M × Status)) → M → Outcome (M × Bool)
trigger_all [] m = returns (m, true)
trigger_all (t ∷ ts) m = t m >>= λ p. elim (is_ok (p.1).code) [
  | true ↦ trigger_all ts (p.0)
  | false ↦ returns (p.0, false)
]

-- The triggers of a turn, in order.
unfoldable pub triggers :
    {F M : Type 0} → Features → Observers F M → List (M → Outcome (M × Status))
triggers on api =
    api.proc_stat
    ∷ api.sys_stat
    ∷ api.cpuinfo
    ∷ ((if on.perf then api.perf_record ∷ api.perf_annotate ∷ [] else [])
        ++ ((if on.rapl then api.rapl_meter ∷ [] else [])
            ++ (if on.ipmi then api.ipmi_meter ∷ [] else [])))

module _ {F M : Type 0} (d : Float F) (arrange : List (ℕ × F) → List (ℕ × F))
    (float_text : F → Text) (on : Features) (z : Sizes) (api : Observers F M) where
  -- The loop, with what each turn reads of `terminated`; there are `timelimit` turns at most.
  unfoldable pub measure : List Bool → Bool → M → CsvLogger → Outcome (M × CsvLogger)
  unfolding triggers trigger_all sample_values
  measure [] first m l = returns (m, l)
  measure (terminated ∷ turns) first m l = elim terminated [
    | true ↦ returns (m, l)
    | false ↦ trigger_all (triggers on api) m >>= λ p. elim (p.1) [
      | false ↦ returns (p.0, l)
      | true ↦ elim first [
        | true ↦ measure turns false (p.0) l
        | false ↦ sample_values d arrange on z (api.sample (p.0)) >>= λ vals.
            measure turns false (p.0) (insert_row float_text vals l).0
      ]
    ]
  ]
