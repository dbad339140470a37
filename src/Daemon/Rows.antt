-- ===== src/Daemon/Rows.antt =====
-- The rows of a worker's log: `EfimonWorker::LogReadings`
-- (src/tools/efimon-daemon/efimon-worker.cpp). The order in which a hash map of origins is gone
-- through is an argument.
pub mod Names
pub mod Filled
pub mod Known
pub mod Buckets
pub mod Tests
use efimon.Prelude.{
  ℕ, zero, suc, ◌+◌, Bool, ◌&&◌, Option, none, some, List, [], ◌∷◌, ◌++◌, ◌==◌, if◌then◌else◌,
  length, get_elem?, Text, codes, text_eq, find, to_string,
}
use efimon.Float.{Float}
use efimon.Status.{Status, status_ok, fail, not_found}
use efimon.Outcome.{Outcome, returns, escapes, ◌>>=◌}
use efimon.Logger.{FieldType, integer64, float, Value, uint64, single_float, CsvLogger, insert_row}
use efimon.Asm.Kinds.{
  InstructionFamily, arithmetic, logic, memory, branch, jump, other, InstructionType, scalar,
  vector, unclassified, DataOrigin, unknown, from_memory, register, immediate, family_string,
  type_string, origin_decomposed,
}
use efimon.Perf.Annotate.{type_number, family_number}
use efimon.Power.Rapl.{PowerReadings}
use efimon.Power.Ipmi.{PsuReadings, FanReadings}
use efimon.Daemon.Columns.{
  Features, CpuUsage, Slots, Bucket, bucket_of, has_origins, column, bucket_column, types, families,
  frequencies, max_powers, psu_powers, speeds, socket_powers,
}

-- `map[name] = value`.
unfoldable pub put_value :
    {F : Type 0} → Text → Value F → List (Text × Value F) → List (Text × Value F)
put_value name v [] = (name, v) ∷ []
put_value name v (e ∷ vals) =
    if text_eq name (e.0) then (e.0, v) ∷ vals else e ∷ put_value name v vals

-- `map.find(key)`.
unfoldable pub find_key : {V : Type 0} → ℕ → List (ℕ × V) → Option V
find_key key [] = none
find_key key (e ∷ m) = if e.0 == key then some (e.1) else find_key key m

module _ {F : Type 0} where
  -- The loop over a vector, with `at(i)`.
  unfoldable pub put_indexed :
      Text → List F → ℕ → ℕ → List (Text × Value F) → Outcome (List (Text × Value F))
  unfolding put_value
  put_indexed name xs zero i vals = returns vals
  put_indexed name xs (suc left) i vals = elim (get_elem? xs i) [
    | none ↦ escapes
    | some x ↦
        put_indexed name xs left (i + 1) (put_value (name ++ to_string i) (single_float x) vals)
  ]

  -- The shares of the origins, each to its column.
  unfoldable pub put_origins :
      InstructionType
      → InstructionFamily
      → List (ℕ × F)
      → List (Text × Value F)
      → List (Text × Value F)
  unfolding put_value bucket_column bucket_of
  put_origins type family [] vals = vals
  put_origins type family (o ∷ os) vals =
      put_origins type family os
        (put_value (bucket_column (bucket_of (o.0)) type family) (single_float (o.1)) vals)

  -- The origins of a type and a family, none where the histogram has no such entry.
  unfoldable pub origins_of :
      InstructionType → InstructionFamily → List (ℕ × List (ℕ × List (ℕ × F))) → List (ℕ × F)
  unfolding find_key
  origins_of type family classification = elim (find_key (type_number type) classification) [
    | none ↦ []
    | some fams ↦ elim (find_key (family_number family) fams) [ none ↦ [] | some os ↦ os ]
  ]

module _ {F : Type 0} (d : Float F) (arrange : List (ℕ × F) → List (ℕ × F)) where
  open d use {of_ℕ, add, single}

  unfoldable pub sum_shares : F → List (ℕ × F) → F
  sum_shares sum [] = sum
  sum_shares sum (o ∷ os) = sum_shares (single (add sum (o.1))) os

  unfoldable pub put_pair :
      List (ℕ × List (ℕ × List (ℕ × F)))
      → InstructionType
      → InstructionFamily
      → List (Text × Value F)
      → List (Text × Value F)
  unfolding put_origins put_value column sum_shares
  put_pair classification type family vals =
      let os = arrange (origins_of type family classification) in
      if has_origins family
      then put_origins type family os vals
      else put_value (column (codes "Probability") type family)
          (single_float (sum_shares (of_ℕ 0) os)) vals

  unfoldable pub put_families :
      List (ℕ × List (ℕ × List (ℕ × F)))
      → InstructionType
      → List InstructionFamily
      → List (Text × Value F)
      → List (Text × Value F)
  unfolding put_pair
  put_families classification type [] vals = vals
  put_families classification type (f ∷ fs) vals =
      put_families classification type fs (put_pair classification type f vals)

  unfoldable pub put_types :
      List (ℕ × List (ℕ × List (ℕ × F)))
      → List InstructionType
      → List (Text × Value F)
      → List (Text × Value F)
  unfolding put_families
  put_types classification [] vals = vals
  put_types classification (t ∷ ts) vals =
      put_types classification ts (put_families classification t families vals)

  unfoldable pub base_values : CpuUsage F → F → List (Text × Value F)
  unfolding put_value
  base_values usage sys = put_value (codes "TimeDifference") (uint64 usage.difference) (
      put_value (codes "ProcessCpuUsage") (single_float usage.overall_usage) (
        put_value (codes "SystemCpuUsage") (single_float sys)
          (put_value (codes "Timestamp") (uint64 usage.timestamp) [])))

  -- The first four values and the frequencies.
  unfoldable pub put_usage : CpuUsage F → Slots F → Outcome (List (Text × Value F))
  unfolding base_values put_indexed
  put_usage usage s =
      put_indexed (codes "SocketFreq") (frequencies s) (length (frequencies s)) 0
        (base_values usage (elim (s.cpu_slot) [ none ↦ of_ℕ 0 | some q ↦ q.overall_usage ]))

  unfoldable pub put_ipmi : Bool → Slots F → List (Text × Value F) → Outcome (List (Text × Value F))
  unfolding put_indexed
  put_ipmi enabled s vals =
      if enabled
      then (put_indexed (codes "PSUPower") (psu_powers s) (length (max_powers s)) 0 vals
          >>= put_indexed (codes "FanSpeed") (speeds s) (length (speeds s)) 0)
      else returns vals

  unfoldable pub put_rapl : Bool → Slots F → List (Text × Value F) → Outcome (List (Text × Value F))
  unfolding put_indexed
  put_rapl enabled s vals =
      if enabled
      then put_indexed (codes "SocketPower") (socket_powers s) (length (socket_powers s)) 0 vals
      else returns vals

  -- The values of a row, for the process's usage and what the meters have.
  unfoldable pub row_values :
      Features
      → Bool
      → CpuUsage F
      → Slots F
      → List (ℕ × List (ℕ × List (ℕ × F)))
      → Outcome (List (Text × Value F))
  unfolding put_usage put_ipmi put_rapl put_types
  row_values on metered usage s classification = put_usage usage s >>= λ v1.
      put_ipmi on.ipmi s v1 >>= λ v2. put_rapl on.rapl s v2 >>= λ v3.
      returns (if on.perf && metered then put_types classification types v3 else v3)

  unfoldable pub log_readings :
      (F → Text)
      → Features
      → Bool
      → Option (CpuUsage F)
      → Slots F
      → List (ℕ × List (ℕ × List (ℕ × F)))
      → CsvLogger
      → Outcome (CsvLogger × Status)
  log_readings float_text on metered none s classification l =
      returns (l, fail not_found "Cannot find the CPU Usage")
  log_readings float_text on metered (some usage) s classification l =
      row_values on metered usage s classification >>= λ vals.
      returns (insert_row float_text vals l)
