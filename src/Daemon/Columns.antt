-- ===== src/Daemon/Columns.antt =====
-- The columns of a worker's log: `EfimonWorker::CreateLogTable`
-- (src/tools/efimon-daemon/efimon-worker.cpp), over what `EfimonAnalyser::GetReadings` gives of the
-- meters.
use efimon.Prelude.{
  ℕ, zero, suc, ◌+◌, Bool, true, false, ◌&&◌, Option, none, some, List, [], ◌∷◌, ◌++◌,
  if◌then◌else◌, length, Text, codes, to_string,
}
use efimon.Status.{Status, status_ok}
use efimon.Logger.{FieldType, integer64, float}
use efimon.Asm.Kinds.{
  InstructionFamily, arithmetic, logic, memory, branch, jump, other, InstructionType, scalar,
  vector, unclassified, DataOrigin, unknown, from_memory, register, immediate, family_string,
  type_string, origin_decomposed,
}
use efimon.Power.Rapl.{PowerReadings}
use efimon.Power.Ipmi.{PsuReadings, FanReadings}

-- Whether the macros `ENABLE_IPMI`, `ENABLE_RAPL` and `ENABLE_PERF` are set.
pub record Features : Type 0 where
  pub ipmi : Bool
  pub rapl : Bool
  pub perf : Bool

-- The part of `CPUReadings` that a row is made of.
pub record CpuUsage (F : Type 0) : Type 0 where
  pub timestamp : ℕ
  pub difference : ℕ
  pub overall_usage : F
  pub socket_frequency : List F

-- `readings_` of the analyser; `none` where `GetReadings` fails, and the local readings stay empty.
pub record Slots (F : Type 0) : Type 0 where
  pub psu_slot : Option (PsuReadings F)
  pub fan_slot : Option (FanReadings F)
  pub rapl_slot : Option (PowerReadings F)
  pub cpu_slot : Option (CpuUsage F)

-- The four columns of a type and a family whose shares have an origin.
pub data Bucket : Type 0 where
  from_register mem_load mem_store mem_update : Bucket

unfoldable pub bucket_name : Bucket → Text
bucket_name from_register = codes "ProbabilityRegister"
bucket_name mem_load = codes "ProbabilityMemLoad"
bucket_name mem_store = codes "ProbabilityMemStore"
bucket_name mem_update = codes "ProbabilityMemUpdate"

unfoldable pub is_memory : DataOrigin → Bool
is_memory unknown = false
is_memory from_memory = true
is_memory register = false
is_memory immediate = false

-- From the input and the output.
unfoldable pub bucket_of : ℕ → Bucket
unfolding is_memory
bucket_of origin =
    let (input, output) = origin_decomposed origin in
    if is_memory input && is_memory output
    then mem_update
    else if is_memory input
    then mem_load
    else if is_memory output
    then mem_store
    else from_register

unfoldable pub has_origins : InstructionFamily → Bool
has_origins memory = true
has_origins arithmetic = true
has_origins logic = true
has_origins branch = false
has_origins jump = false
has_origins other = false

unfoldable pub column : Text → InstructionType → InstructionFamily → Text
column name type family = name ++ (type_string type ++ family_string family)

unfoldable pub bucket_column : Bucket → InstructionType → InstructionFamily → Text
unfolding column bucket_name
bucket_column b type family = column (bucket_name b) type family

-- The types up to `UNCLASSIFIED`, and the families before `OTHER`.
abbrev pub types : List InstructionType
types = scalar ∷ vector ∷ unclassified ∷ []

abbrev pub families : List InstructionFamily
families = arithmetic ∷ logic ∷ memory ∷ branch ∷ jump ∷ []

-- `name` with the numbers from `i` on.
unfoldable pub indexed_fields : Text → ℕ → ℕ → List (Text × FieldType)
indexed_fields name zero i = []
indexed_fields name (suc left) i = (name ++ to_string i, float) ∷ indexed_fields name left (i + 1)

unfoldable pub pair_fields : InstructionType → InstructionFamily → List (Text × FieldType)
unfolding bucket_column column
pair_fields type family =
    if has_origins family
    then (bucket_column from_register type family, float)
      ∷ (bucket_column mem_load type family, float)
      ∷ (bucket_column mem_store type family, float)
      ∷ (bucket_column mem_update type family, float)
      ∷ []
    else (column (codes "Probability") type family, float) ∷ []

unfoldable pub family_fields : InstructionType → List InstructionFamily → List (Text × FieldType)
unfolding pair_fields
family_fields type [] = []
family_fields type (f ∷ fs) = pair_fields type f ++ family_fields type fs

unfoldable pub type_fields : List InstructionType → List (Text × FieldType)
unfolding family_fields
type_fields [] = []
type_fields (t ∷ ts) = family_fields t families ++ type_fields ts

abbrev pub base_fields : List (Text × FieldType)
base_fields =
    (codes "Timestamp", integer64)
    ∷ (codes "TimeDifference", integer64)
    ∷ (codes "SystemCpuUsage", float)
    ∷ (codes "ProcessCpuUsage", float)
    ∷ []

module _ {F : Type 0} where
  abbrev pub frequencies : Slots F → List F
  frequencies s = elim (s.cpu_slot) [ none ↦ [] | some q ↦ q.socket_frequency ]

  abbrev pub max_powers : Slots F → List F
  max_powers s = elim (s.psu_slot) [ none ↦ [] | some q ↦ q.psu_max_power ]

  abbrev pub psu_powers : Slots F → List F
  psu_powers s = elim (s.psu_slot) [ none ↦ [] | some q ↦ q.psu_power ]

  abbrev pub speeds : Slots F → List F
  speeds s = elim (s.fan_slot) [ none ↦ [] | some q ↦ q.fan_speeds ]

  abbrev pub socket_powers : Slots F → List F
  socket_powers s = elim (s.rapl_slot) [ none ↦ [] | some q ↦ q.socket_power ]

  unfoldable pub ipmi_fields : Bool → Slots F → List (Text × FieldType)
  unfolding indexed_fields
  ipmi_fields enabled s =
      if enabled
      then indexed_fields (codes "PSUPower") (length (max_powers s)) 0
        ++ indexed_fields (codes "FanSpeed") (length (speeds s)) 0
      else []

  unfoldable pub rapl_fields : Bool → Slots F → List (Text × FieldType)
  unfolding indexed_fields
  rapl_fields enabled s =
      if enabled then indexed_fields (codes "SocketPower") (length (socket_powers s)) 0 else []

  -- `metered`: the worker has both observers of perf.
  unfoldable pub create_log_table :
      Features → Bool → Slots F → List (Text × FieldType) → List (Text × FieldType) × Status
  unfolding indexed_fields type_fields
  create_log_table on metered s table = (
    table
        ++ (base_fields
            ++ (indexed_fields (codes "SocketFreq") (length (frequencies s)) 0
                ++ (ipmi_fields on.ipmi s
                    ++ (rapl_fields on.rapl s
                        ++ (if on.perf && metered then type_fields types else []))))),
    status_ok,
  )
