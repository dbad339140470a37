-- ===== src/Perf/Annotate.antt =====
-- `PerfAnnotateObserver` (src/efimon/perf/annotate.cpp): the histogram of instructions that perf
-- annotate prints, and the same shares by type, family and origin. What the extraction operators
-- take from a line of the command's output is an argument.
pub mod Shares
pub mod Tests
use efimon.Prelude.{
  ℕ, ◌+◌, Bool, true, false, not, ◌&&◌, Option, none, some, List, [], ◌∷◌, ◌++◌, map, ◌==◌,
  if◌then◌else◌, Text, codes, text_eq,
}
use efimon.Status.{Status, status_ok, fail, not_ready, file_error, not_implemented}
use efimon.Observer.{type_bits, cpu, interval, cpu_instructions}
use efimon.Float.{Float}
use efimon.Asm.Kinds.{
  InstructionFamily, arithmetic, logic, memory, branch, jump, other, InstructionType, scalar,
  vector, unclassified, InstructionPair, Architecture, x86,
}
use efimon.Asm.X86.{operand_types, classify, build}
use efimon.Perf.Record.{Recorder}

-- The numbers of the enumerators, by which the maps compare their keys.
unfoldable pub type_number : InstructionType → ℕ
type_number scalar = 0
type_number vector = 1
type_number unclassified = 2

unfoldable pub family_number : InstructionFamily → ℕ
family_number arithmetic = 0
family_number logic = 1
family_number memory = 2
family_number branch = 3
family_number jump = 4
family_number other = 5

-- `map[key]` is changed in place; a key that is not there comes with `fresh` first.
unfoldable pub alter : {V : Type 0} → ℕ → V → (V → V) → List (ℕ × V) → List (ℕ × V)
alter key fresh change [] = (key, change fresh) ∷ []
alter key fresh change (e ∷ map) =
    if e.0 == key then (key, change (e.1)) ∷ map else e ∷ alter key fresh change map

-- What `>>` takes from a line: the percent, unless the stream is not good after it, then, past two
-- words, the instruction and its operands.
pub record Line (F : Type 0) : Type 0 where
  pub percent : Option F
  pub assembly : Text
  pub operands : Text

pub record InstructionReadings (F : Type 0) : Type 0 where
  pub histogram : List (Text × F)
  pub classification : List (ℕ × List (ℕ × List (ℕ × F)))
  pub type : ℕ
  pub timestamp : ℕ
  pub difference : ℕ

pub record Annotator (F : Type 0) : Type 0 where
  pub valid : Bool
  pub interval_ms : ℕ
  pub caps_type : ℕ
  pub command_prefix : Text
  pub command_suffix : Text
  pub classifier : Option (Text → Text → InstructionPair)
  pub readings : InstructionReadings F

unfoldable pub reconstruct_path : {F : Type 0} → Recorder → Annotator F → Annotator F
reconstruct_path r o = record o {
  command_prefix =
      codes "cd " ++ r.tmp_folder ++ codes " && perf annotate -q --percent-type global-period -i ";
  command_suffix = codes " | sort -r -k2,1n";
}

-- The constructor, over whatever the memory of the object holds.
unfoldable pub construct : {F : Type 0} → Architecture → Annotator F → Recorder → Annotator F
unfolding reconstruct_path
construct arch object r = record (reconstruct_path r (record object { valid = false })) {
  caps_type = type_bits cpu + type_bits interval + type_bits cpu_instructions;
  classifier = build arch;
}

module _ {F : Type 0} (d : Float F) where
  open d use {of_ℕ, add, ge, single}

  -- A key that is not there is set, one that is there is added to.
  unfoldable pub add_to_histogram : Text → F → List (Text × F) → List (Text × F)
  add_to_histogram assembly percent [] = (assembly, percent) ∷ []
  add_to_histogram assembly percent (e ∷ map) =
      if text_eq assembly (e.0)
      then (e.0, single (add (e.1) percent)) ∷ map
      else e ∷ add_to_histogram assembly percent map

  unfoldable pub add_to_origins : InstructionPair → F → List (ℕ × F) → List (ℕ × F)
  add_to_origins c percent = alter c.origin (of_ℕ 0) (λ share. single (add share percent))

  unfoldable pub add_to_families :
      InstructionPair → F → List (ℕ × List (ℕ × F)) → List (ℕ × List (ℕ × F))
  add_to_families c percent = alter (family_number c.family) [] (add_to_origins c percent)

  unfoldable pub add_to_classification :
      InstructionPair → F → List (ℕ × List (ℕ × List (ℕ × F))) → List (ℕ × List (ℕ × List (ℕ × F)))
  add_to_classification c percent = alter (type_number c.type) [] (add_to_families c percent)

  -- A line whose share is over the threshold.
  unfoldable pub count_line :
      (Text → Text → InstructionPair) → Line F → F → InstructionReadings F → InstructionReadings F
  count_line classifier l percent q =
      let optypes = operand_types l.operands in
      record q {
        histogram = add_to_histogram (l.assembly ++ codes "_" ++ optypes) percent q.histogram;
        classification =
            add_to_classification (classifier l.assembly optypes) percent q.classification;
      }

  -- `PERF_ANNOTATE_THRES >= percent`.
  unfoldable pub is_small : F → F → Bool
  is_small thres percent = ge thres percent

  unfoldable pub parse_line :
      F
      → Option (Text → Text → InstructionPair)
      → Line F
      → InstructionReadings F
      → InstructionReadings F
  parse_line thres classifier l q = elim (l.percent) [
    | none ↦ q
    | some percent ↦
        if is_small thres percent
        then q
        else elim classifier [ none ↦ q | some f ↦ count_line f l percent q ]
  ]

  unfoldable pub parse_lines :
      F
      → Option (Text → Text → InstructionPair)
      → List (Line F)
      → InstructionReadings F
      → InstructionReadings F
  parse_lines thres classifier [] q = q
  parse_lines thres classifier (l ∷ lines) q =
      parse_lines thres classifier lines (parse_line thres classifier l q)

  -- `ParseResults` of an open stream; `none` stands for one that is not open.
  unfoldable pub parse_results : F → Option (List (Line F)) → Annotator F → Annotator F × Status
  parse_results thres none o =
      (record o { valid = false }, fail file_error "Cannot open annotation file")
  parse_results thres (some lines) o = (
    record o {
      valid = true;
      readings =
          parse_lines thres o.classifier lines
            (record o.readings { histogram = []; classification = [] });
    },
    status_ok,
  )

  -- `Trigger`, with the output of the command, if its pipe opens.
  unfoldable pub trigger :
      F → Recorder → Option (List (Line F)) → Annotator F → Annotator F × Status
  trigger thres r output o =
      if not r.valid then (o, fail not_ready "Not ready to query") else elim output [
        | none ↦ (reconstruct_path r o, fail file_error "Cannot execute perf annotate command")
        | some lines ↦ parse_results thres (some lines) (reconstruct_path r o)
      ]

  unfoldable pub reset : Annotator F → Annotator F × Status
  reset o = (
    record o {
      valid = false;
      readings = record o.readings { timestamp = 0; difference = 0; type = type_bits cpu };
    },
    status_ok,
  )

  unfoldable pub set_interval : ℕ → Annotator F → Annotator F × Status
  set_interval ms o = (record o { interval_ms = ms }, status_ok)

  unfoldable pub select_device : ℕ → Annotator F → Annotator F × Status
  select_device device o = (
    o,
    fail not_implemented "It is not possible to select a device since this is a wrapper class",
  )
