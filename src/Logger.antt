-- ===== src/Logger.antt =====
-- `CSVLogger` (include/efimon/logger.hpp and src/efimon/logger/csv.cpp). The texts are written raw:
-- a record is what stands before one `std::endl`, and has several lines if a text in it has a line
-- end. The order in which the hash map of the columns is gone through, and
-- the text of a float, are arguments.
pub mod Rows
pub mod Sqlite
pub mod Tests
use efimon.Prelude.{
  ℕ, ◌+◌, ◌%◌, ◌^◌, Bool, true, not, Option, none, some, List, [], ◌∷◌, ◌++◌, ◌==◌, if◌then◌else◌,
  length, Text, codes, text_eq, to_string,
}
use efimon.Status.{Status, status_ok, fail, ok, logger_cannot_open, logger_cannot_insert}
use efimon.Outcome.{Outcome, returns, throws}

pub data FieldType : Type 0 where
  none_type integer64 float string : FieldType

-- `Logger::Value<T>`, with its `FieldType`: an `int64_t` (its sign and size), a `uint64_t`, another
-- integral type, a `float`, another floating type, a string, and any other type.
pub data Value (F : Type 0) : Type 0 where
  int64 : Bool → ℕ → Value F
  uint64 : ℕ → Value F
  other_integral : Value F
  single_float : F → Value F
  other_float : Value F
  word : Text → Value F
  binary : Value F

unfoldable pub type_of : {F : Type 0} → Value F → FieldType
type_of (int64 negative n) = integer64
type_of (uint64 n) = integer64
type_of other_integral = integer64
type_of (single_float x) = float
type_of other_float = float
type_of (word t) = string
type_of binary = none_type

pub record CsvLogger : Type 0 where
  pub opened : Bool
  pub table : List (Text × FieldType)
  pub records : List Text
  pub last_id : ℕ

-- What stands in the file: each record with the line end of its `std::endl`.
unfoldable pub ended : List Text → Text
ended [] = []
ended (t ∷ ts) = t ++ (10 ∷ ended ts)

unfoldable pub file_text : CsvLogger → Text
unfolding ended
file_text l = ended l.records

-- `table_map_[name] = type`.
unfoldable pub set_field : Text → FieldType → List (Text × FieldType) → List (Text × FieldType)
set_field name t [] = (name, t) ∷ []
set_field name t (e ∷ table) =
    if text_eq name (e.0) then (e.0, t) ∷ table else e ∷ set_field name t table

unfoldable pub make_table :
    List (Text × FieldType) → List (Text × FieldType) → List (Text × FieldType)
make_table [] table = table
make_table (f ∷ fields) table = make_table fields (set_field (f.0) (f.1) table)

unfoldable pub find_value : {F : Type 0} → Text → List (Text × Value F) → Option (Value F)
find_value name [] = none
find_value name (e ∷ vals) = if text_eq name (e.0) then some (e.1) else find_value name vals

unfoldable pub write_names : List (Text × FieldType) → Text
write_names [] = []
write_names (e ∷ table) = codes "," ++ (e.0 ++ write_names table)

-- The constructor.
unfoldable pub construct :
    (List (Text × FieldType) → List (Text × FieldType))
    → Bool
    → List (Text × FieldType)
    → Outcome CsvLogger
construct arrange opens fields =
    if not opens
    then throws (fail logger_cannot_open "The file cannot be opened")
    else let table = arrange (make_table fields []) in
      returns record {
        opened = true;
        table = table;
        records = (codes "ID" ++ write_names table) ∷ [];
        last_id = 0;
      }

module _ {F : Type 0} (float_text : F → Text) where
  -- What the dynamic casts to the types of a case of the switch give.
  unfoldable pub integer_text : Value F → Text
  integer_text (int64 negative n) = if negative then codes "-" ++ to_string n else to_string n
  integer_text (uint64 n) = to_string n
  integer_text _ = codes "0"

  unfoldable pub real_text : Value F → Text
  real_text (single_float x) = float_text x
  real_text _ = codes "0.0"

  unfoldable pub word_text : Value F → Text
  word_text (word t) = t
  word_text _ = []

  unfoldable pub stringify : Value F → Text
  stringify v = elim (type_of v) [
    | integer64 ↦ integer_text v
    | float ↦ real_text v
    | string ↦ word_text v
    | none_type ↦ []
  ]

  unfoldable pub default_cell : FieldType → Text
  default_cell integer64 = codes "0"
  default_cell float = codes "0.0"
  default_cell string = []
  default_cell none_type = []

  unfoldable pub cell : Text × FieldType → List (Text × Value F) → Text
  cell e vals = elim (find_value (e.0) vals) [ some v ↦ stringify v | none ↦ default_cell (e.1) ]

  unfoldable pub write_cells : List (Text × FieldType) → List (Text × Value F) → Text
  write_cells [] vals = []
  write_cells (e ∷ table) vals = codes "," ++ (cell e vals ++ write_cells table vals)

  -- `InsertRow`.
  unfoldable pub insert_row : List (Text × Value F) → CsvLogger → CsvLogger × Status
  insert_row vals l =
      if not l.opened
      then (l, fail logger_cannot_insert "Cannot insert since the file is not opened")
      else (
        record l {
          records = l.records ++ ((to_string l.last_id ++ write_cells l.table vals) ∷ []);
          last_id = (l.last_id + 1) % 2 ^ 64;
        },
        (if length vals == length l.table
            then status_ok
            else fail ok "Not all the fields were present"),
      )
