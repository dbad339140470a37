-- ===== src/Logger/Tests.antt =====
-- The theorem on the logger's file at a concrete input.
use efimon.Prelude.{ℕ, ◌≡◌, refl, true, List, [], ◌∷◌, length, All, Text, codes, to_string}
use efimon.Outcome.{returns}
use efimon.Logger.{
  FieldType, integer64, float, string, Value, uint64, word, CsvLogger, make_table, set_field,
  write_names, construct, stringify, type_of, integer_text, word_text, file_text,
}
use efimon.Logger.Rows.{
  commas, IsCell-to_string, lines_of, IsPlain, insert_all, insert_all-IsRectangular,
}

abbrev columns : List (Text × FieldType)
columns = (codes "Timestamp", integer64) ∷ (codes "Cpu", float) ∷ (codes "Name", string) ∷ []

abbrev logger : CsvLogger
logger = record {
  opened = true;
  table = columns;
  records = codes "ID,Timestamp,Cpu,Name" ∷ [];
  last_id = 0;
}

abbrev two_rows : List (List (Text × Value ℕ))
two_rows =
    ((codes "Timestamp", uint64 70) ∷ (codes "Name", word (codes "idle")) ∷ [])
    ∷ ((codes "Name", word (codes "busy")) ∷ [])
    ∷ []

logger_run : construct (λ t. t) true columns ≡ returns logger
unfolding construct make_table set_field write_names
logger_run = refl

two_rows-IsPlain : All (All (IsPlain to_string)) two_rows
unfolding stringify type_of integer_text word_text
two_rows-IsPlain = ((IsCell-to_string 70, ((refl, refl), tt)), (((refl, refl), tt), tt))

insert_all-IsRectangular_example :
    let lines = lines_of (file_text (insert_all to_string two_rows logger)) in
    All (λ line. commas line ≡ 3) lines × (length lines ≡ 3)
insert_all-IsRectangular_example =
    insert_all-IsRectangular to_string (λ t. t) true columns logger two_rows logger_run
      ((refl, refl), ((refl, refl), ((refl, refl), tt))) two_rows-IsPlain
