-- ===== src/Logger/Sqlite/Tests.antt =====
-- The SQLite logger at concrete inputs.
use efimon.Prelude.{
  ℕ, ◌+◌, ◌-◌, ◌≡◌, refl, none, some, List, [], ◌∷◌, ◌++◌, if◌then◌else◌, All, Text, codes, text_eq,
  to_string,
}
use efimon.Logger.{float, type_of, Value, uint64, single_float, word}
use efimon.Logger.Sqlite.{Library, Built, construct, insert_statement, stringify}
use efimon.Logger.Sqlite.Statements.{
  IsWritable, to_string-IsFull, separated, names, texts, insert_statement-separated,
}

-- A library that counts its handles, and refuses the folder `/`.
abbrev counting : Library ℕ ℕ
counting = record {
  open_file =
      λ t d. (d + 1, d, if text_eq t (codes "/") then some (codes "unable to open") else none);
  exec = λ h t d. (d, none);
  close = λ h d. d - 1;
}

abbrev result : ℕ × Built ℕ
result = construct counting (codes "a.db") (codes "run") ((codes "Usage", float) ∷ []) 4

abbrev values : List (Text × Value ℕ)
values =
    (codes "Time", uint64 7)
    ∷ (codes "Usage", single_float 50)
    ∷ (codes "Name", word (codes "ls"))
    ∷ []

texts_run : texts to_string values ≡ codes "7" ∷ codes "50" ∷ codes "'ls'" ∷ []
unfolding stringify to_string type_of
texts_run = refl

values-IsWritable : All (IsWritable to_string) values
unfolding type_of
values-IsWritable = (((λ e. cc), (λ e. cc)), (((λ e. cc), (λ e. cc)), (((λ e. cc), (λ e. cc)), tt)))

insert_statement-separated_example :
    insert_statement to_string (codes "run") values
    ≡ codes "INSERT INTO "
      ++ (codes "run"
          ++ (codes " ("
              ++ (separated (names values)
                  ++ (codes ") VALUES (" ++ (separated (texts to_string values) ++ codes ");")))))
insert_statement-separated_example =
    insert_statement-separated to_string to_string-IsFull (codes "run") values values-IsWritable
