-- ===== src/Logger/Sqlite.antt =====
-- `SQLiteLogger` (src/efimon/logger/sqlite.cpp). The library of SQLite is an argument. A map is the
-- list of its entries in the order in which it is gone through.
pub mod Statements
pub mod Handles
pub mod Tests
use efimon.Prelude.{Option, none, some, List, [], ◌∷◌, ◌++◌, Text, codes}
use efimon.Status.{Code, ok, logger_cannot_open, logger_cannot_insert}
use efimon.Logger.{
  FieldType, none_type, integer64, float, string, Value, int64, uint64, other_integral,
  single_float, other_float, word, binary, type_of, integer_text, real_text, set_field,
}

-- `sqlite3_open_v2` gives a handle also where it fails, with the text of the error; `sqlite3_exec`
-- gives the text of an error, if there is one.
pub record Library (D H : Type 0) : Type 0 where
  pub open_file : Text → D → D × H × Option Text
  pub exec : H → Text → D → D × Option Text
  pub close : H → D → D

pub record SqliteLogger (H : Type 0) : Type 0 where
  pub filename : Text
  pub tablename : Text
  pub table_map : List (Text × FieldType)
  pub database : Option H

-- How the constructor ends: with the logger, or with a `Status` that is thrown.
pub data Built (H : Type 0) : Type 0 where
  built : SqliteLogger H → Built H
  refused : Code → Text → Built H

-- `kSqlMapping[type]`.
unfoldable pub sql_type : FieldType → Text
sql_type integer64 = codes "INT64"
sql_type float = codes "REAL"
sql_type string = codes "TEXT"
sql_type none_type = []

unfoldable pub column_definitions : List (Text × FieldType) → Text
unfolding sql_type
column_definitions [] = []
column_definitions (f ∷ fields) =
    codes ", " ++ (f.0 ++ (codes " " ++ (sql_type (f.1) ++ column_definitions fields)))

unfoldable pub create_statement : Text → List (Text × FieldType) → Text
unfolding column_definitions
create_statement tablename fields =
    codes "CREATE TABLE IF NOT EXISTS "
    ++ (tablename
        ++ (codes "("
            ++ (codes "ID INTEGER PRIMARY KEY"
                ++ (column_definitions fields
                    ++ (codes
                          ", Timestamp DATETIME DEFAULT (strftime('%Y-%m-%d %H:%M:%f', 'now', 'localtime'))"
                        ++ codes ");")))))

-- `table_map_[name] = type`, for each field.
unfoldable pub map_fields :
    List (Text × FieldType) → List (Text × FieldType) → List (Text × FieldType)
map_fields [] table = table
map_fields (f ∷ fields) table = map_fields fields (set_field (f.0) (f.1) table)

-- `if (!text.empty()) text += ","; text += item`.
unfoldable pub add_item : Text → Text → Text
add_item [] item = item
add_item (c ∷ t) item = (c ∷ t) ++ (codes "," ++ item)

module _ {F : Type 0} (float_text : F → Text) where
  unfoldable pub quoted : Value F → Text
  quoted (word t) = codes "'" ++ (t ++ codes "'")
  quoted _ = []

  unfoldable pub stringify : Value F → Text
  unfolding quoted integer_text real_text
  stringify v = elim (type_of v) [
    | integer64 ↦ integer_text float_text v
    | float ↦ real_text float_text v
    | string ↦ quoted v
    | none_type ↦ []
  ]

  -- The loop over the values, with the two texts that it fills.
  unfoldable pub fill : List (Text × Value F) → Text → Text → Text × Text
  fill [] fields values = (fields, values)
  fill (e ∷ vals) fields values =
      fill vals (add_item fields (e.0)) (add_item values (stringify (e.1)))

  unfoldable pub insert_statement : Text → List (Text × Value F) → Text
  insert_statement tablename vals =
      let (fields, values) = fill vals [] [] in
      (codes "INSERT INTO " ++ tablename)
      ++ ((codes " (" ++ (fields ++ codes ") ")) ++ (codes "VALUES (" ++ (values ++ codes ");")))

module _ {D H : Type 0} (api : Library D H) where
  -- The table is made in the open database; an error closes it.
  unfoldable pub make_table : H → SqliteLogger H → List (Text × FieldType) → D → D × Built H
  make_table h l fields d =
      let (d', error) = api.exec h (create_statement l.tablename fields) d in
      elim error [
        | none ↦ (d', built (record l { table_map = map_fields fields []; database = some h }))
        | some msg ↦ (api.close h d', refused logger_cannot_open (codes "Logger Err: " ++ msg))
      ]

  -- The constructor.
  unfoldable pub construct : Text → Text → List (Text × FieldType) → D → D × Built H
  unfolding make_table
  construct filename session fields d =
      let (d', h, error) = api.open_file filename d in
      elim error [
        | none ↦
            make_table h
              (record { filename = filename; tablename = session; table_map = []; database = none })
              fields d'
        | some msg ↦ (d', refused logger_cannot_open msg)
      ]

  -- `InsertRow`: the code and the message of the status that it returns or throws. A logger always
  -- has its database.
  unfoldable pub insert_row :
      {F : Type 0} → (F → Text) → H → SqliteLogger H → List (Text × Value F) → D → D × Code × Text
  insert_row float_text h l vals d =
      let (d', error) = api.exec h (insert_statement float_text l.tablename vals) d in
      elim error [
        | none ↦ (d', ok, [])
        | some msg ↦ (d', logger_cannot_insert, codes "Logger Err: " ++ msg)
      ]

  -- The destructor.
  unfoldable pub destroy : SqliteLogger H → D → D
  destroy l d = elim (l.database) [ none ↦ d | some h ↦ api.close h d ]
