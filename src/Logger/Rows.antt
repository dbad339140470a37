-- ===== src/Logger/Rows.antt =====
-- The shape of the file that the logger writes.
use efimon.Prelude.{
  ℕ, suc, ◌+◌, ◌%◌, ◌^◌, ◌≡◌, refl, sym, ap, subst, ◌∙◌, inl, inr, Bool, true, false, some, List,
  [], ◌∷◌, ◌++◌, arith, ◌==◌, if◌then◌else◌, Bool-cases, Option-cases, length, All, length-append,
  All-append, Text, codes, text_eq, to_string,
}
use mathlib.Core.List.{append-nil, append_assoc}
use efimon.Outcome.{returns}
use efimon.Prelude.{IsDigit, to_string-IsDigit}
use efimon.Logger.{
  FieldType, none_type, integer64, float, string, Value, CsvLogger, find_value, write_names,
  construct, stringify, default_cell, cell, write_cells, insert_row, ended, file_text,
}

-- How many bytes of a text are the given one.
abbrev pub count : ℕ → Text → ℕ
count b [] = 0
count b (c ∷ t) = if c == b then suc (count b t) else count b t

abbrev pub commas : Text → ℕ
commas = count 44

abbrev pub line_ends : Text → ℕ
line_ends = count 10

-- No separator and no line end.
abbrev pub IsCell : Text → Type 0
IsCell t = (commas t ≡ 0) × (line_ends t ≡ 0)

-- A number of separators and no line end.
abbrev IsRow : ℕ → Text → Type 0
IsRow n t = (commas t ≡ n) × (line_ends t ≡ 0)

count-append : (b : ℕ) (s t : Text) → count b (s ++ t) ≡ count b s + count b t
count-append b [] t = omega arith
count-append b (c ∷ s) t = let ih = count-append b s t in ground arith

cell-IsRow : (n : ℕ) (s t : Text) → IsCell s → IsRow n t → IsRow n (s ++ t)
cell-IsRow n s t (a, x) (b, y) =
    let p = count-append 44 s t in let q = count-append 10 s t in (omega arith, omega arith)

comma-IsRow : (n : ℕ) (t : Text) → IsRow n t → IsRow (suc n) (codes "," ++ t)
comma-IsRow n t (a, x) = (ap suc a, x)

IsCell-digits : (t : Text) → All IsDigit t → IsCell t
IsCell-digits [] h = (refl, refl)
IsCell-digits (c ∷ t) h = let (x, y) = IsCell-digits t (h.1) in (ground arith, ground arith)

pub IsCell-to_string : (n : ℕ) → IsCell (to_string n)
IsCell-to_string n = IsCell-digits (to_string n) (to_string-IsDigit n)

-- No name of a column has a separator or a line end.
abbrev pub ArePlain : List (Text × FieldType) → Type 0
ArePlain [] = Unit
ArePlain (e ∷ table) = IsCell (e.0) × ArePlain table

write_names-IsRow :
    (table : List (Text × FieldType)) → ArePlain table → IsRow (length table) (write_names table)
unfolding write_names
write_names-IsRow [] h = (refl, refl)
write_names-IsRow (e ∷ table) h =
    comma-IsRow (length table) (e.0 ++ write_names table)
      (cell-IsRow (length table) (e.0) (write_names table) (h.0) (write_names-IsRow table (h.1)))

-- What `std::getline` reads from a text; the first argument is the line so far.
abbrev pub split_lines : Text → Text → List Text
split_lines [] [] = []
split_lines (p ∷ line) [] = (p ∷ line) ∷ []
split_lines line (c ∷ s) =
    if c == 10 then line ∷ split_lines [] s else split_lines (line ++ (c ∷ [])) s

abbrev pub lines_of : Text → List Text
lines_of t = split_lines [] t

no_line_end : (c : ℕ) (t : Text) → line_ends (c ∷ t) ≡ 0 → ((c == 10) ≡ false) × (line_ends t ≡ 0)
no_line_end c t h = elim (Bool-cases (c == 10)) [
  | inl y ↦ absurd (ground arith)
  | inr y ↦ (y, ground arith)
]

split_lines-ended :
    (line t rest : Text)
    → line_ends t ≡ 0
    → split_lines line (t ++ (10 ∷ rest)) ≡ (line ++ t) ∷ split_lines [] rest
split_lines-ended line [] rest h = ap (λ x. x ∷ split_lines [] rest) (sym (append-nil line))
split_lines-ended line (c ∷ t) rest h =
    let (other, none_left) = no_line_end c t h in
    rw other (
      split_lines-ended (line ++ (c ∷ [])) t rest none_left
      ∙ ap (λ x. x ∷ split_lines [] rest) (append_assoc line (c ∷ []) t))

lines_of-ended : (ts : List Text) → All (λ t. line_ends t ≡ 0) ts → lines_of (ended ts) ≡ ts
unfolding ended
lines_of-ended [] h = refl
lines_of-ended (t ∷ ts) h =
    split_lines-ended [] t (ended ts) (h.0) ∙ ap (◌∷◌ t) (lines_of-ended ts (h.1))

module _ {F : Type 0} (float_text : F → Text) where
  -- The text of the value has no separator and no line end.
  abbrev pub IsPlain : Text × Value F → Type 0
  IsPlain e = IsCell (stringify float_text (e.1))

  stringify-IsCell :
      (name : Text) (vals : List (Text × Value F)) (v : Value F)
      → All IsPlain vals
      → find_value name vals ≡ some v
      → IsCell (stringify float_text v)
  unfolding find_value
  stringify-IsCell name [] v h e = absurd (ground arith)
  stringify-IsCell name (x ∷ vals) v h e = elim (Bool-cases (text_eq name (x.0))) [
    | inl b ↦
        let same : x.1 ≡ v = ground arith in subst (λ y. IsCell (stringify float_text y)) same (h.0)
    | inr b ↦ stringify-IsCell name vals v (h.1) (ground arith)
  ]

  default_cell-IsCell : (t : FieldType) → IsCell (default_cell float_text t)
  unfolding default_cell
  default_cell-IsCell integer64 = (refl, refl)
  default_cell-IsCell float = (refl, refl)
  default_cell-IsCell string = (refl, refl)
  default_cell-IsCell none_type = (refl, refl)

  cell-IsCell :
      (e : Text × FieldType) (vals : List (Text × Value F))
      → All IsPlain vals
      → IsCell (cell float_text e vals)
  unfolding cell
  cell-IsCell e vals h = elim (Option-cases (find_value (e.0) vals)) [
    | inl n ↦ rw (n, cell) (default_cell-IsCell (e.1))
    | inr (v, s) ↦ rw (s, cell) (stringify-IsCell (e.0) vals v h s)
  ]

  write_cells-IsRow :
      (table : List (Text × FieldType)) (vals : List (Text × Value F))
      → All IsPlain vals
      → IsRow (length table) (write_cells float_text table vals)
  unfolding write_cells
  write_cells-IsRow [] vals h = (refl, refl)
  write_cells-IsRow (e ∷ table) vals h =
      comma-IsRow (length table) (cell float_text e vals ++ write_cells float_text table vals) (
        cell-IsRow (length table) (cell float_text e vals) (write_cells float_text table vals)
          (cell-IsCell e vals h) (write_cells-IsRow table vals h))

  -- The rows of a list, one after the other.
  abbrev pub insert_all : List (List (Text × Value F)) → CsvLogger → CsvLogger
  insert_all [] l = l
  insert_all (vals ∷ rows) l = insert_all rows (insert_row float_text vals l).0

  -- Each record is one line and has as many separators as there are columns.
  abbrev IsGrid : CsvLogger → Type 0
  IsGrid l = All (IsRow (length l.table)) l.records

  pub insert_row-opened :
      (vals : List (Text × Value F)) (l : CsvLogger)
      → l.opened ≡ true
      → (insert_row float_text vals l).0 ≡ record l {
        records = l.records ++ ((to_string l.last_id ++ write_cells float_text l.table vals) ∷ []);
        last_id = (l.last_id + 1) % 2 ^ 64;
      }
  unfolding insert_row
  insert_row-opened vals l o = ground arith

  -- What holds of a logger and of the number of its records.
  abbrev IsGrown : List (Text × FieldType) → ℕ → CsvLogger → Type 0
  IsGrown table n l = IsGrid l × (l.opened ≡ true) × (l.table ≡ table) × (length l.records ≡ n)

  insert_row-IsGrown :
      (vals : List (Text × Value F)) (l : CsvLogger)
      → l.opened ≡ true
      → All IsPlain vals
      → IsGrid l
      → IsGrown l.table (suc (length l.records)) (insert_row float_text vals l).0
  insert_row-IsGrown vals l o h r =
      let row = to_string l.last_id ++ write_cells float_text l.table vals in
      let count = length-append l.records (row ∷ []) in
      subst (IsGrown l.table (suc (length l.records))) (sym (insert_row-opened vals l o)) (
        All-append (IsRow (length l.table)) l.records (row ∷ []) r (
          cell-IsRow (length l.table) (to_string l.last_id) _ (IsCell-to_string l.last_id)
              (write_cells-IsRow l.table vals h),
          tt,
        ),
        o,
        refl,
        omega arith,
      )

  insert_all-IsGrown :
      (rows : List (List (Text × Value F))) (l : CsvLogger)
      → l.opened ≡ true
      → All (All IsPlain) rows
      → IsGrid l
      → IsGrown l.table (length rows + length l.records) (insert_all rows l)
  insert_all-IsGrown [] l o h r = (r, o, refl, omega arith)
  insert_all-IsGrown (vals ∷ rows) l o h r =
      let (r1, o1, t1, n1) = insert_row-IsGrown vals l o (h.0) r in
      let (r2, o2, t2, n2) = insert_all-IsGrown rows (insert_row float_text vals l).0 o1 (h.1) r1 in
      (r2, o2, t2 ∙ t1, omega arith)

  construct-returns :
      (arrange : List (Text × FieldType) → List (Text × FieldType)) (opens : Bool)
      (fields : List (Text × FieldType)) (l : CsvLogger)
      → construct arrange opens fields ≡ returns l
      → (l.opened ≡ true) × (l.records ≡ (codes "ID" ++ write_names l.table) ∷ [])
  unfolding construct
  construct-returns arrange opens fields l e = ground arith

  commas-IsGrid :
      (n : ℕ) (ts : List Text)
      → All (IsRow n) ts
      → All (λ t. commas t ≡ n) ts × All (λ t. line_ends t ≡ 0) ts
  commas-IsGrid n [] h = (tt, tt)
  commas-IsGrid n (t ∷ ts) h = let (a, b) = commas-IsGrid n ts (h.1) in ((h.0.0, a), (h.0.1, b))

  -- From a constructor that returns, with no separator and no line end in the names of the columns
  -- and in the texts of the values, each insertion of a row adds one line to the file, and every line
  -- that is read from the file, the header's too, has as many separators as there are columns.
  pub insert_all-IsRectangular :
      (arrange : List (Text × FieldType) → List (Text × FieldType)) (opens : Bool)
      (fields : List (Text × FieldType)) (l : CsvLogger) (rows : List (List (Text × Value F)))
      → construct arrange opens fields ≡ returns l
      → ArePlain l.table
      → All (All IsPlain) rows
      → let l' = insert_all rows l in
        let lines = lines_of (file_text l') in
        All (λ line. commas line ≡ length l.table) lines × (length lines ≡ suc (length rows))
  unfolding file_text
  insert_all-IsRectangular arrange opens fields l rows e p h =
      let (o, start) = construct-returns arrange opens fields l e in
      let r : IsGrid l = subst (All (IsRow (length l.table))) (sym start) (
        cell-IsRow (length l.table) (codes "ID") (write_names l.table) (refl, refl)
            (write_names-IsRow l.table p),
        tt,
      ) in
      let (r', o', t', n') = insert_all-IsGrown rows l o h r in
      let one : length l.records ≡ 1 = ap length start in
      let grid : All (IsRow (length l.table)) (insert_all rows l).records =
        subst (λ t. All (IsRow (length t)) (insert_all rows l).records) t' r' in
      let (c, ends) = commas-IsGrid (length l.table) (insert_all rows l).records grid in
      let same = lines_of-ended (insert_all rows l).records ends in
      (
        subst (All (λ line. commas line ≡ length l.table)) (sym same) c,
        ap length same ∙ omega arith,
      )
