-- ===== src/Logger/Sqlite/Statements.antt =====
-- The statement that inserts a row, against its grammar.
use efimon.Prelude.{
  ℕ, ◌≡◌, refl, ◌∙◌, ◌≢◌, true, false, List, [], ◌∷◌, ◌++◌, All, Text, codes, to_string,
}
use mathlib.Core.List.{append_assoc}
use efimon.Logger.{
  none_type, Value, int64, uint64, other_integral, single_float, other_float, word, binary, type_of,
}
use efimon.Logger.Sqlite.{add_item, stringify, fill, insert_statement}
use efimon.Proc.Machine.Numbers.{to_string-cons}

-- Items with a comma between each two.
abbrev pub separated : List Text → Text
separated [] = []
separated (t ∷ []) = t
separated (t ∷ u ∷ ts) = t ++ (codes "," ++ separated (u ∷ ts))

abbrev followed : Text → List Text → Text
followed t [] = t
followed t (u ∷ us) = t ++ (codes "," ++ separated (u ∷ us))

abbrev IsFull : Text → Type 0
IsFull t = t ≢ []

add_item_full : (t item : Text) → IsFull t → add_item t item ≡ t ++ (codes "," ++ item)
unfolding add_item
add_item_full [] item h = absurd (h refl)
add_item_full (c ∷ t) item h = refl

append-IsFull : (s t : Text) → IsFull s → IsFull (s ++ t)
append-IsFull [] t h = λ e. h refl
append-IsFull (c ∷ s) t h = λ e. cc

followed-append :
    (t u : Text) (us : List Text) → followed (t ++ (codes "," ++ u)) us ≡ followed t (u ∷ us)
followed-append t u [] = refl
followed-append t u (v ∷ us) = append_assoc t (codes "," ++ u) (codes "," ++ separated (v ∷ us))

abbrev pub names : {F : Type 0} → List (Text × Value F) → List Text
names [] = []
names (e ∷ vals) = e.0 ∷ names vals

followed-separated : (t : Text) (us : List Text) → followed t us ≡ separated (t ∷ us)
followed-separated t [] = refl
followed-separated t (u ∷ us) = refl

pub to_string-IsFull : (n : ℕ) → IsFull (to_string n)
to_string-IsFull n = let (c, s, e, _, _, _) = to_string-cons n in λ h. absurd (cc)

module _ {F : Type 0} (float_text : F → Text) where
  -- A column has a name and its value a type that the logger writes.
  abbrev pub IsWritable : Text × Value F → Type 0
  IsWritable e = (e.0 ≢ []) × (type_of (e.1) ≢ none_type)

  abbrev pub texts : List (Text × Value F) → List Text
  texts [] = []
  texts (e ∷ vals) = stringify float_text (e.1) ∷ texts vals

  stringify-IsFull :
      ((x : F) → float_text x ≢ [])
      → (v : Value F) → type_of v ≢ none_type
      → IsFull (stringify float_text v)
  unfolding stringify type_of
  stringify-IsFull f (int64 false n) h = to_string-IsFull n
  stringify-IsFull f (int64 true n) h = λ e. cc
  stringify-IsFull f (uint64 n) h = to_string-IsFull n
  stringify-IsFull f other_integral h = λ e. cc
  stringify-IsFull f (single_float x) h = f x
  stringify-IsFull f other_float h = λ e. cc
  stringify-IsFull f (word t) h = λ e. cc
  stringify-IsFull f binary h = absurd (h refl)

  fill-followed :
      ((x : F) → float_text x ≢ [])
      → (vals : List (Text × Value F)) (fields values : Text) → All IsWritable vals
      → IsFull fields
      → IsFull values
      → fill float_text vals fields values
        ≡ (followed fields (names vals), followed values (texts vals))
  unfolding fill
  fill-followed f [] fields values h a b = refl
  fill-followed f (e ∷ vals) fields values h a b =
      let v = stringify float_text (e.1) in
      let ih =
        fill-followed f vals (fields ++ (codes "," ++ e.0)) (values ++ (codes "," ++ v)) (h.1)
          (append-IsFull fields (codes "," ++ e.0) a) (append-IsFull values (codes "," ++ v) b) in
      rw (add_item_full fields (e.0) a, add_item_full values v b)
        (ih ∙ λ i.
          (followed-append fields (e.0) (names vals) i, followed-append values v (texts vals) i))

  fill-separated :
      ((x : F) → float_text x ≢ [])
      → (vals : List (Text × Value F)) → All IsWritable vals
      → fill float_text vals [] [] ≡ (separated (names vals), separated (texts vals))
  unfolding fill add_item
  fill-separated f [] h = refl
  fill-separated f (e ∷ vals) h =
      let v = stringify float_text (e.1) in
      fill-followed f vals (e.0) v (h.1) (h.0.0) (stringify-IsFull f (e.1) (h.0.1)) ∙ λ i.
      (followed-separated (e.0) (names vals) i, followed-separated v (texts vals) i)

  -- The statement names the columns and then gives as many values in the same order, with a comma
  -- between each two, if no column's name and no number's text is empty and every value has a type
  -- that the logger writes.
  pub insert_statement-separated :
      ((x : F) → float_text x ≢ [])
      → (tablename : Text) (vals : List (Text × Value F)) → All IsWritable vals
      → insert_statement float_text tablename vals
        ≡ codes "INSERT INTO "
          ++ (tablename
              ++ (codes " ("
                  ++ (separated (names vals)
                      ++ (codes ") VALUES (" ++ (separated (texts vals) ++ codes ");")))))
  unfolding insert_statement
  insert_statement-separated f tablename vals h = rw (fill-separated f vals h) (simp append_assoc)
