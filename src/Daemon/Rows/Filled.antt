-- ===== src/Daemon/Rows/Filled.antt =====
-- What the loops of a row put into its values has columns.
use efimon.Prelude.{
  ℕ, zero, suc, ◌+◌, ◌<◌, ◌≡◌, ◌≢◌, inl, inr, true, List, [], ◌∷◌, ◌++◌, arith, Bool-cases,
  Option-cases, get_elem?, All, Text, codes, to_string,
}
use efimon.Float.{Float}
use efimon.Outcome.{returns}
use efimon.Logger.{FieldType, Value, single_float}
use efimon.Asm.Kinds.{InstructionFamily, other, InstructionType}
use efimon.Daemon.Columns.{
  Bucket, bucket_of, has_origins, column, bucket_column, types, families, indexed_fields,
  type_fields,
}
use efimon.Daemon.Rows.{
  put_value, put_indexed, put_origins, origins_of, put_pair, put_families, put_types,
}
use efimon.Daemon.Rows.Names.{has_column, has-indexed, has-bucket, has-plain}

module _ {F : Type 0} where
  -- Each value has a column.
  abbrev pub AreKnown : List (Text × FieldType) → List (Text × Value F) → Type 0
  AreKnown table vals = All (λ e. has_column (e.0) table ≡ true) vals

  pub put-AreKnown :
      (table : List (Text × FieldType)) (name : Text) (v : Value F) (vals : List (Text × Value F))
      → has_column name table ≡ true
      → AreKnown table vals
      → AreKnown table (put_value name v vals)
  unfolding put_value
  put-AreKnown table name v [] h k = (h, tt)
  put-AreKnown table name v (e ∷ vals) h k =
      let ih = put-AreKnown table name v vals h (k.1) in ground arith

  indexed-AreKnown :
      (table : List (Text × FieldType)) (name : Text) (xs : List F) (left i : ℕ)
      (vals vals' : List (Text × Value F))
      → ((j : ℕ) → j < i + left → has_column (name ++ to_string j) table ≡ true)
      → AreKnown table vals
      → put_indexed name xs left i vals ≡ returns vals'
      → AreKnown table vals'
  unfolding put_indexed
  indexed-AreKnown table name xs zero i vals vals' h k e = ground arith
  indexed-AreKnown table name xs (suc left) i vals vals' h k e =
      elim (Option-cases (get_elem? xs i)) [
        | inl n ↦ absurd (ground arith)
        | inr (x, s) ↦
            indexed-AreKnown table name xs left (i + 1)
              (put_value (name ++ to_string i) (single_float x) vals) vals'
              (λ j lt. h j (omega arith))
              (put-AreKnown table (name ++ to_string i) (single_float x) vals (h i (omega arith)) k)
              (rw (s, put_indexed) at e)
      ]

  origins-AreKnown :
      (table : List (Text × FieldType)) (t : InstructionType) (f : InstructionFamily)
      (os : List (ℕ × F)) (vals : List (Text × Value F))
      → ((b : Bucket) → has_column (bucket_column b t f) table ≡ true)
      → AreKnown table vals
      → AreKnown table (put_origins t f os vals)
  unfolding put_origins
  origins-AreKnown table t f [] vals h k = k
  origins-AreKnown table t f (o ∷ os) vals h k =
      origins-AreKnown table t f os
        (put_value (bucket_column (bucket_of (o.0)) t f) (single_float (o.1)) vals) h
        (put-AreKnown table (bucket_column (bucket_of (o.0)) t f) (single_float (o.1)) vals
          (h (bucket_of (o.0))) k)

module _ {F : Type 0} (d : Float F) (arrange : List (ℕ × F) → List (ℕ × F)) where
  -- The columns of all types and families are among those of a table.
  abbrev pub HasTypes : List (Text × FieldType) → Type 0
  HasTypes table =
      (name : Text) → has_column name (type_fields types) ≡ true → has_column name table ≡ true

  pair-AreKnown :
      (table : List (Text × FieldType)) (classification : List (ℕ × List (ℕ × List (ℕ × F))))
      (t : InstructionType) (f : InstructionFamily) (vals : List (Text × Value F))
      → HasTypes table
      → f ≢ other
      → AreKnown table vals
      → AreKnown table (put_pair d arrange classification t f vals)
  unfolding put_pair
  pair-AreKnown table classification t f vals all n k = elim (Bool-cases (has_origins f)) [
    | inl h ↦ rw h (
        origins-AreKnown table t f (arrange (origins_of t f classification)) vals
          (λ b. all (bucket_column b t f) (has-bucket b t f n h)) k)
    | inr h ↦ rw h (
        put-AreKnown table (column (codes "Probability") t f) _ vals
          (all (column (codes "Probability") t f) (has-plain t f n h)) k)
  ]

  families-AreKnown :
      (table : List (Text × FieldType)) (classification : List (ℕ × List (ℕ × List (ℕ × F))))
      (t : InstructionType) (fs : List InstructionFamily) (vals : List (Text × Value F))
      → HasTypes table
      → All (λ f. f ≢ other) fs
      → AreKnown table vals
      → AreKnown table (put_families d arrange classification t fs vals)
  unfolding put_families
  families-AreKnown table classification t [] vals all n k = k
  families-AreKnown table classification t (f ∷ fs) vals all n k =
      families-AreKnown table classification t fs (put_pair d arrange classification t f vals) all
        (n.1) (pair-AreKnown table classification t f vals all (n.0) k)

  pub types-AreKnown :
      (table : List (Text × FieldType)) (classification : List (ℕ × List (ℕ × List (ℕ × F))))
      (ts : List InstructionType) (vals : List (Text × Value F))
      → HasTypes table
      → AreKnown table vals
      → AreKnown table (put_types d arrange classification ts vals)
  unfolding put_types
  types-AreKnown table classification [] vals all k = k
  types-AreKnown table classification (t ∷ ts) vals all k =
      types-AreKnown table classification ts (put_families d arrange classification t families vals)
        all
        (families-AreKnown table classification t families vals all
          ((λ e. cc), ((λ e. cc), ((λ e. cc), ((λ e. cc), ((λ e. cc), tt))))) k)

  -- The columns of a part are among those of the table.
  abbrev pub Includes : List (Text × FieldType) → List (Text × FieldType) → Type 0
  Includes part table = (name : Text) → has_column name part ≡ true → has_column name table ≡ true

  pub put-indexed_range :
      (table : List (Text × FieldType)) (name : Text) (n : ℕ) (xs : List F) (count : ℕ)
      (vals vals' : List (Text × Value F))
      → Includes (indexed_fields name n 0) table
      → count ≡ n
      → AreKnown table vals
      → put_indexed name xs count 0 vals ≡ returns vals'
      → AreKnown table vals'
  put-indexed_range table name n xs count vals vals' part same k e =
      indexed-AreKnown table name xs count 0 vals vals'
        (λ j lt. part (name ++ to_string j) (has-indexed name n 0 j (omega arith) (omega arith))) k
        e
