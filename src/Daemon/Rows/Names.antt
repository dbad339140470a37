-- ===== src/Daemon/Rows/Names.antt =====
-- The names among the columns of the log.
use efimon.Prelude.{
  ℕ, zero, suc, ◌+◌, ◌≤◌, ◌<◌, ◌≡◌, refl, sym, subst, ◌≢◌, inl, inr, Bool, true, false, some, List,
  [], ◌∷◌, ◌++◌, arith, ◌==◌, Bool-cases, get_elem?, any, Text, codes, text_eq, text_eq_refl,
  to_string,
}
use efimon.Logger.{FieldType}
use efimon.Asm.Kinds.{
  InstructionFamily, arithmetic, logic, memory, branch, jump, other, InstructionType, scalar,
  vector, unclassified,
}
use efimon.Daemon.Columns.{
  Bucket, from_register, mem_load, mem_store, mem_update, has_origins, column, bucket_column, types,
  families, indexed_fields, pair_fields, family_fields, type_fields,
}

-- A column of that name.
abbrev pub has_column : Text → List (Text × FieldType) → Bool
has_column name table = any (λ e. text_eq name (e.0)) table

pub has-append_left :
    (name : Text) (a b : List (Text × FieldType))
    → has_column name a ≡ true
    → has_column name (a ++ b) ≡ true
has-append_left name [] b h = cc
has-append_left name (e ∷ a) b h = let ih = has-append_left name a b in ground arith

pub has-append_right :
    (name : Text) (a b : List (Text × FieldType))
    → has_column name b ≡ true
    → has_column name (a ++ b) ≡ true
has-append_right name [] b h = h
has-append_right name (e ∷ a) b h = let ih = has-append_right name a b h in ground arith

-- The number of a name is in the range of the columns.
pub has-indexed :
    (name : Text) (left k i : ℕ)
    → k ≤ i
    → i < k + left
    → has_column (name ++ to_string i) (indexed_fields name left k) ≡ true
unfolding indexed_fields
has-indexed name zero k i le lt = absurd (omega arith)
has-indexed name (suc left) k i le lt = elim (Bool-cases (i == k)) [
  | inl h ↦
      let same : i ≡ k = ground arith in
      let first = text_eq_refl (name ++ to_string k) in
      subst (λ j. has_column (name ++ to_string j) (indexed_fields name (suc left) k) ≡ true)
        (sym same) (ground arith)
  | inr h ↦ let ih = has-indexed name left (k + 1) i (ground arith) (omega arith) in ground arith
]

-- The columns of a type and a family are among the columns of all.
has-family_at :
    (name : Text) (t : InstructionType) (f : InstructionFamily) (fs : List InstructionFamily)
    (i : ℕ)
    → get_elem? fs i ≡ some f
    → has_column name (pair_fields t f) ≡ true
    → has_column name (family_fields t fs) ≡ true
unfolding family_fields
has-family_at name t f [] i e h = cc
has-family_at name t f (x ∷ fs) zero e h =
    let same : f ≡ x = cc in
    has-append_left name (pair_fields t x) (family_fields t fs)
      (subst (λ y. has_column name (pair_fields t y) ≡ true) same h)
has-family_at name t f (x ∷ fs) (suc i) e h =
    has-append_right name (pair_fields t x) (family_fields t fs) (has-family_at name t f fs i e h)

has-type_at :
    (name : Text) (t : InstructionType) (ts : List InstructionType) (i : ℕ)
    → get_elem? ts i ≡ some t
    → has_column name (family_fields t families) ≡ true
    → has_column name (type_fields ts) ≡ true
unfolding type_fields
has-type_at name t [] i e h = cc
has-type_at name t (x ∷ ts) zero e h =
    let same : t ≡ x = cc in
    has-append_left name (family_fields x families) (type_fields ts)
      (subst (λ y. has_column name (family_fields y families) ≡ true) same h)
has-type_at name t (x ∷ ts) (suc i) e h =
    has-append_right name (family_fields x families) (type_fields ts) (has-type_at name t ts i e h)

has-family :
    (name : Text) (t : InstructionType) (f : InstructionFamily)
    → f ≢ other
    → has_column name (pair_fields t f) ≡ true
    → has_column name (family_fields t families) ≡ true
has-family name t arithmetic n h = has-family_at name t arithmetic families 0 refl h
has-family name t logic n h = has-family_at name t logic families 1 refl h
has-family name t memory n h = has-family_at name t memory families 2 refl h
has-family name t branch n h = has-family_at name t branch families 3 refl h
has-family name t jump n h = has-family_at name t jump families 4 refl h
has-family name t other n h = absurd (n refl)

has-type :
    (name : Text) (t : InstructionType)
    → has_column name (family_fields t families) ≡ true
    → has_column name (type_fields types) ≡ true
has-type name scalar h = has-type_at name scalar types 0 refl h
has-type name vector h = has-type_at name vector types 1 refl h
has-type name unclassified h = has-type_at name unclassified types 2 refl h

has-pair :
    (b : Bucket) (t : InstructionType) (f : InstructionFamily)
    → has_origins f ≡ true
    → has_column (bucket_column b t f) (pair_fields t f) ≡ true
unfolding pair_fields
has-pair from_register t f h =
    let e = text_eq_refl (bucket_column from_register t f) in ground arith
has-pair mem_load t f h = let e = text_eq_refl (bucket_column mem_load t f) in ground arith
has-pair mem_store t f h = let e = text_eq_refl (bucket_column mem_store t f) in ground arith
has-pair mem_update t f h = let e = text_eq_refl (bucket_column mem_update t f) in ground arith

pub has-bucket :
    (b : Bucket) (t : InstructionType) (f : InstructionFamily)
    → f ≢ other
    → has_origins f ≡ true
    → has_column (bucket_column b t f) (type_fields types) ≡ true
has-bucket b t f n h =
    has-type (bucket_column b t f) t (has-family (bucket_column b t f) t f n (has-pair b t f h))

pub has-plain :
    (t : InstructionType) (f : InstructionFamily)
    → f ≢ other
    → has_origins f ≡ false
    → has_column (column (codes "Probability") t f) (type_fields types) ≡ true
has-plain t f n h =
    let name = column (codes "Probability") t f in
    let here : has_column name (pair_fields t f) ≡ true =
      unfold pair_fields in rw h (let e = text_eq_refl name in ground arith) in
    has-type name t (has-family name t f n here)
