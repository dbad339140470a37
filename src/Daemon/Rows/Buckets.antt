-- ===== src/Daemon/Rows/Buckets.antt =====
-- Which share of the histogram a column of the row gets.
use efimon.Prelude.{
  ℕ, ◌/◌, ◌%◌, ◌^◌, ◌≡◌, refl, sym, ap, ◌∙◌, inl, inr, Bool, true, false, not, ◌&&◌, Option, none,
  some, List, [], ◌∷◌, arith, ◌==◌, if◌then◌else◌, Bool-cases, Text, codes, text_eq, text_eq_refl,
  eq_of_text_eq,
}
use efimon.Float.{Float}
use efimon.Logger.{Value, single_float, find_value}
use efimon.Asm.Kinds.{
  InstructionFamily, memory, arithmetic, logic, branch, jump, other, InstructionType,
}
use efimon.Asm.Kinds.{origin_decomposed, origin_of_bits}
use efimon.Daemon.Columns.{is_memory}
use efimon.Daemon.Columns.{
  Bucket, from_register, mem_load, mem_store, mem_update, bucket_name, bucket_of, has_origins,
  column, bucket_column,
}
use efimon.Daemon.Rows.{put_value, put_origins, origins_of, sum_shares, put_pair}

abbrev number : Bucket → ℕ
number from_register = 0
number mem_load = 1
number mem_store = 2
number mem_update = 3

abbrev pub same_bucket : Bucket → Bucket → Bool
same_bucket b c = number b == number c

-- Whether an origin belongs to a column, from whether its input and its output are memory.
abbrev pub belongs_bits : Bucket → Bool → Bool → Bool
belongs_bits from_register input output = not input && not output
belongs_bits mem_load input output = input && not output
belongs_bits mem_store input output = not input && output
belongs_bits mem_update input output = input && output

-- The two pairs of bits of an origin; 1 stands for memory.
abbrev pub belongs : Bucket → ℕ → Bool
belongs b origin = belongs_bits b (origin % 4 == 1) (origin / 4 % 4 == 1)

abbrev choose : Bool → Bool → Bucket
choose input output =
    if input && output
    then mem_update
    else if input
    then mem_load
    else if output
    then mem_store
    else from_register

choose-belongs_bits :
    (b : Bucket) (input output : Bool)
    → same_bucket b (choose input output) ≡ belongs_bits b input output
choose-belongs_bits from_register input output = ground arith
choose-belongs_bits mem_load input output = ground arith
choose-belongs_bits mem_store input output = ground arith
choose-belongs_bits mem_update input output = ground arith

is_memory-bits : (n : ℕ) → is_memory (origin_of_bits n) ≡ (n == 1)
unfolding is_memory origin_of_bits
is_memory-bits n = ground arith

same_bucket-belongs :
    (b : Bucket) (origin : ℕ) → same_bucket b (bucket_of origin) ≡ belongs b origin
unfolding bucket_of origin_decomposed
same_bucket-belongs b origin =
    let output = is_memory (origin_of_bits (origin / 2 ^ 2 % 4)) in
    let bits : origin / 2 ^ 0 % 4 ≡ origin % 4 = omega arith in
    ap (λ y. same_bucket b (choose y output))
      (is_memory-bits (origin / 2 ^ 0 % 4) ∙ ap (λ y. y == 1) bits)
    ∙ (ap (λ y. same_bucket b (choose (origin % 4 == 1) y)) (is_memory-bits (origin / 2 ^ 2 % 4))
        ∙ choose-belongs_bits b (origin % 4 == 1) (origin / 4 % 4 == 1))

-- The families whose shares go to the columns of their origins.
abbrev pub is_split : InstructionFamily → Bool
is_split memory = true
is_split arithmetic = true
is_split logic = true
is_split _ = false

has_origins-is_split : (f : InstructionFamily) → has_origins f ≡ is_split f
unfolding has_origins
has_origins-is_split memory = refl
has_origins-is_split arithmetic = refl
has_origins-is_split logic = refl
has_origins-is_split branch = refl
has_origins-is_split jump = refl
has_origins-is_split other = refl

-- The columns of a type and a family have different names.
column-same_bucket :
    (b c : Bucket) (t : InstructionType) (f : InstructionFamily)
    → text_eq (bucket_column b t f) (bucket_column c t f) ≡ same_bucket b c
unfolding bucket_column column bucket_name
column-same_bucket from_register from_register t f = text_eq_refl (bucket_column from_register t f)
column-same_bucket from_register mem_load t f = refl
column-same_bucket from_register mem_store t f = refl
column-same_bucket from_register mem_update t f = refl
column-same_bucket mem_load from_register t f = refl
column-same_bucket mem_load mem_load t f = text_eq_refl (bucket_column mem_load t f)
column-same_bucket mem_load mem_store t f = refl
column-same_bucket mem_load mem_update t f = refl
column-same_bucket mem_store from_register t f = refl
column-same_bucket mem_store mem_load t f = refl
column-same_bucket mem_store mem_store t f = text_eq_refl (bucket_column mem_store t f)
column-same_bucket mem_store mem_update t f = refl
column-same_bucket mem_update from_register t f = refl
column-same_bucket mem_update mem_load t f = refl
column-same_bucket mem_update mem_store t f = refl
column-same_bucket mem_update mem_update t f = text_eq_refl (bucket_column mem_update t f)

module _ {F : Type 0} where
  find-put_self :
      (name : Text) (v : Value F) (vals : List (Text × Value F))
      → find_value name (put_value name v vals) ≡ some v
  unfolding find_value put_value
  find-put_self name v [] = rw (text_eq_refl name) refl
  find-put_self name v (e ∷ vals) =
      let ih = find-put_self name v vals in
      elim (Bool-cases (text_eq name (e.0))) [ inl h ↦ ground arith | inr h ↦ ground arith ]

  find-put_ne :
      (name key : Text) (v : Value F) (vals : List (Text × Value F))
      → text_eq name key ≡ false
      → find_value name (put_value key v vals) ≡ find_value name vals
  unfolding find_value put_value
  find-put_ne name key v [] n = ground arith
  find-put_ne name key v (e ∷ vals) n =
      let ih = find-put_ne name key v vals n in
      elim (Bool-cases (text_eq key (e.0))) [
        | inl h ↦
            let apart : text_eq name (e.0) ≡ false =
              ap (text_eq name) (sym (eq_of_text_eq key (e.0) h)) ∙ n in
            ground arith
        | inr h ↦ ground arith
      ]

  -- The later share, or else this one if it belongs to the column.
  abbrev pub later : Option F → Bool → F → Option F
  later (some y) belongs x = some y
  later none true x = some x
  later none false x = none

  -- The share of the last origin that belongs to a column.
  abbrev pub last_share : Bucket → List (ℕ × F) → Option F
  last_share b [] = none
  last_share b (o ∷ os) = later (last_share b os) (belongs b (o.0)) (o.1)

  -- A share that is there, or else what the row has.
  abbrev pub or_else : Option F → Option (Value F) → Option (Value F)
  or_else none v = v
  or_else (some x) v = some (single_float x)

  or_else-later :
      (l : Option F) (belongs : Bool) (x : F) (before now : Option (Value F))
      → ((belongs ≡ true) → now ≡ some (single_float x))
      → ((belongs ≡ false) → now ≡ before)
      → or_else l now ≡ or_else (later l belongs x) before
  or_else-later (some y) belongs x before now h n = refl
  or_else-later none true x before now h n = h refl
  or_else-later none false x before now h n = n refl

  find-put_same :
      (b c : Bucket) (t : InstructionType) (f : InstructionFamily) (v : Value F)
      (vals : List (Text × Value F))
      → same_bucket b c ≡ true
      → find_value (bucket_column b t f) (put_value (bucket_column c t f) v vals) ≡ some v
  find-put_same b c t f v vals h =
      let same : bucket_column b t f ≡ bucket_column c t f =
        eq_of_text_eq (bucket_column b t f) (bucket_column c t f)
          (column-same_bucket b c t f ∙ h) in
      ap (λ y. find_value y (put_value (bucket_column c t f) v vals)) same
      ∙ find-put_self (bucket_column c t f) v vals

  put_origins-last :
      (b : Bucket) (t : InstructionType) (f : InstructionFamily) (os : List (ℕ × F))
      (vals : List (Text × Value F))
      → find_value (bucket_column b t f) (put_origins t f os vals)
        ≡ or_else (last_share b os) (find_value (bucket_column b t f) vals)
  unfolding put_origins
  put_origins-last b t f [] vals = refl
  put_origins-last b t f (o ∷ os) vals =
      let c = bucket_of (o.0) in
      let v = single_float (o.1) in
      put_origins-last b t f os (put_value (bucket_column c t f) v vals)
      ∙ or_else-later (last_share b os) (belongs b (o.0)) (o.1)
          (find_value (bucket_column b t f) vals)
          (find_value (bucket_column b t f) (put_value (bucket_column c t f) v vals))
          (λ h. find-put_same b c t f v vals (same_bucket-belongs b (o.0) ∙ h))
          (λ h.
            find-put_ne (bucket_column b t f) (bucket_column c t f) v vals
              (column-same_bucket b c t f ∙ (same_bucket-belongs b (o.0) ∙ h)))

module _ {F : Type 0} (d : Float F) (arrange : List (ℕ × F) → List (ℕ × F)) where
  open d use {of_ℕ, add, single}

  -- The shares, added to a sum one after the other.
  abbrev pub added : F → List (ℕ × F) → F
  added sum [] = sum
  added sum (o ∷ os) = added (single (add sum (o.1))) os

  sum_shares-added : (sum : F) (os : List (ℕ × F)) → sum_shares d arrange sum os ≡ added sum os
  unfolding sum_shares
  sum_shares-added sum [] = refl
  sum_shares-added sum (o ∷ os) = sum_shares-added (single (add sum (o.1))) os

  -- For an arithmetic, logic or memory family, each of the four columns gets the share of the last
  -- origin that belongs to it, whatever the shares of the others, and keeps what it has if there is
  -- none; for another family the one column gets the sum of the shares of all origins.
  pub put_pair-shares :
      (classification : List (ℕ × List (ℕ × List (ℕ × F)))) (t : InstructionType)
      (f : InstructionFamily) (b : Bucket) (vals : List (Text × Value F))
      → let os = arrange (origins_of t f classification) in
        find_value
          (if is_split f then bucket_column b t f else column (codes "Probability") t f)
          (put_pair d arrange classification t f vals)
        ≡ (if is_split f
            then or_else (last_share b os) (find_value (bucket_column b t f) vals)
            else some (single_float (added (of_ℕ 0) os)))
  unfolding put_pair
  put_pair-shares classification t f b vals =
      let os = arrange (origins_of t f classification) in
      let same = has_origins-is_split f in
      let sum = sum_shares-added (of_ℕ 0) os in
      elim (Bool-cases (is_split f)) [
        | inl h ↦ rw (same, h) (put_origins-last b t f os vals)
        | inr h ↦
            rw (same, h)
              (find-put_self (column (codes "Probability") t f)
                  (single_float (sum_shares d arrange (of_ℕ 0) os)) vals
                ∙ ap (λ x. some (single_float x)) sum)
      ]
