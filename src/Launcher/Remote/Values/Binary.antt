-- ===== src/Launcher/Remote/Values/Binary.antt =====
-- JSON values in a binary form, which is read back.
use efimon.Prelude.{
  ℕ, zero, suc, ◌+◌, ◌≤◌, ◌<◌, ◌≡◌, refl, Bool, true, false, List, [], ◌∷◌, arith, ◌==◌,
  if◌then◌else◌, length, drop, Text,
}

mutual
  pub data Value : Type 0 where
    nothing : Value
    truth : Bool → Value
    number : ℕ → Value
    word : Text → Value
    document : Fields → Value

  pub data Fields : Type 0 where
    end : Fields
    field : Text → Value → Fields → Fields

write_text : Text → List ℕ → List ℕ
write_text [] rest = 0 ∷ rest
write_text (c ∷ t) rest = 1 ∷ c ∷ write_text t rest

abbrev flag : Bool → ℕ
flag true = 1
flag false = 0

mutual
  unfolding write_text

  pub write_value : Value → List ℕ → List ℕ
  write_value nothing rest = 0 ∷ rest
  write_value (truth b) rest = 1 ∷ flag b ∷ rest
  write_value (number n) rest = 2 ∷ n ∷ rest
  write_value (word t) rest = 3 ∷ write_text t rest
  write_value (document fs) rest = 4 ∷ write_fields fs rest

  pub write_fields : Fields → List ℕ → List ℕ
  write_fields end rest = 0 ∷ rest
  write_fields (field k v fs) rest = 1 ∷ write_text k (write_value v (write_fields fs rest))

read_text : List ℕ → Text × List ℕ
read_text [] = ([], [])
read_text (x ∷ []) = ([], [])
read_text (x ∷ c ∷ rest) =
    let r = read_text rest in if x == 0 then ([], c ∷ rest) else (c ∷ r.0, r.1)

read_text-write : (t rest : List ℕ) → read_text (write_text t rest) ≡ (t, rest)
unfolding read_text write_text
read_text-write [] [] = refl
read_text-write [] (x ∷ rest) = refl
read_text-write (c ∷ t) rest = rw (read_text-write t rest) refl

abbrev head : List ℕ → ℕ
head [] = 0
head (x ∷ xs) = x

mutual
  unfolding read_text

  pub read_value : ℕ → List ℕ → Value × List ℕ
  read_value zero t = (nothing, t)
  read_value (suc f) [] = (nothing, [])
  read_value (suc f) (x ∷ t) =
      let d : Value × List ℕ = (let r = read_fields f t in (document r.0, r.1)) in
      if x == 0
      then (nothing, t)
      else if x == 1
      then (truth (head t == 1), drop 1 t)
      else if x == 2
      then (number (head t), drop 1 t)
      else if x == 3
      then (word (read_text t).0, (read_text t).1)
      else d

  pub read_fields : ℕ → List ℕ → Fields × List ℕ
  read_fields zero t = (end, t)
  read_fields (suc f) [] = (end, [])
  read_fields (suc f) (x ∷ t) =
      let d : Fields × List ℕ =
        (let v = read_value f (read_text t).1 in
          let r = read_fields f v.1 in (field (read_text t).0 v.0 r.0, r.1)) in
      if x == 0 then (end, t) else d

mutual
  pub size : Value → ℕ
  size (document fs) = size_fields fs + 1
  size _ = 1

  size_fields : Fields → ℕ
  size_fields end = 1
  size_fields (field k v fs) = size v + size_fields fs + 1

mutual
  unfolding size

  size_pos : (v : Value) → 0 < size v
  size_pos nothing = omega arith
  size_pos (truth b) = omega arith
  size_pos (number n) = omega arith
  size_pos (word t) = omega arith
  size_pos (document fs) = omega arith

  size_fields_pos : (fs : Fields) → 0 < size_fields fs
  size_fields_pos end = omega arith
  size_fields_pos (field k v fs) = omega arith

mutual
  unfolding read_value write_value size

  pub read_value-write :
      (v : Value) (f : ℕ) (rest : List ℕ)
      → size v ≤ f
      → read_value f (write_value v rest) ≡ (v, rest)
  read_value-write v zero rest h = absurd (omega (arith, size_pos v))
  read_value-write nothing (suc f) rest h = refl
  read_value-write (truth true) (suc f) rest h = refl
  read_value-write (truth false) (suc f) rest h = refl
  read_value-write (number n) (suc f) rest h = refl
  read_value-write (word t) (suc f) rest h = rw (read_text-write t rest) refl
  read_value-write (document fs) (suc f) rest h =
      rw (read_fields-write fs f rest (omega arith)) refl

  read_fields-write :
      (fs : Fields) (f : ℕ) (rest : List ℕ)
      → size_fields fs ≤ f
      → read_fields f (write_fields fs rest) ≡ (fs, rest)
  read_fields-write fs zero rest h = absurd (omega (arith, size_fields_pos fs))
  read_fields-write end (suc f) rest h = refl
  read_fields-write (field k v fs) (suc f) rest h =
      rw
        (
          read_text-write k (write_value v (write_fields fs rest)),
          read_value-write v f (write_fields fs rest) (omega arith),
          read_fields-write fs f rest (omega arith),
        )
        refl

length-write_text : (t rest : List ℕ) → length rest ≤ length (write_text t rest)
unfolding write_text
length-write_text [] rest = omega arith
length-write_text (c ∷ t) rest = omega (arith, length-write_text t rest)

mutual
  unfolding write_value size

  pub size-length : (v : Value) (rest : List ℕ) → size v + length rest ≤ length (write_value v rest)
  size-length nothing rest = omega arith
  size-length (truth b) rest = omega arith
  size-length (number n) rest = omega arith
  size-length (word t) rest = omega (arith, length-write_text t rest)
  size-length (document fs) rest = omega (arith, size_fields-length fs rest)

  size_fields-length :
      (fs : Fields) (rest : List ℕ) → size_fields fs + length rest ≤ length (write_fields fs rest)
  size_fields-length end rest = omega arith
  size_fields-length (field k v fs) rest = omega (
    arith,
    length-write_text k (write_value v (write_fields fs rest)),
    size-length v (write_fields fs rest),
    size_fields-length fs rest,
  )
