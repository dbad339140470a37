-- ===== src/Asm/Operands.antt =====
-- What `OperandTypes` gives for operand texts of the AT&T syntax, `source,destination`.
use mathlib.Core.List.{append-nil}
use efimon.Prelude.{
  ℕ, zero, suc, ◌+◌, ◌≤◌, ◌≡◌, refl, ap, Bool-cases, none, some, Option-cases, [], ◌∷◌, ◌++◌, ◌==◌,
  ◌⊎◌, inl, inr, length, length-append, take, drop, Text, codes, find, contains, arith, All,
  All-append,
}
use efimon.Asm.Kinds.{from_memory, register, origin_decomposed}
use efimon.Asm.X86.{operand_type, typed_if_any, join_types, operand_types, classify, det_origin}
use efimon.Asm.Origins.{classify-origin}

-- One of the four letters.
abbrev pub IsLetter : ℕ → Type 0
IsLetter c = (c ≡ b'm') ⊎ (c ≡ b'i') ⊎ (c ≡ b'r') ⊎ (c ≡ b'u')

operand_type-IsLetter : (s : Text) → (c : ℕ) × (operand_type s ≡ c ∷ []) × IsLetter c
unfolding operand_type
operand_type-IsLetter s = elim (Bool-cases (contains (codes "(") s)) [
  | inl e ↦ rw e (b'm', refl, inl refl)
  | inr e ↦ rw e (elim (Bool-cases (contains (codes "$") s)) [
    | inl e ↦ rw e (b'i', refl, inr (inl refl))
    | inr e ↦ rw e (elim (Bool-cases (contains (codes "%") s)) [
      | inl e ↦ rw e (b'r', refl, inr (inr (inl refl)))
      | inr e ↦ rw e (b'u', refl, inr (inr (inr refl)))
    ])
  ])
]

typed_if_any-short : (s : Text) → (length (typed_if_any s) ≤ 1) × All IsLetter (typed_if_any s)
unfolding typed_if_any
typed_if_any-short [] = (omega arith, tt)
typed_if_any-short (c ∷ s) =
    let (d, e, l) = operand_type-IsLetter (c ∷ s) in rw e (omega arith, (l, tt))

mem_first-short :
    (second : Text)
    → (length (join_types [] (codes "m") second) ≤ 2)
      × All IsLetter (join_types [] (codes "m") second)
unfolding join_types
mem_first-short second = let (l, a) = typed_if_any-short second in (omega arith, (inl refl, a))

two-short :
    (first second : Text)
    → (length (join_types first [] second) ≤ 2) × All IsLetter (join_types first [] second)
unfolding join_types
two-short first second =
    let (l, a) = typed_if_any-short first in
    let (l', a') = typed_if_any-short second in
    rw append-nil (
      omega (arith, length-append (typed_if_any first) (typed_if_any second)),
      All-append IsLetter (typed_if_any first) (typed_if_any second) a a',
    )

-- The result has at most two letters, and each of them is m, i, r or u.
pub operand_types-short :
    (s : Text) → (length (operand_types s) ≤ 2) × All IsLetter (operand_types s)
unfolding operand_types
operand_types-short s = elim (Option-cases (find (codes ",") s)) [
  | inl e ↦ rw (e, operand_types) (omega arith, (inr (inr (inr refl)), tt))
  | inr (comma, e) ↦ elim (Option-cases (find (codes "),") s)) [
    | inl e' ↦ rw (e, e', operand_types) (two-short (take comma s) (drop (comma + 1) s))
    | inr (m, e') ↦ rw (e, e', operand_types) (mem_first-short (drop (m + 2) s))
  ]
]

drop-append : (n k : ℕ) (a b : Text) → n ≡ length a + k → drop n (a ++ b) ≡ drop k b
drop-append n k [] b e = rw (let e' : n ≡ k = omega arith in e')
drop-append zero k (x ∷ a) b e = absurd (omega arith)
drop-append (suc n) k (x ∷ a) b e = drop-append n k a b (omega arith)

take-append : (a b : Text) → take (length a) (a ++ b) ≡ a
take-append [] b = refl
take-append (x ∷ a) b = ap (λ t. x ∷ t) (take-append a b)

-- The first closing parenthesis with a comma behind it, in a text that has none before.
find-closing :
    (a b : Text)
    → find (codes "),") a ≡ none
    → find (codes "),") (a ++ (codes ")," ++ b)) ≡ some (length a)
find-closing [] b h = refl
find-closing (c ∷ []) b h = ground arith
find-closing (c ∷ d ∷ a) b h = ground (arith, find-closing (d ∷ a) b)

find-comma :
    (a b : Text)
    → find (codes ",") a ≡ none
    → find (codes ",") (a ++ (codes "," ++ b)) ≡ some (length a)
find-comma [] b h = refl
find-comma (c ∷ a) b h = ground (arith, find-comma a b)

find-comma-some : (a b : Text) → (i : ℕ) × (find (codes ",") (a ++ (codes ")," ++ b)) ≡ some i)
find-comma-some [] b = (1, refl)
find-comma-some (c ∷ a) b =
    let (i, e) = find-comma-some a b in
    elim (Bool-cases (c == b',')) [ inl y ↦ (0, ground arith) | inr n ↦ (suc i, ground arith) ]

-- A source operand that ends in a closing parenthesis, as a memory operand does, is the letter m,
-- and the destination behind it has its own letter.
pub operand_types-mem_first :
    (a b : Text)
    → find (codes "),") a ≡ none
    → operand_types (a ++ (codes ")," ++ b)) ≡ codes "m" ++ typed_if_any b
unfolding operand_types
operand_types-mem_first a b h =
    let (i, e) = find-comma-some a b in
    rw (e, operand_types)
      (rw (find-closing a b h) (rw (drop-append (length a + 2) 2 a (codes ")," ++ b) refl)))

-- A source operand with no comma and no memory operand behind it: both operands have their letters,
-- and an empty one has none.
pub operand_types-simple_first :
    (a b : Text)
    → find (codes ",") a ≡ none
    → find (codes "),") (a ++ (codes "," ++ b)) ≡ none
    → operand_types (a ++ (codes "," ++ b)) ≡ typed_if_any a ++ typed_if_any b
unfolding operand_types
operand_types-simple_first a b h k =
    rw (find-comma a b h, k, operand_types)
      (rw (take-append a (codes "," ++ b), drop-append (length a + 1) 1 a (codes "," ++ b) refl)
        (rw append-nil))

-- An instruction that loads: its source is in parentheses and its destination is a register. The
-- origin byte then says that the input is the register and the output is the memory.
pub load-origin :
    (c : ℕ) (inst a b : Text)
    → find (codes "),") a ≡ none
    → typed_if_any b ≡ codes "r"
    → origin_decomposed (classify (c ∷ inst) (operand_types (a ++ (codes ")," ++ b)))).origin
      ≡ (register, from_memory)
load-origin c inst a b h r =
    rw (operand_types-mem_first a b h, r) (unfold det_origin in classify-origin c inst b'm' b'r')
