-- ===== src/Asm/Origins.antt =====
-- The origin byte of include/efimon/asm-classifier.hpp, written by `classify` and read back by
-- `origin_decomposed` and `origin_string`.
use Prim.Native.Nat.{bit_or}
use mathlib.Core.Option.{some-injective}
use efimon.Prelude.{
  ℕ, sym, ap, ◌∙◌, ◌+◌, ◌*◌, ◌^◌, ◌<◌, ◌≡◌, refl, Option, none, some, [], ◌∷◌, arith, text_eq,
  if◌then◌else◌, take, drop, Text, codes,
}
use efimon.Asm.Kinds.{
  DataOrigin, unknown, from_memory, register, immediate, origin_bits, origin_string,
  origin_decomposed,
}
use efimon.Asm.X86.{det_origin, det_origins, classify}

-- The decomposition reads back any two origins that were packed as input and output.
pub decomposed-pack :
    (i o : DataOrigin) → origin_decomposed (origin_bits i + 4 * origin_bits o) ≡ (i, o)
unfolding origin_decomposed origin_bits
decomposed-pack i o = ground arith

pack :
    (i o : DataOrigin)
    → bit_or (origin_bits i * 2 ^ 0) (origin_bits o * 2 ^ 2) ≡ origin_bits i + 4 * origin_bits o
unfolding origin_bits
pack unknown unknown = refl
pack unknown from_memory = refl
pack unknown register = refl
pack unknown immediate = refl
pack from_memory unknown = refl
pack from_memory from_memory = refl
pack from_memory register = refl
pack from_memory immediate = refl
pack register unknown = refl
pack register from_memory = refl
pack register register = refl
pack register immediate = refl
pack immediate unknown = refl
pack immediate from_memory = refl
pack immediate register = refl
pack immediate immediate = refl

pub det_origins-two :
    (a b : ℕ)
    → det_origins (a ∷ b ∷ []) ≡ origin_bits (det_origin b) + 4 * origin_bits (det_origin a)
unfolding det_origins
det_origins-two a b = pack (det_origin b) (det_origin a)

-- For an instruction with two operand types, the origin byte holds the second operand's origin as
-- the input and the first operand's as the output.
pub classify-origin :
    (c : ℕ) (inst : Text) (a b : ℕ)
    → origin_decomposed (classify (c ∷ inst) (a ∷ b ∷ [])).origin ≡ (det_origin b, det_origin a)
unfolding classify
classify-origin c inst a b =
    rw (det_origins-two a b) (decomposed-pack (det_origin b) (det_origin a))

origin_bits-lt : (o : DataOrigin) → origin_bits o < 4
unfolding origin_bits
origin_bits-lt o = ground arith

-- The origin byte of a classification fits in four bits, whatever the operand types are.
pub classify-origin-lt : (inst operands : Text) → (classify inst operands).origin < 16
unfolding classify
classify-origin-lt [] operands = omega arith
classify-origin-lt (c ∷ inst) [] = omega arith
classify-origin-lt (c ∷ inst) (a ∷ []) = omega (arith, origin_bits-lt (det_origin a))
classify-origin-lt (c ∷ inst) (a ∷ b ∷ []) = omega (
  arith,
  pack (det_origin b) (det_origin a),
  origin_bits-lt (det_origin b),
  origin_bits-lt (det_origin a),
)
classify-origin-lt (c ∷ inst) (a ∷ b ∷ d ∷ rest) = omega arith

-- The inverse of `orig`.
parse_orig : Text → Option ℕ
parse_orig s =
    if text_eq s (codes "unk")
    then some 0
    else if text_eq s (codes "mem")
    then some 1
    else if text_eq s (codes "reg")
    then some 2
    else if text_eq s (codes "imm")
    then some 3
    else none

-- The reader of what `origin_string` prints: three letters, a colon, three letters.
pub parse_origin : Text → Option ℕ
unfolding parse_orig
parse_origin s = if text_eq s (codes "unknown") then some 0 else elim (parse_orig (take 3 s)) [
  | none ↦ none
  | some i ↦ elim (parse_orig (drop 4 s)) [ none ↦ none | some o ↦ some (i + 4 * o) ]
]

-- A byte of four bits is recovered from the text that `origin_string` prints for it.
pub parse-origin_string : (x : ℕ) → x < 16 → parse_origin (origin_string x) ≡ some x
unfolding parse_origin origin_string
parse-origin_string x h = ground arith

-- So two different bytes never print the same text.
pub origin_string-injective :
    (x y : ℕ) → x < 16 → y < 16 → origin_string x ≡ origin_string y → x ≡ y
origin_string-injective x y hx hy e =
    some-injective _ _
      (sym (parse-origin_string x hx) ∙ ap parse_origin e ∙ parse-origin_string y hy)
