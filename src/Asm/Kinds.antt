-- ===== src/Asm/Kinds.antt =====
-- include/efimon/asm-classifier.hpp (the enumerations) and src/efimon/asm-classifier.cpp (the
-- strings and the origin byte).
use efimon.Prelude.{ℕ, ◌/◌, ◌%◌, ◌^◌, ◌++◌, ◌==◌, if◌then◌else◌, Text, codes}

pub data Architecture : Type 0 where
  no_arch x86 : Architecture

pub data InstructionFamily : Type 0 where
  arithmetic logic memory branch jump other : InstructionFamily

pub data InstructionType : Type 0 where
  scalar vector unclassified : InstructionType

-- The four values of two bits. `INPUT`, `OUTPUT` and `MASK` share the numbers 0, 2 and 3 with them.
pub data DataOrigin : Type 0 where
  unknown from_memory register immediate : DataOrigin

abbrev pub input_shift : ℕ
input_shift = 0

abbrev pub output_shift : ℕ
output_shift = 2

unfoldable pub origin_bits : DataOrigin → ℕ
origin_bits unknown = 0
origin_bits from_memory = 1
origin_bits register = 2
origin_bits immediate = 3

-- `static_cast<DataOrigin>` of a value that was masked to two bits.
unfoldable pub origin_of_bits : ℕ → DataOrigin
origin_of_bits b =
    if b == 1
    then from_memory
    else if b == 2
    then register
    else if b == 3
    then immediate
    else unknown

-- `(origin >> shift) & MASK`.
abbrev pub field : ℕ → ℕ → ℕ
field origin shift = (origin / 2 ^ shift) % 4

-- The type, the family and the origin byte.
pub record InstructionPair : Type 0 where
  pub type : InstructionType
  pub family : InstructionFamily
  pub origin : ℕ

unfoldable pub family_string : InstructionFamily → Text
family_string arithmetic = codes "Arithmetic"
family_string logic = codes "Logic"
family_string memory = codes "Memory"
family_string branch = codes "Branch"
family_string jump = codes "Jump"
family_string other = codes "Other"

unfoldable pub type_string : InstructionType → Text
type_string scalar = codes "Scalar"
type_string vector = codes "Vector"
type_string unclassified = codes "Unclassified"

-- The lambda `orig` of `OriginString`.
unfoldable pub orig : ℕ → Text
orig v =
    if v == 1
    then codes "mem"
    else if v == 2
    then codes "reg"
    else if v == 3
    then codes "imm"
    else codes "unk"

unfoldable pub origin_string : ℕ → Text
unfolding orig
origin_string origin =
    if origin == 0
    then codes "unknown"
    else orig (field origin input_shift) ++ codes ":" ++ orig (field origin output_shift)

unfoldable pub origin_decomposed : ℕ → DataOrigin × DataOrigin
unfolding origin_of_bits
origin_decomposed origin =
    (origin_of_bits (field origin input_shift), origin_of_bits (field origin output_shift))
