-- ===== src/Asm/X86.antt =====
-- src/efimon/asm-classifier/x86-classifier.cpp. A text is the list of its bytes; the letters of the
-- operand types are `m` (memory), `i` (immediate), `r` (register) and `u` (unknown).
use Prim.Native.Nat.{bit_or}
use efimon.Prelude.{
  ℕ, ◌+◌, ◌*◌, ◌^◌, Bool, true, false, ◌&&◌, ◌||◌, Option, none, some, List, [], ◌∷◌, ◌++◌, ◌==◌,
  leb, if◌then◌else◌, take, drop, any, Text, codes, find, contains,
}
use efimon.Asm.Kinds.{
  InstructionFamily, arithmetic, logic, memory, branch, jump, other, InstructionType, scalar,
  vector, unclassified, DataOrigin, unknown, from_memory, register, immediate, origin_bits,
  input_shift, output_shift, InstructionPair, Architecture, no_arch, x86,
}

-- The lambda `classify` of `OperandTypes`.
unfoldable pub operand_type : Text → Text
operand_type s =
    if contains (codes "(") s
    then codes "m"
    else if contains (codes "$") s
    then codes "i"
    else if contains (codes "%") s
    then codes "r"
    else codes "u"

-- What the function appends for an operand: nothing if the operand is empty.
unfoldable pub typed_if_any : Text → Text
unfolding operand_type
typed_if_any [] = []
typed_if_any (c ∷ s) = operand_type (c ∷ s)

-- `res` after both operands were looked at: `firstop`'s letter, `res`, `secondop`'s letter.
unfoldable pub join_types : Text → Text → Text → Text
unfolding typed_if_any
join_types firstop res secondop = (typed_if_any firstop ++ res) ++ typed_if_any secondop

unfoldable pub operand_types : Text → Text
unfolding join_types
operand_types operands = elim (find (codes ",") operands) [
  | none ↦ codes "u"
  | some comma ↦ elim (find (codes "),") operands) [
    | some mem ↦ join_types [] (codes "m") (drop (mem + 2) operands)
    | none ↦ join_types (take comma operands) [] (drop (comma + 1) operands)
  ]
]

abbrev pub arith_ops : List Text
arith_ops =
    codes "add"
    ∷ codes "sub"
    ∷ codes "div"
    ∷ codes "mul"
    ∷ codes "dp"
    ∷ codes "abs"
    ∷ codes "sign"
    ∷ codes "avg"
    ∷ codes "dec"
    ∷ codes "inc"
    ∷ codes "neg"
    ∷ []

abbrev pub bit_man_ops : List Text
bit_man_ops =
    codes "shuf"
    ∷ codes "lzcn"
    ∷ codes "cvt"
    ∷ codes "blend"
    ∷ codes "perm"
    ∷ codes "extract"
    ∷ codes "compress"
    ∷ codes "insert"
    ∷ codes "unpck"
    ∷ []

abbrev pub logic_ops : List Text
logic_ops =
    codes "and"
    ∷ codes "or"
    ∷ codes "shl"
    ∷ codes "shr"
    ∷ codes "sll"
    ∷ codes "sra"
    ∷ codes "srl"
    ∷ codes "tern"
    ∷ codes "test"
    ∷ codes "xor"
    ∷ codes "cmp"
    ∷ codes "not"
    ∷ []

abbrev pub mem_ops : List Text
mem_ops =
    codes "expand"
    ∷ codes "gather"
    ∷ codes "scatter"
    ∷ codes "mov"
    ∷ codes "sto"
    ∷ codes "lah"
    ∷ codes "lds"
    ∷ codes "lea"
    ∷ codes "les"
    ∷ codes "lod"
    ∷ []

abbrev pub jump_ops : List Text
jump_ops = codes "jmp" ∷ []

abbrev pub branch_ops : List Text
branch_ops =
    codes "ja"
    ∷ codes "jb"
    ∷ codes "jc"
    ∷ codes "je"
    ∷ codes "jg"
    ∷ codes "jl"
    ∷ codes "jle"
    ∷ codes "jn"
    ∷ codes "jo"
    ∷ codes "jp"
    ∷ codes "js"
    ∷ codes "jz"
    ∷ []

-- `std::find_if(begin, end, pred) != end`, with `pred` the search of a keyword in the instruction.
unfoldable pub has_op : List Text → Text → Bool
has_op ops inst = any (λ c. contains c inst) ops

-- The lambda `detorigin`.
unfoldable pub det_origin : ℕ → DataOrigin
det_origin c =
    if c == b'r'
    then register
    else if c == b'm'
    then from_memory
    else if c == b'i'
    then immediate
    else unknown

-- The origin byte of the operand types; `(i << INPUT) | (o << OUTPUT)`.
unfoldable pub det_origins : Text → ℕ
unfolding det_origin origin_bits
det_origins [] = 0
det_origins (a ∷ []) = origin_bits (det_origin a)
det_origins (a ∷ b ∷ []) =
    bit_or (origin_bits (det_origin b) * 2 ^ input_shift)
      (origin_bits (det_origin a) * 2 ^ output_shift)
det_origins (a ∷ b ∷ c ∷ rest) = 0

unfoldable pub family_of : Text → InstructionFamily
family_of inst =
    if has_op arith_ops inst
    then arithmetic
    else if has_op bit_man_ops inst
    then logic
    else if has_op logic_ops inst
    then logic
    else if has_op mem_ops inst
    then memory
    else if has_op jump_ops inst
    then jump
    else if has_op branch_ops inst
    then branch
    else other

-- `compute_op`.
unfoldable pub is_compute : InstructionFamily → Bool
is_compute arithmetic = true
is_compute logic = true
is_compute memory = true
is_compute _ = false

-- `std::tolower` in the C locale.
unfoldable pub to_lower : ℕ → ℕ
to_lower c = if leb b'A' c && leb c b'Z' then c + 32 else c

unfoldable pub type_of : ℕ → InstructionFamily → InstructionType
unfolding to_lower is_compute
type_of first family =
    if is_compute family
    then if to_lower first == b'v' || to_lower first == b'p' then vector else scalar
    else unclassified

unfoldable pub classify : Text → Text → InstructionPair
unfolding det_origins
classify [] operands = record { type = unclassified; family = other; origin = 0 }
classify (c ∷ inst) operands = record {
  type = type_of c (family_of (c ∷ inst));
  family = family_of (c ∷ inst);
  origin = det_origins operands;
}

-- `AsmClassifier::Build`: the x86 classifier, or `nullptr`.
unfoldable pub build : Architecture → Option (Text → Text → InstructionPair)
build x86 = some classify
build no_arch = none
