-- ===== src/Asm/Tests.antt =====
-- Runs of the x86 classifier on real instructions, and the theorems at concrete inputs.
use efimon.Prelude.{◌≡◌, refl, codes}
use efimon.Asm.Kinds.{arithmetic, memory, vector, origin_decomposed, register, from_memory}
use efimon.Asm.X86.{classify, operand_types, family_of, has_op, type_of, typed_if_any}
use efimon.Asm.Operands.{load-origin}

-- A conditional move of two vector registers.
vaddps_run :
    classify (codes "vaddps") (codes "rr")
    ≡ record { type = vector; family = arithmetic; origin = 10 }
unfolding classify type_of family_of has_op
vaddps_run = refl

-- `leave` has the keyword of `lea` in its name, and `movabs` that of `abs`.
leave_run : (family_of (codes "leave") ≡ memory) × (family_of (codes "movabs") ≡ arithmetic)
unfolding family_of has_op
leave_run = (refl, refl)

-- One operand in memory with an index, as in `incl (%rax,%rbx,4)`, is taken for two operands.
one_indexed_run : operand_types (codes "(%rax,%rbx,4)") ≡ codes "mr"
unfolding operand_types
one_indexed_run = refl

load-origin_example :
    origin_decomposed (classify (codes "mov") (operand_types (codes "8(%rax),%rcx"))).origin
    ≡ (register, from_memory)
unfolding typed_if_any
load-origin_example = load-origin b'm' (codes "ov") (codes "8(%rax") (codes "%rcx") refl refl
