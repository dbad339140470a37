-- ===== src/Asm/Families.antt =====
-- The family and the type that `classify` gives, against each other.
use efimon.Prelude.{ℕ, ◌≡◌, ◌⊎◌, ◌↔◌, [], ◌∷◌, arith, Text, ◌≢◌}
use efimon.Asm.Kinds.{InstructionFamily, arithmetic, logic, memory, vector, unclassified}
use efimon.Asm.X86.{classify, type_of}

-- The families that the tools log with operand origins.
abbrev pub IsCompute : InstructionFamily → Type 0
IsCompute f = (f ≡ arithmetic) ⊎ (f ≡ logic) ⊎ (f ≡ memory)

-- The first letter of a vector mnemonic.
abbrev pub IsVectorLetter : ℕ → Type 0
IsVectorLetter c = (c ≡ b'v') ⊎ (c ≡ b'p') ⊎ (c ≡ b'V') ⊎ (c ≡ b'P')

-- An instruction has a type exactly when its family is arithmetic, logic or memory.
pub classify-typed_iff :
    (inst operands : Text)
    → ((classify inst operands).type ≢ unclassified) ↔ IsCompute (classify inst operands).family
unfolding classify type_of
classify-typed_iff [] operands = ground arith
classify-typed_iff (c ∷ inst) operands = ground arith

-- It is a vector instruction exactly when, besides, its name starts with v or p in either case.
pub classify-vector_iff :
    (c : ℕ) (inst operands : Text)
    → ((classify (c ∷ inst) operands).type ≡ vector)
      ↔ (IsVectorLetter c × IsCompute (classify (c ∷ inst) operands).family)
unfolding classify type_of
classify-vector_iff c inst operands = ground arith
