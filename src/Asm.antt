-- ===== src/Asm.antt =====
-- The assembly classifier: the enumerations of include/efimon/asm-classifier.hpp and the static
-- functions of `AsmClassifier` (src/efimon/asm-classifier.cpp) are in `Kinds`, the x86 classifier
-- (src/efimon/asm-classifier/x86-classifier.cpp) is in `X86`; the other children prove.
pub mod Kinds
pub mod X86
pub mod Origins
pub mod Families
pub mod Operands
pub mod Tests
