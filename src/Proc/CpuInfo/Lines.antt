-- ===== src/Proc/CpuInfo/Lines.antt =====
-- The keywords of the lines of /proc/cpuinfo, and the numbers in them.
use efimon.Prelude.{
  ℕ, ◌+◌, ◌^◌, ◌<◌, ◌≡◌, refl, ap, ◌∙◌, [], ◌∷◌, ◌++◌, arith, All, Text, codes, to_string, lt→ltb,
}
use efimon.Outcome.{returns}
use efimon.Prelude.{IsDigit, to_string-IsDigit, IsNumeral, find-letter}
use efimon.Proc.Machine.Numbers.{to_string-cons}
use efimon.Proc.CpuInfo.{keyword_bits, stoi, read_id}

pub bits-processor : (t : Text) → IsNumeral t → keyword_bits (codes "processor\t: " ++ t) ≡ 1
unfolding keyword_bits
bits-processor t n =
    rw
      (
        find-letter b'c' (codes "pu MHz") t (omega arith) n,
        find-letter b'p' (codes "hysical id") t (omega arith) n,
        find-letter b'c' (codes "ore id") t (omega arith) n,
      )
      refl

pub bits-clock : (t : Text) → IsNumeral t → keyword_bits (codes "cpu MHz\t\t: " ++ t) ≡ 2
unfolding keyword_bits
bits-clock t n =
    rw
      (
        find-letter b'p' (codes "rocessor") t (omega arith) n,
        find-letter b'p' (codes "hysical id") t (omega arith) n,
        find-letter b'c' (codes "ore id") t (omega arith) n,
      )
      refl

pub bits-socket : (t : Text) → IsNumeral t → keyword_bits (codes "physical id\t: " ++ t) ≡ 4
unfolding keyword_bits
bits-socket t n =
    rw
      (
        find-letter b'p' (codes "rocessor") t (omega arith) n,
        find-letter b'c' (codes "pu MHz") t (omega arith) n,
        find-letter b'c' (codes "ore id") t (omega arith) n,
      )
      refl

pub bits-core : (t : Text) → IsNumeral t → keyword_bits (codes "core id\t\t: " ++ t) ≡ 8
unfolding keyword_bits
bits-core t n =
    rw
      (
        find-letter b'p' (codes "rocessor") t (omega arith) n,
        find-letter b'c' (codes "pu MHz") t (omega arith) n,
        find-letter b'p' (codes "hysical id") t (omega arith) n,
      )
      refl

pub stoi-to_string : (n : ℕ) → n < 2 ^ 31 → stoi (to_string n) ≡ returns n
stoi-to_string n lt =
    let (c, s, e, _, digit, value) = to_string-cons n in
    ap stoi e ∙ (unfold stoi in rw (digit, value, lt→ltb n (2 ^ 31) lt) refl)

pub read_id-to_string : (n : ℕ) → n + 1 < 2 ^ 31 → read_id (to_string n) ≡ returns n
unfolding read_id
read_id-to_string n lt = rw (stoi-to_string n (omega arith), lt→ltb (n + 1) (2 ^ 31) lt) refl

digits-IsNumeral : (t : Text) → All IsDigit t → IsNumeral t
digits-IsNumeral [] h = tt
digits-IsNumeral (c ∷ t) h = (omega arith, digits-IsNumeral t (h.1))

pub to_string-IsNumeral : (n : ℕ) → IsNumeral (to_string n)
to_string-IsNumeral n = digits-IsNumeral (to_string n) (to_string-IsDigit n)
