-- ===== src/Power/Ipmi/Fields.antt =====
-- The numbers in the lines of the two commands.
use efimon.Prelude.{
  ℕ, ◌+◌, ◌^◌, ◌≤◌, ◌<◌, ◌≡◌, refl, ap, ◌∙◌, false, some, [], ◌++◌, arith, ltb, length, take, drop,
  length-append, Text, codes, find,
}
use efimon.Prelude.{IsNumeral, find-number_letter, take-length_le, take-append}
use efimon.Outcome.{returns}
use efimon.Words.{add64, sub64}
use efimon.Power.Ipmi.Payload.{index, substr, field}

field-at :
    (line : Text) (i j : ℕ)
    → find (codes ": ") line ≡ some i
    → find (codes "W") line ≡ some j
    → i + 2 ≤ length line
    → length line < 2 ^ 32
    → field line ≡ returns (take (sub64 (sub64 j 1) (i + 2)) (drop (i + 2) line))
unfolding field substr index
field-at line i j colon unit le lt =
    let start : add64 i 2 ≡ i + 2 = omega arith in
    let inside : ltb (length line) (i + 2) ≡ false = ground arith in
    rw (colon, unit, start, inside) refl

-- The number of a power line stands between the colon and the unit, and is what is read. In a
-- line of the rated power the unit is looked for in `Rated Watts` itself, and the text that is read
-- runs from the colon to the end of the line.
pub field-lines :
    (t : Text)
    → IsNumeral t
    → length t < 2 ^ 16
    → (field (codes "Instantaneous Power : " ++ (t ++ codes " W")) ≡ returns t)
      × (field (codes "Rated Watts : " ++ (t ++ codes " W")) ≡ returns (t ++ codes " W"))
field-lines t n lt =
    let unit = find-number_letter b'W' t [] (omega arith) n in
    let len : length (t ++ codes " W") ≡ length t + 2 = length-append t (codes " W") in
    let size : sub64 (sub64 (23 + length t) 1) 22 ≡ length t = omega arith in
    let power =
      field-at (codes "Instantaneous Power : " ++ (t ++ codes " W")) 20 (23 + length t) refl
        (rw unit (ap some (omega arith))) (omega arith) (omega arith) in
    let rated =
      field-at (codes "Rated Watts : " ++ (t ++ codes " W")) 12 6 refl refl (omega arith)
        (omega arith) in
    (
      power ∙ ap returns (rw size (take-append t (codes " W"))),
      rated ∙ ap returns (take-length_le (sub64 (sub64 6 1) 14) (t ++ codes " W") (omega arith)),
    )
