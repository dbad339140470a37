-- ===== src/Prelude/Texts.antt =====
-- `std::string` as the list of its bytes, with the searches that the program makes in it.
use Prim.Native.Char.{code}
use Prim.Native.Nat.{ℕ, zero, suc, ◌+◌, ◌/◌, ◌%◌, ◌≤◌, ◌<◌}
use Prim.Native.String.{String}
use mathlib.Core.Bool.{Bool, true, false, ◌&&◌}
use mathlib.Core.List.{List, [], ◌∷◌, ◌++◌}
use mathlib.Core.Option.{Option, none, some}
use mathlib.Core.Path.{◌≡◌, refl, sym, ap, subst}
use mathlib.Core.Logic.{inl, inr}
use native.Mathlib.Omega.{arith}
use efimon.Prelude.Tests.{ltb, ◌==◌, if◌then◌else◌, ==_refl, Bool-cases}
use efimon.Prelude.Lists.{All, length, take}

abbrev pub Text : Type 0
Text = List ℕ

abbrev pub codes : String → Text
codes String.[] = []
codes (String.◌∷◌ c s) = code c ∷ codes s

abbrev pub text_eq : Text → Text → Bool
text_eq [] [] = true
text_eq [] (d ∷ t) = false
text_eq (c ∷ s) [] = false
text_eq (c ∷ s) (d ∷ t) = c == d && text_eq s t

-- The text begins with the pattern.
abbrev pub begins : Text → Text → Bool
begins [] s = true
begins (p ∷ ps) [] = false
begins (p ∷ ps) (c ∷ s) = p == c && begins ps s

-- `s.find(pattern)`: the position of the first occurrence, `none` for `npos`.
abbrev pub find : Text → Text → Option ℕ
find p [] = if begins p [] then some 0 else none
find p (c ∷ s) =
    let rest = find p s in
    if begins p (c ∷ s) then some 0 else elim rest [ none ↦ none | some i ↦ some (suc i) ]

-- `s.find(pattern) != npos`.
abbrev pub contains : Text → Text → Bool
contains p s = elim (find p s) [ none ↦ false | some i ↦ true ]

pub text_eq_refl : (s : Text) → text_eq s s ≡ true
text_eq_refl [] = refl
text_eq_refl (c ∷ s) = ground (arith, ==_refl c, text_eq_refl s)

pub eq_of_text_eq : (s t : Text) → text_eq s t ≡ true → s ≡ t
eq_of_text_eq [] [] h = refl
eq_of_text_eq [] (d ∷ t) h = cc
eq_of_text_eq (c ∷ s) [] h = cc
eq_of_text_eq (c ∷ s) (d ∷ t) h = ground (arith, eq_of_text_eq s t)

-- `std::to_string` of an unsigned number, most significant digit first. The fuel is the number of
-- digits that are tried; `n + 1` of them are always enough.
unfoldable pub digits : ℕ → ℕ → Text → Text
digits zero n acc = acc
digits (suc f) n acc =
    let more = digits f (n / 10) ((b'0' + n % 10) ∷ acc) in
    if ltb n 10 then (b'0' + n) ∷ acc else more

unfoldable pub to_string : ℕ → Text
unfolding digits
to_string n = digits (n + 1) n []

abbrev pub IsDigit : ℕ → Type 0
IsDigit c = (48 ≤ c) × (c ≤ 57)

digits-IsDigit : (f n : ℕ) (acc : Text) → All IsDigit acc → All IsDigit (digits f n acc)
unfolding digits
digits-IsDigit zero n acc h = h
digits-IsDigit (suc f) n acc h =
    let more = digits f (n / 10) ((48 + n % 10) ∷ acc) in
    let rest : All IsDigit more =
      digits-IsDigit f (n / 10) ((48 + n % 10) ∷ acc) ((omega arith, omega arith), h) in
    elim (Bool-cases (ltb n 10)) [
      | inl b ↦
          let small : 48 + n ≤ 57 = ground arith in
          subst (λ y. All IsDigit (if y then (48 + n) ∷ acc else more)) (sym b)
            ((omega arith, small), h)
      | inr b ↦ subst (λ y. All IsDigit (if y then (48 + n) ∷ acc else more)) (sym b) rest
    ]

-- The text of a number has digits only.
pub to_string-IsDigit : (n : ℕ) → All IsDigit (to_string n)
unfolding to_string
to_string-IsDigit n = digits-IsDigit (n + 1) n [] tt

-- The bytes of a number, a point among them.
abbrev pub IsNumeral : Text → Type 0
IsNumeral t = All (λ c. c < 58) t

pub find-letter : (p : ℕ) (ps t : Text) → 57 < p → IsNumeral t → find (p ∷ ps) t ≡ none
find-letter p ps [] h n = refl
find-letter p ps (c ∷ t) h n = let ih = find-letter p ps t h (n.1) in ground arith

pub find-number_letter :
    (p : ℕ) (t s : Text)
    → 57 < p
    → IsNumeral t
    → find (p ∷ []) (t ++ (b' ' ∷ p ∷ s)) ≡ some (length t + 1)
find-number_letter p [] s h n = ground (arith, ==_refl p)
find-number_letter p (c ∷ t) s h n = let ih = find-number_letter p t s h (n.1) in ground arith

pub take-length_le : (n : ℕ) (s : Text) → length s ≤ n → take n s ≡ s
take-length_le zero [] h = refl
take-length_le (suc n) [] h = refl
take-length_le zero (c ∷ s) h = absurd (omega arith)
take-length_le (suc n) (c ∷ s) h = ap (λ y. c ∷ y) (take-length_le n s (omega arith))

pub take-append : (s t : Text) → take (length s) (s ++ t) ≡ s
take-append [] t = refl
take-append (c ∷ s) t = ap (λ y. c ∷ y) (take-append s t)
