-- ===== src/Proc/Machine/Numbers.antt =====
-- Numbers and words that are written into a line and read back.
use efimon.Prelude.{
  ℕ, zero, suc, ◌+◌, ◌-◌, ◌*◌, ◌/◌, ◌%◌, ◌<◌, ◌≡◌, refl, sym, ap, subst, ◌∙◌, ◌≢◌, inl, inr, true,
  false, [], ◌∷◌, ◌++◌, arith, ltb, Bool-cases, replicate, All, Text, codes, to_string, lt→ltb,
}
use efimon.Prelude.{digits, IsDigit, to_string-IsDigit}
use mathlib.Core.List.{append_assoc, append-nil}
use efimon.Outcome.{returns}
use efimon.Words.{u64}
use efimon.Proc.Machine.{is_digit, leading, stoull, pieces, split_spaces}

digits-small : (f n : ℕ) (acc : Text) → ltb n 10 ≡ true → digits (suc f) n acc ≡ (48 + n) ∷ acc
unfolding digits
digits-small f n acc h = ground arith

digits-large :
    (f n : ℕ) (acc : Text)
    → ltb n 10 ≡ false
    → digits (suc f) n acc ≡ digits f (n / 10) ((48 + n % 10) ∷ acc)
unfolding digits
digits-large f n acc h = ground arith

leading-digit : (a k : ℕ) (s : Text) → k < 10 → leading a ((48 + k) ∷ s) ≡ leading (10 * a + k) s
unfolding leading
leading-digit a k s h = let back : 48 + k - 48 ≡ k = omega arith in ground arith

leading-digits : (f n : ℕ) (acc : Text) → n < f → leading 0 (digits f n acc) ≡ leading n acc
leading-digits zero n acc h = elim h [ ]
leading-digits (suc f) n acc h = elim (Bool-cases (ltb n 10)) [
  | inl b ↦
      ap (leading 0) (digits-small f n acc b)
      ∙ (leading-digit 0 n acc (ground arith) ∙ ap (λ y. leading y acc) (omega arith))
  | inr b ↦
      ap (leading 0) (digits-large f n acc b)
      ∙ (leading-digits f (n / 10) ((48 + n % 10) ∷ acc) (ground arith)
          ∙ (leading-digit (n / 10) (n % 10) acc (omega arith)
              ∙ ap (λ y. leading y acc) (omega arith)))
]

digits-cons : (f n : ℕ) (acc : Text) → n < f → (c : ℕ) × (s : Text) × (digits f n acc ≡ c ∷ s)
unfolding digits
digits-cons zero n acc h = elim h [ ]
digits-cons (suc f) n acc h = elim (Bool-cases (ltb n 10)) [
  | inl b ↦ (48 + n, acc, ground arith)
  | inr b ↦
      let (c, s, e) = digits-cons f (n / 10) ((48 + n % 10) ∷ acc) (ground arith) in
      (c, s, ground arith)
]

digit-true : (c : ℕ) → IsDigit c → is_digit c ≡ true
digit-true c h = ground arith

stoull-cons :
    (c : ℕ) (s : Text)
    → IsDigit c
    → leading 0 (c ∷ s) < u64
    → stoull (c ∷ s) ≡ returns (leading 0 (c ∷ s))
unfolding stoull
stoull-cons c s h lt = ground (arith, lt→ltb (leading 0 (c ∷ s)) u64 lt, digit-true c h)

leading-nil : (n : ℕ) → leading n [] ≡ n
unfolding leading
leading-nil n = refl

-- The text of a number starts with a digit, and its leading digits make the number.
pub to_string-cons :
    (n : ℕ)
    → (c : ℕ) × (s : Text) × (to_string n ≡ c ∷ s)
      × IsDigit c
      × (is_digit c ≡ true)
      × (leading 0 (c ∷ s) ≡ n)
unfolding to_string
to_string-cons n =
    let (c, s, e) = digits-cons (n + 1) n [] (omega arith) in
    let digit = subst (All IsDigit) e (to_string-IsDigit n) in
    (
      c,
      s,
      e,
      digit.0,
      digit-true c (digit.0),
      ap (leading 0) (sym e) ∙ (leading-digits (n + 1) n [] (omega arith) ∙ leading-nil n),
    )

-- A number of 64 bits that is written by `to_string` is read back by `stoull`.
pub stoull-to_string : (n : ℕ) → n < u64 → stoull (to_string n) ≡ returns n
stoull-to_string n lt =
    let (c, s, e, digit, _, value) = to_string-cons n in
    ap stoull e ∙ (stoull-cons c s digit (omega arith) ∙ ap returns value)

-- A text without a space.
abbrev pub IsWord : Text → Type 0
IsWord w = All (λ c. c ≢ b' ') w

pieces-space : (p s : Text) → pieces p (b' ' ∷ s) ≡ p ∷ pieces [] s
unfolding pieces
pieces-space [] s = refl
pieces-space (c ∷ p) s = refl

pieces-char : (c : ℕ) (p s : Text) → c ≢ b' ' → pieces p (c ∷ s) ≡ pieces (p ++ (c ∷ [])) s
unfolding pieces
pieces-char c [] s h = ground arith
pieces-char c (x ∷ p) s h = ground arith

pieces-word : (w p s : Text) → IsWord w → pieces p (w ++ (b' ' ∷ s)) ≡ (p ++ w) ∷ pieces [] s
pieces-word [] p s h = pieces-space p s ∙ ap (λ y. y ∷ pieces [] s) (sym (append-nil p))
pieces-word (c ∷ w) p s h =
    pieces-char c p (w ++ (b' ' ∷ s)) (h.0)
    ∙ (pieces-word w (p ++ (c ∷ [])) s (h.1)
        ∙ ap (λ y. y ∷ pieces [] s) (append_assoc p (c ∷ []) w))

pieces-last : (w : Text) (c : ℕ) (p : Text) → IsWord w → pieces (c ∷ p) w ≡ ((c ∷ p) ++ w) ∷ []
unfolding pieces
pieces-last [] c p h = ap (λ y. (c ∷ y) ∷ []) (sym (append-nil p))
pieces-last (x ∷ w) c p h =
    pieces-char x (c ∷ p) w (h.0)
    ∙ (pieces-last w c (p ++ (x ∷ [])) (h.1) ∙ ap (λ y. (c ∷ y) ∷ []) (append_assoc p (x ∷ []) w))

-- Spaces before a text.
abbrev pub indent : ℕ → Text → Text
indent zero s = s
indent (suc n) s = b' ' ∷ indent n s

pieces-indent : (n : ℕ) (s : Text) → pieces [] (indent n s) ≡ replicate n [] ++ pieces [] s
pieces-indent zero s = refl
pieces-indent (suc n) s = pieces-space [] (indent n s) ∙ ap (λ y. [] ∷ y) (pieces-indent n s)

digits-IsWord : (t : Text) → All IsDigit t → IsWord t
digits-IsWord [] h = tt
digits-IsWord (c ∷ t) h = (omega arith, digits-IsWord t (h.1))

-- A label, a number and a unit, between spaces.
abbrev pub label_line : Text → ℕ → ℕ → Text
label_line label pad n = label ++ (b' ' ∷ indent pad (to_string n ++ (b' ' ∷ codes "kB")))

unit_piece : pieces [] (codes "kB") ≡ codes "kB" ∷ []
unfolding pieces
unit_piece = refl

pub split-label_line :
    (label : Text) (pad n : ℕ)
    → IsWord label
    → split_spaces (label_line label pad n)
      ≡ label ∷ (replicate pad [] ++ (to_string n ∷ codes "kB" ∷ []))
unfolding split_spaces
split-label_line label pad n h =
    pieces-word label [] (indent pad (to_string n ++ (b' ' ∷ codes "kB"))) h
    ∙ ap (λ y. label ∷ y)
        (pieces-indent pad (to_string n ++ (b' ' ∷ codes "kB"))
          ∙ ap (λ y. replicate pad [] ++ y)
              (pieces-word (to_string n) [] (codes "kB")
                  (digits-IsWord (to_string n) (to_string-IsDigit n))
                ∙ ap (λ y. to_string n ∷ y) unit_piece))
