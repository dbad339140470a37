-- ===== src/Proc/MemInfo/Amounts.antt =====
-- What the memory observer takes from /proc/meminfo.
use efimon.Prelude.{
  ℕ, zero, suc, ◌+◌, ◌-◌, ◌≤◌, ◌<◌, ◌≡◌, refl, ap, ◌∙◌, inl, inr, Option, none, some, List, [], ◌∷◌,
  ◌++◌, map, arith, Option-cases, length, get_elem?, replicate, All, Text, codes, to_string,
}
use efimon.Status.{status_ok}
use efimon.Float.{Float}
use efimon.Outcome.{returns, ◌>>=◌}
use efimon.Words.{u64, sub64-of_le}
use efimon.Proc.Machine.{Machine, split_spaces, stoull}
use efimon.Proc.Machine.Numbers.{IsWord, label_line, split-label_line, stoull-to_string}
use efimon.Proc.MemInfo.{
  MemData, MemObserver, field_of, store, second_last, read_pieces, read_lines, mib, get_uptime,
  translate_readings, trigger,
}

-- A line of the file: its label, the spaces after the first one, and its amount.
pub record Entry : Type 0 where
  pub label : Text
  pub pad : ℕ
  pub amount : ℕ

abbrev pub line_of : Entry → Text
line_of e = label_line e.label e.pad e.amount

abbrev pub IsEntry : Entry → Type 0
IsEntry e = IsWord e.label × (e.amount < u64)

-- The data after the entries: the last entry of each label counts.
abbrev pub store_entry : Entry → MemData → MemData
store_entry e q = elim (field_of e.label) [ none ↦ q | some f ↦ store f e.amount q ]

abbrev pub store_entries : List Entry → MemData → MemData
store_entries [] q = q
store_entries (e ∷ es) q = store_entries es (store_entry e q)

length-padded : (pad : ℕ) (a b : Text) → length (replicate pad [] ++ (a ∷ b ∷ [])) ≡ pad + 2
length-padded zero a b = refl
length-padded (suc pad) a b = omega (arith, length-padded pad a b)

get-padded : (pad : ℕ) (a b : Text) → get_elem? (replicate pad [] ++ (a ∷ b ∷ [])) pad ≡ some a
get-padded zero a b = refl
get-padded (suc pad) a b = get-padded pad a b

second_last-padded :
    (label : Text) (pad : ℕ) (a b : Text)
    → second_last (label ∷ (replicate pad [] ++ (a ∷ b ∷ []))) ≡ returns a
unfolding second_last
second_last-padded label pad a b =
    let n = length-padded pad a b in
    let g = get-padded pad a b in
    let xs : List Text = replicate pad [] ++ (a ∷ b ∷ []) in
    let i : suc (length xs) - 2 ≡ suc pad = omega arith in
    let at : get_elem? (label ∷ xs) (suc (length xs) - 2) ≡ some a =
      ap (get_elem? (label ∷ xs)) i ∙ g in
    ground arith

read_pieces-store :
    (label : Text) (values : List Text) (n : ℕ) (q : MemData) {a : Text}
    → second_last (label ∷ values) ≡ returns a
    → stoull a ≡ returns n
    → read_pieces (label ∷ values) q
      ≡ returns (elim (field_of label) [ none ↦ q | some f ↦ store f n q ])
unfolding read_pieces
read_pieces-store label values n q e r = elim (Option-cases (field_of label)) [
  | inl h ↦ ground arith
  | inr (f, h) ↦ ground arith
]

read-line_of :
    (e : Entry) (q : MemData)
    → IsEntry e
    → read_pieces (split_spaces (line_of e)) q ≡ returns (store_entry e q)
read-line_of e q h =
    let values : List Text = replicate e.pad [] ++ (to_string e.amount ∷ codes "kB" ∷ []) in
    ap (λ y. read_pieces y q) (split-label_line e.label e.pad e.amount (h.0))
    ∙ read_pieces-store e.label values e.amount q
        (second_last-padded e.label e.pad (to_string e.amount) (codes "kB"))
        (stoull-to_string e.amount (h.1))

read_lines-entries :
    (es : List Entry) (q : MemData)
    → All IsEntry es
    → read_lines (map line_of es) q ≡ returns (store_entries es q)
unfolding read_lines
read_lines-entries [] q h = refl
read_lines-entries (e ∷ es) q h =
    ap (λ y. y >>= read_lines (map line_of es)) (read-line_of e q (h.0))
    ∙ read_lines-entries es (store_entry e q) (h.1)

module _ {F : Type 0} (d : Float F) where
  open d use {single, add}

  get_uptime-data :
      (mc : Machine) (up : Option F) (o : MemObserver F)
      → (get_uptime d mc up o).proc_data ≡ o.proc_data
  unfolding get_uptime
  get_uptime-data mc none o = refl
  get_uptime-data mc (some u) o = refl

  -- A trigger on a file of lines with a label, a number and a unit returns OK, with the data after its
  -- entries and the usages that they make.
  pub trigger-entries :
      (mc : Machine) (up : Option F) (es : List Entry) (o : MemObserver F)
      → All IsEntry es
      → let q = store_entries es o.proc_data in
        q.phys_available ≤ q.phys_total
        → q.phys_total < u64
        → q.swap_available ≤ q.swap_total
        → q.swap_total < u64
        → (o' : MemObserver F) × (trigger d mc up (map line_of es) o ≡ returns (o', status_ok))
          × (o'.proc_data ≡ q)
          × (o'.readings.overall_usage ≡ mib d (q.phys_total - q.phys_available))
          × (o'.readings.swap_usage ≡ mib d (q.swap_total - q.swap_available))
          × (o'.readings.total_memory_usage
              ≡ single (add o'.readings.overall_usage o'.readings.swap_usage))
  unfolding trigger translate_readings
  trigger-entries mc up es o h a b c e =
      let q = store_entries es o.proc_data in
      let o1 = get_uptime d mc up o in
      let same = get_uptime-data mc up o in
      (
        translate_readings d (record o1 { proc_data = q }),
        rw (same, trigger) (rw (read_lines-entries es o.proc_data h) refl),
        refl,
        ap (mib d) (sub64-of_le q.phys_total q.phys_available a b),
        ap (mib d) (sub64-of_le q.swap_total q.swap_available c e),
        refl,
      )
