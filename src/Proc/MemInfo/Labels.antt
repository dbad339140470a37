-- ===== src/Proc/MemInfo/Labels.antt =====
-- Which label of /proc/meminfo gives which amount of the memory observer.
use efimon.Prelude.{
  ℕ, ◌-◌, ◌/◌, ◌≤◌, ◌<◌, String, ◌≡◌, refl, ap, ◌∙◌, Bool, false, ◌&&◌, Option, List, [], ◌∷◌, map,
  arith, if◌then◌else◌, All, Text, codes, contains,
}
use efimon.Float.{Float}
use efimon.Outcome.{returns}
use efimon.Status.{status_ok}
use efimon.Words.{u64}
use efimon.Proc.Machine.{Machine}
use efimon.Proc.MemInfo.{MemData, MemObserver, field_of, store, mib, trigger}
use efimon.Proc.MemInfo.Amounts.{
  Entry, line_of, IsEntry, store_entry, store_entries, trigger-entries,
}

abbrev pub names : String → Text → Bool
names key label = contains (codes key) label

-- The label has at most one of the four names.
abbrev pub IsSingle : Entry → Type 0
IsSingle e =
    (names "MemAvailable" e.label && names "SwapFree" e.label ≡ false)
    × (names "MemAvailable" e.label && names "MemTotal" e.label ≡ false)
    × (names "MemAvailable" e.label && names "SwapTotal" e.label ≡ false)
    × (names "SwapFree" e.label && names "MemTotal" e.label ≡ false)
    × (names "SwapFree" e.label && names "SwapTotal" e.label ≡ false)
    × (names "MemTotal" e.label && names "SwapTotal" e.label ≡ false)

-- The amount of the last entry with the name, or what there was before.
abbrev pub last_amount : String → List Entry → ℕ → ℕ
last_amount key [] n = n
last_amount key (e ∷ es) n = last_amount key es (if names key e.label then e.amount else n)

-- The amounts of the four names, in the order of the names here.
abbrev pub HasAmounts : ℕ → ℕ → ℕ → ℕ → MemData → Type 0
HasAmounts available free total swap q =
    (q.phys_available ≡ available)
    × (q.swap_available ≡ free)
    × (q.phys_total ≡ total)
    × (q.swap_total ≡ swap)

store_entry-HasAmounts :
    (e : Entry) (q : MemData)
    → IsSingle e
    → HasAmounts
        (if names "MemAvailable" e.label then e.amount else q.phys_available)
        (if names "SwapFree" e.label then e.amount else q.swap_available)
        (if names "MemTotal" e.label then e.amount else q.phys_total)
        (if names "SwapTotal" e.label then e.amount else q.swap_total)
        (store_entry e q)
unfolding field_of store
store_entry-HasAmounts e q (a, b, c, x, y, z) = ground arith

store_entries-HasAmounts :
    (es : List Entry) (q : MemData)
    → All IsSingle es
    → HasAmounts
        (last_amount "MemAvailable" es q.phys_available)
        (last_amount "SwapFree" es q.swap_available)
        (last_amount "MemTotal" es q.phys_total)
        (last_amount "SwapTotal" es q.swap_total)
        (store_entries es q)
store_entries-HasAmounts [] q h = (refl, refl, refl, refl)
store_entries-HasAmounts (e ∷ es) q h =
    let (a, b, c, x) = store_entry-HasAmounts e q (h.0) in
    let (a', b', c', x') = store_entries-HasAmounts es (store_entry e q) (h.1) in
    (
      a' ∙ ap (last_amount "MemAvailable" es) a,
      b' ∙ ap (last_amount "SwapFree" es) b,
      c' ∙ ap (last_amount "MemTotal" es) c,
      x' ∙ ap (last_amount "SwapTotal" es) x,
    )

module _ {F : Type 0} (d : Float F) where
  open d use {of_ℕ, add, single}

  -- KiB as whole MiB.
  abbrev pub in_mib : ℕ → F
  in_mib kib = single (of_ℕ (kib / 1024))

  mib-in_mib : (kib : ℕ) → mib d kib ≡ in_mib kib
  unfolding mib
  mib-in_mib kib = refl

  -- A trigger on a file of lines with a label, a number and a unit, where no label has two of the
  -- four names, returns OK. The available, free, total and swap amounts are those of the last line
  -- with `MemAvailable`, `SwapFree`, `MemTotal` and `SwapTotal`, or as before if there is none; if no
  -- more is available than there is, the usages are the differences in whole MiB, and the total usage
  -- is their sum.
  pub trigger-amounts :
      (mc : Machine) (up : Option F) (es : List Entry) (o : MemObserver F)
      → All IsEntry es
      → All IsSingle es
      → let q = o.proc_data in
        let available = last_amount "MemAvailable" es q.phys_available in
        let free = last_amount "SwapFree" es q.swap_available in
        let total = last_amount "MemTotal" es q.phys_total in
        let swap = last_amount "SwapTotal" es q.swap_total in
        available ≤ total
        → total < u64
        → free ≤ swap
        → swap < u64
        → (o' : MemObserver F) × (trigger d mc up (map line_of es) o ≡ returns (o', status_ok))
          × HasAmounts available free total swap o'.proc_data
          × (o'.readings.overall_usage ≡ in_mib (total - available))
          × (o'.readings.swap_usage ≡ in_mib (swap - free))
          × (o'.readings.total_memory_usage
              ≡ single (add (in_mib (total - available)) (in_mib (swap - free))))
  trigger-amounts mc up es o h k a b c e =
      let q = store_entries es o.proc_data in
      let (e1, e2, e3, e4) = store_entries-HasAmounts es o.proc_data k in
      let (o', t, stored, usage, swaps, sum) =
        trigger-entries d mc up es o h (omega arith) (omega arith) (omega arith) (omega arith) in
      let u = usage ∙ (ap (mib d) (omega arith) ∙ mib-in_mib _) in
      let v = swaps ∙ (ap (mib d) (omega arith) ∙ mib-in_mib _) in
      (
        o',
        t,
        (
          ap (λ x. x.phys_available) stored ∙ e1,
          ap (λ x. x.swap_available) stored ∙ e2,
          ap (λ x. x.phys_total) stored ∙ e3,
          ap (λ x. x.swap_total) stored ∙ e4,
        ),
        u,
        v,
        sum ∙ rw (u, v) refl,
      )
