-- ===== src/Power/Ipmi/Runs.antt =====
-- A trigger comes to its end.
use efimon.Prelude.{
  ℕ, zero, suc, ◌+◌, ◌≤◌, ◌<◌, ◌≡◌, refl, inl, inr, true, none, some, List, [], ◌∷◌, arith, ltb,
  Bool-cases, length, set, All, Text, codes, contains, lt→ltb,
}
use efimon.Float.{Float}
use efimon.Status.{Status, status_ok}
use efimon.Outcome.{Outcome, returns, ◌>>=◌}
use efimon.Power.Ipmi.{
  Ipmi, Run, value, put_power, power_line, read_power, get_power, account, parse_results, meter,
  meter_all, stamp, walk, validate, trigger,
}
use efimon.Power.Ipmi.Outcomes.{Kept, line-seen, get-status, meter-status, walk-status}

ends-map {ℓ κ} :
    {A : Type ℓ} {B : Type κ} (o : Outcome A) (f : A → B)
    → ((a : A) × (o ≡ returns a))
    → (b : B) × ((o >>= λ a. returns (f a)) ≡ returns b)
ends-map o f (a, e) = (f a, rw e refl)

module _ {F : Type 0} (d : Float F) (stof : Text → Outcome F) where
  -- Every line of the instantaneous power has a number that can be read.
  abbrev pub IsReadable : Run → Type 0
  IsReadable none = Unit
  IsReadable (some lines) =
      All
        (λ line.
          (contains (codes "Instantaneous Power") line ≡ true)
          → (v : F) × (value d stof line ≡ returns v))
        lines

  -- One element for each unit.
  abbrev pub IsSized : Ipmi F → Type 0
  IsSized r =
      (length r.readings.psu_power ≡ r.num_psus) × (length r.readings.psu_energy ≡ r.num_psus)

  put-returns :
      (i : ℕ) (v : F) (r : Ipmi F)
      → i < length r.readings.psu_power
      → (r' : Ipmi F) × (put_power d stof i v r ≡ returns r')
  unfolding put_power
  put-returns i v r lt =
      let q = r.readings in
      (
        record r {
          readings = record q {
            psu_power = set q.psu_power i v;
            overall_power = d.single (d.add q.overall_power v);
          };
        },
        rw (lt→ltb i (length q.psu_power) lt) refl,
      )

  line-returns :
      (i : ℕ) (line : Text) (seen : ℕ) (r : Ipmi F)
      → i < length r.readings.psu_power
      → ((contains (codes "Instantaneous Power") line ≡ true)
          → (v : F) × (value d stof line ≡ returns v))
      → (p : Ipmi F × ℕ) × (power_line d stof i line seen r ≡ returns p)
  unfolding power_line
  line-returns i line seen r lt h =
      elim (Bool-cases (contains (codes "Instantaneous Power") line)) [
        | inl b ↦
            let (v, e) = h b in
            let (r', e') = put-returns i v r lt in ((r', seen + 1), rw (b, e, e') refl)
        | inr b ↦ ((r, seen), rw b refl)
      ]

  read-returns :
      (i : ℕ) (lines : List Text) (seen : ℕ) (r : Ipmi F)
      → i < length r.readings.psu_power
      → IsReadable (some lines)
      → (p : Ipmi F × ℕ) × (read_power d stof i lines seen r ≡ returns p)
  unfolding read_power
  read-returns i [] seen r lt h = ((r, seen), refl)
  read-returns i (line ∷ lines) seen r lt h =
      let (q, e) = line-returns i line seen r lt (h.0) in
      let k = line-seen d stof i line seen r q e in
      let (p, e') = read-returns i lines (q.1) (q.0) (ground arith) (h.1) in (p, rw e e')

  get-returns :
      (run : Run) (i : ℕ) (r : Ipmi F)
      → i < length r.readings.psu_power
      → IsReadable run
      → (p : Ipmi F × Status) × (get_power d stof run i r ≡ returns p)
  unfolding get_power
  get-returns none i r lt h = (_, refl)
  get-returns (some lines) i r lt h =
      ends-map (read_power d stof i lines 0 r) _ (read-returns i lines 0 r lt h)

  parse-returns :
      (i : ℕ) (r : Ipmi F)
      → i < length r.readings.psu_power
      → i < length r.readings.psu_energy
      → (r' : Ipmi F) × (parse_results d stof i r ≡ returns r')
  unfolding parse_results
  parse-returns i r lt lt' = elim (Bool-cases r.valid) [
    | inl b ↦ (account d stof i r, ground arith)
    | inr b ↦ (r, ground arith)
  ]

  meter-returns :
      (runs : ℕ → Run) (i : ℕ) (r : Ipmi F)
      → i < r.num_psus
      → IsSized r
      → IsReadable (runs i)
      → (p : Ipmi F × Status) × (meter d stof runs i r ≡ returns p) × Kept d stof r (p.0)
  meter-returns runs i r lt z h =
      let (q, e) = get-returns (runs i) i r (omega arith) h in
      let k = get-status d stof (runs i) i r q e in
      let (r', e') = parse-returns i (q.0) (omega arith) (omega arith) in
      let run : meter d stof runs i r ≡ returns (r', q.1) = unfold meter in rw (e, e') refl in
      ((r', q.1), run, (meter-status d stof runs i r (r', q.1) run).1)

  meter_all-returns :
      (runs : ℕ → Run) (left i : ℕ) (st : Status) (r : Ipmi F)
      → i + left ≤ r.num_psus
      → IsSized r
      → ((j : ℕ) → IsReadable (runs j))
      → (p : Ipmi F × Status) × (meter_all d stof runs left i st r ≡ returns p)
  unfolding meter_all
  meter_all-returns runs zero i st r le z h = ((r, st), refl)
  meter_all-returns runs (suc left) i st r le z h =
      let (q, e, k) = meter-returns runs i r (omega arith) z (h i) in
      let (p, e') =
        meter_all-returns runs left (i + 1) (q.1) (q.0) (omega arith) (omega arith, omega arith)
          h in
      (p, rw e e')

  walk-returns :
      (runs : ℕ → Run) (r : Ipmi F)
      → IsSized r
      → ((j : ℕ) → IsReadable (runs j))
      → (p : Ipmi F × Status) × (walk d stof runs r ≡ returns p)
  unfolding walk
  walk-returns runs r z h = elim (Bool-cases (ltb r.psu_id r.num_psus)) [
    | inl b ↦
        let (p, e, _) = meter-returns runs r.psu_id r (ground arith) z (h r.psu_id) in (p, rw b e)
    | inr b ↦
        let (p, e) = meter_all-returns runs r.num_psus 0 status_ok r (omega arith) z h in
        (p, rw b e)
  ]

  -- A trigger of a meter with one element for each unit returns, whatever device is selected, if
  -- every line of the instantaneous power has a number; commands that cannot be run and commands
  -- that print no such line are no obstacle. The sensors are not built in.
  pub trigger-ends :
      (runs : ℕ → Run) (time : ℕ) (r : Ipmi F)
      → IsSized r
      → ((i : ℕ) → IsReadable (runs i))
      → (r' : Ipmi F) × (st : Status) × (trigger d stof none runs time r ≡ returns (r', st))
        × IsSized r'
  unfolding trigger stamp validate
  trigger-ends runs time r z h =
      let r1 = stamp d stof time r in
      let (q, e) = walk-returns runs r1 z h in
      let k = walk-status d stof runs r1 q e in
      (record (q.0) { valid = true }, q.1, rw e refl, (omega arith, omega arith))
