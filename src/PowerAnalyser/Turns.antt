-- ===== src/PowerAnalyser/Turns.antt =====
-- How many rows a limit of samples gives.
use efimon.Prelude.{
  ℕ, zero, suc, ◌+◌, ◌≡◌, refl, Bool, true, false, List, [], ◌∷◌, arith, length, replicate, All,
  length-append, Text,
}
use efimon.Float.{Float}
use efimon.Status.{Status, status_ok}
use efimon.Outcome.{Outcome, returns}
use efimon.Logger.{Value, CsvLogger, insert_row}
use efimon.Logger.Rows.{insert_row-opened}
use efimon.Daemon.Columns.{Features}
use efimon.PowerAnalyser.{Sizes, Observers, sample_values, triggers, trigger_all, measure}

-- The trigger always returns, with the OK status.
abbrev pub Succeeds : {M : Type 0} → (M → Outcome (M × Status)) → Type 0
Succeeds {M} t = (m : M) → (m' : M) × (t m ≡ returns (m', status_ok))

trigger_all-returns :
    {M : Type 0} (ts : List (M → Outcome (M × Status))) (m : M)
    → All Succeeds ts
    → (m' : M) × (trigger_all ts m ≡ returns (m', true))
unfolding trigger_all
trigger_all-returns [] m h = (m, refl)
trigger_all-returns (t ∷ ts) m h =
    let (m1, e1) = h.0 m in
    let (m2, e2) = trigger_all-returns ts m1 (h.1) in (m2, rw (e1, trigger_all) e2)

module _ {F M : Type 0} (d : Float F) (arrange : List (ℕ × F) → List (ℕ × F))
    (float_text : F → Text) (on : Features) (z : Sizes) (api : Observers F M) where
  -- Every trigger that is built succeeds, and every sample has the elements that a row reads.
  pub record IsReady : Type 0 where
    pub succeed : All Succeeds (triggers on api)
    pub whole_rows :
        (m : M)
        → (vals : List (Text × Value F)) × (sample_values d arrange on z (api.sample m)
            ≡ returns vals)

  abbrev Measured : List Bool → Bool → M → CsvLogger → ℕ → Type 0
  Measured turns first m l n =
      (r : M × CsvLogger) × (measure d arrange float_text on z api turns first m l ≡ returns r)
      × (length r.1.records ≡ length l.records + n)

  insert_row-file :
      (vals : List (Text × Value F)) (l : CsvLogger)
      → l.opened ≡ true
      → ((insert_row float_text vals l).0.opened ≡ true)
        × (length (insert_row float_text vals l).0.records ≡ length l.records + 1)
  unfolding insert_row
  insert_row-file vals l o =
      rw (insert_row-opened float_text vals l o) (o, length-append l.records _)

  measure-later :
      IsReady
      → (n : ℕ) (m : M) (l : CsvLogger) → l.opened ≡ true
      → Measured (replicate n false) false m l n
  unfolding measure
  measure-later g zero m l o = ((m, l), refl, omega arith)
  measure-later g (suc n) m l o =
      let (m', e) = trigger_all-returns (triggers on api) m g.succeed in
      let (vals, v) = g.whole_rows m' in
      let (o', len) = insert_row-file vals l o in
      let (r, done, count) = measure-later g n m' (insert_row float_text vals l).0 o' in
      (r, rw (e, v) done, omega arith)

  -- Where no observer fails and the process goes on, a limit of one more than n samples ends with n
  -- rows in the log: the first sample of all is not logged.
  pub measure-rows :
      IsReady
      → (n : ℕ) (m : M) (l : CsvLogger) → l.opened ≡ true
      → (r : M × CsvLogger) × (measure d arrange float_text on z api
            (replicate (suc n) false)
            true
            m
            l
          ≡ returns r)
        × (length r.1.records ≡ length l.records + n)
  unfolding measure
  measure-rows g n m l o =
      let (m', e) = trigger_all-returns (triggers on api) m g.succeed in
      let (r, done, count) = measure-later g n m' l o in (r, rw e done, count)
