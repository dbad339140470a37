-- ===== src/PowerAnalyser/Measures.antt =====
-- What the power analyser writes into its log.
use efimon.Prelude.{
  ℕ, ◌-◌, ◌≤◌, ◌≡◌, subst, inl, inr, Bool, true, false, List, [], ◌∷◌, arith, Bool-cases, length,
  All, Text,
}
use efimon.Float.{Float}
use efimon.Outcome.{returns, >>=-returns}
use efimon.Logger.{Value, CsvLogger, insert_row}
use efimon.Logger.Rows.{insert_all}
use efimon.Daemon.Columns.{Features}
use efimon.Daemon.Rows.Filled.{AreKnown}
use efimon.PowerAnalyser.{
  Sizes, Observers, log_table, sample_values, triggers, trigger_all, measure,
}
use efimon.PowerAnalyser.Known.{sample_values-AreKnown}

-- The turns whose sample is logged: the first of all is not.
abbrev pub logged : Bool → ℕ → ℕ
logged true turns = turns - 1
logged false turns = turns

module _ {F M : Type 0} (d : Float F) (arrange : List (ℕ × F) → List (ℕ × F))
    (float_text : F → Text) (on : Features) (z : Sizes) (api : Observers F M) where
  -- The rows that take one logger to another, at most `count` of them, with a column for each value.
  abbrev pub Grows : ℕ → ℕ → CsvLogger → CsvLogger → Type 0
  Grows sockets count l l' =
      (rows : List (List (Text × Value F))) × (l' ≡ insert_all float_text rows l)
      × (length rows ≤ count)
      × All (AreKnown (log_table on z sockets)) rows

  module _ (sockets : ℕ) (fixed : (m : M) → (api.sample m).num_sockets ≡ sockets) where
    known :
        (m : M) (vals : List (Text × Value F))
        → sample_values d arrange on z (api.sample m) ≡ returns vals
        → AreKnown (log_table on z sockets) vals
    known m vals e =
        subst (λ n. AreKnown (log_table on z n) vals) (fixed m)
          (sample_values-AreKnown d arrange on z (api.sample m) vals e)

    -- A measurement that returns has inserted rows into the log and done nothing else to it: at most
    -- one for each turn but the first, and every value of a row has a column in the table, if the
    -- number of sockets stays what it was when the table was made.
    pub measure-insert_all :
        (turns : List Bool) (first : Bool) (m m' : M) (l l' : CsvLogger)
        → measure d arrange float_text on z api turns first m l ≡ returns (m', l')
        → Grows sockets (logged first (length turns)) l l'
    unfolding measure
    measure-insert_all [] first m m' l l' e = ([], ground arith, omega arith, tt)
    measure-insert_all (true ∷ turns) first m m' l l' e = ([], ground arith, omega arith, tt)
    measure-insert_all (false ∷ turns) true m m' l l' e =
        let (p, e1, e2) = >>=-returns (trigger_all (triggers on api) m) _ _ e in
        elim (Bool-cases (p.1)) [
          | inr bad ↦ ([], (let e3 = rw bad at e2 in ground arith), omega arith, tt)
          | inl good ↦
              let (rows, same, few, all) =
                measure-insert_all turns false (p.0) m' l l' (rw good at e2) in
              (rows, same, omega arith, all)
        ]
    measure-insert_all (false ∷ turns) false m m' l l' e =
        let (p, e1, e2) = >>=-returns (trigger_all (triggers on api) m) _ _ e in
        elim (Bool-cases (p.1)) [
          | inr bad ↦ ([], (let e3 = rw bad at e2 in ground arith), omega arith, tt)
          | inl good ↦
              let e3 = rw good at e2 in
              let (vals, e4, e5) =
                >>=-returns (sample_values d arrange on z (api.sample (p.0))) _ _ e3 in
              let (rows, same, few, all) =
                measure-insert_all turns false (p.0) m' (insert_row float_text vals l).0 l' e5 in
              (vals ∷ rows, same, omega arith, (known (p.0) vals e4, all))
        ]
