-- ===== src/Proc/Stat/Cores.antt =====
-- The usages of the cores after a sample of the whole system.
use efimon.Prelude.{
  ℕ, zero, suc, ◌+◌, ◌-◌, ◌≤◌, ◌<◌, ◌≡◌, refl, ap, subst, ◌∙◌, none, some, List, [], ◌∷◌, arith,
  length, get_elem?, set, length-set, get_elem?-set_self, get_elem?-set_ne, lt→ltb,
}
use native.Mathlib.Decide.{ℕ_discrete}
use efimon.Float.{Float}
use efimon.Outcome.{Outcome, returns, ◌>>=◌}
use efimon.Proc.Machine.{Machine}
use efimon.Proc.Stat.{ProcStatGlobalData, StatObserver, max_num_cpus, zero_core}
use efimon.Proc.Stat.Global.{
  core_at, rounds, core_usage, sampled, write_usage, translate_cores, resized, report,
  translate_global,
}

module _ {F : Type 0} (d : Float F) where
  -- The usages from position `i` on are those of the cores one position further, and those before
  -- it are as they were.
  abbrev pub Covers : Machine → ℕ → ℕ → ℕ → List ProcStatGlobalData → List F → List F → Type 0
  Covers m uptime left i cores old new =
      (j : ℕ)
      → ((j < i) → get_elem? new j ≡ get_elem? old j)
        × ((i ≤ j)
            → (j < i + left)
            → get_elem? new j ≡ some (core_usage d m uptime (core_at cores (j + 1))))

  pub length-resized : (n : ℕ) (us : List F) → length (resized d n us) ≡ n
  unfolding resized
  length-resized zero us = refl
  length-resized (suc n) [] = ap suc (length-resized n [])
  length-resized (suc n) (u ∷ us) = ap suc (length-resized n us)

  translate_cores-returns :
      (m : Machine) (uptime left i : ℕ) (cores : List ProcStatGlobalData) (usages : List F)
      → i + left ≤ length usages
      → (cores' : List ProcStatGlobalData) × (usages' : List F) × (translate_cores d m uptime left i
            cores usages
          ≡ returns (cores', usages'))
        × (length usages' ≡ length usages)
        × Covers m uptime left i cores usages usages'
  unfolding translate_cores write_usage
  translate_cores-returns m uptime zero i cores usages h =
      (cores, usages, refl, refl, λ j. (λ _. refl, λ a b. absurd (omega arith)))
  translate_cores-returns m uptime (suc left) i cores usages h =
      let c = core_at cores (i + 1) in
      let u : F = core_usage d m uptime c in
      let cores1 = set cores (i + 1) (sampled d m uptime c) in
      let us : List F = set usages i u in
      let (cs', us', e, len, cov) =
        translate_cores-returns m uptime left (i + 1) cores1 us
          (omega (arith, length-set usages i u)) in
      (
        cs',
        us',
        rw (lt→ltb i (length usages) (omega arith)) e,
        len ∙ length-set usages i u,
        λ j. (
          λ lt. (cov j).0 (omega arith) ∙ get_elem?-set_ne usages i j u (omega arith),
          λ ge lt. elim (ℕ_discrete i j) [
            | yes same ↦
                (cov j).0 (omega arith)
                ∙ subst (λ k. get_elem? us k ≡ some (core_usage d m uptime (core_at cores (k + 1))))
                    same (get_elem?-set_self usages i u (omega arith))
            | no other ↦
                (cov j).1 (omega arith) (omega arith)
                ∙ ap (λ o. some (core_usage d m uptime (elim o [ none ↦ zero_core | some c ↦ c ])))
                    (get_elem?-set_ne cores (i + 1) (j + 1) (sampled d m uptime c) (omega arith))
          ],
        ),
      )

  -- On a machine with fewer cores than the table has room for, a sample of the whole system never
  -- writes out of range, and gives each core the usage of its own line.
  translate_global-cores :
      (m : Machine) (o : StatObserver F)
      → m.processors + 1 < max_num_cpus
      → (o' : StatObserver F) × (translate_global d m o ≡ returns o')
        × (length o'.cpu_readings.core_usage ≡ m.processors)
        × ((j : ℕ)
            → (j < m.processors)
            → get_elem? o'.cpu_readings.core_usage j
              ≡ some (core_usage d m o.uptime (core_at o.global_data (j + 1))))
  unfolding translate_global
  translate_global-cores m o h =
      let q = o.cpu_readings in
      let first = sampled d m o.uptime (core_at o.global_data 0) in
      let size = length-resized m.processors q.core_usage in
      let all : rounds m - 1 ≡ m.processors = ground arith in
      let (cs, us, e, len, cov) =
        translate_cores-returns m o.uptime m.processors 0 (set o.global_data 0 first)
          (resized d m.processors q.core_usage) (omega arith) in
      (
        report d m o (cs, us),
        ap
              (λ n.
                translate_cores d m o.uptime n 0 (set o.global_data 0 first)
                  (resized d m.processors q.core_usage)
                >>= λ p. returns (report d m o p))
              all
            ∙ ap {B = Outcome (StatObserver F)} (λ t. t >>= λ p. returns (report d m o p)) e,
        (unfold report in len ∙ size),
        unfold report in
            λ j lt.
              (cov j).1 (omega arith) (omega arith)
              ∙ ap
                  (λ o'. some (core_usage d m o.uptime (elim o' [ none ↦ zero_core | some c ↦ c ])))
                  (get_elem?-set_ne o.global_data 0 (j + 1) first (omega arith)),
      )
