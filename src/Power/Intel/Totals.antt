-- ===== src/Power/Intel/Totals.antt =====
-- The sums of the sockets.
use efimon.Prelude.{
  ℕ, zero, suc, ◌+◌, ◌<◌, ◌≡◌, refl, sym, ap, ◌∙◌, ◌≢◌, inl, inr, true, false, some, List, [], ◌∷◌,
  ◌++◌, arith, ltb, ◌==◌, Bool-cases, Option-cases, length, set, replicate, length-append,
}
use efimon.Float.{Float, IsExact}
use efimon.Status.{Status}
use efimon.Observer.{type_bits, cpu, power}
use efimon.Words.{sub64}
use efimon.Power.Rapl.{nth}
use efimon.Power.Rapl.Totals.{sum, sum-set}
use efimon.Power.Intel.{
  Pcm, Shared, IntelReadings, Intel, ended, add_at, parse_cores, parse_socket, parse_sockets,
  parse_results, sample_locked, trigger,
}

module _ {F S : Type 0} (d : Float F) (api : Pcm F S) (laws : IsExact d) where
  open d use {of_ℕ, add, mul, div, single}
  open laws use {add_assoc, add_comm, zero-add, single_id}

  sum-append_one : (xs : List F) (x : F) → sum d (xs ++ (x ∷ [])) ≡ add (sum d xs) x
  sum-append_one [] x = add_comm x (of_ℕ 0)
  sum-append_one (y ∷ xs) x = ap (add y) (sum-append_one xs x) ∙ sym (add_assoc y (sum d xs) x)

  -- The overall power is the sum of the powers, and the overall energy the sum of the energies.
  abbrev pub IsSummed : IntelReadings F → Type 0
  IsSummed q = (q.overall_power ≡ sum d q.socket_power) × (q.overall_energy ≡ sum d q.socket_energy)

  -- The energies alone.
  abbrev pub IsCounted : IntelReadings F → Type 0
  IsCounted q = q.overall_energy ≡ sum d q.socket_energy

  cores-same :
      (a b : S) (left i : ℕ) (q : IntelReadings F) (counts : List ℕ)
      → let q' = (parse_cores d api a b left i (q, counts)).0 in
        (q'.overall_power ≡ q.overall_power)
        × (q'.socket_power ≡ q.socket_power)
        × (q'.overall_energy ≡ q.overall_energy)
        × (q'.socket_energy ≡ q.socket_energy)
        × (q'.timestamp ≡ q.timestamp)
  unfolding parse_cores
  cores-same a b zero i q counts = (refl, refl, refl, refl, refl)
  cores-same a b (suc left) i q counts = cores-same a b left (i + 1) _ _

  socket-IsSummed :
      (a b : S) (counts : List ℕ) (i : ℕ) (q : IntelReadings F)
      → i < length q.socket_energy
      → IsSummed q
      → let q' = parse_socket d api a b counts i q in
        IsSummed q' × (length q'.socket_power ≡ length q.socket_power + 1)
  unfolding parse_socket add_at
  socket-IsSummed a b counts i q lt (p, e) =
      let energy = single (api.joules a b i) in
      let watts = single (div (single (mul energy (of_ℕ 1000))) (single (of_ℕ q.difference))) in
      (
        (
          single_id (add q.overall_power watts)
              ∙ (ap (λ y. add y watts) p ∙ sym (sum-append_one q.socket_power watts)),
          single_id (add q.overall_energy energy)
              ∙ (ap (λ y. add y energy) e
                  ∙ (sym (sum-set d laws q.socket_energy i energy lt)
                      ∙ ap (λ y. sum d (set q.socket_energy i y))
                          (sym (single_id (add (nth d q.socket_energy i) energy))))),
        ),
        length-append q.socket_power (watts ∷ []),
      )

  sockets-IsSummed :
      (a b : S) (counts : List ℕ) (left i : ℕ) (q q' : IntelReadings F)
      → IsSummed q
      → parse_sockets d api a b counts left i q ≡ some q'
      → IsSummed q' × (length q'.socket_power ≡ length q.socket_power + left)
  unfolding parse_sockets
  sockets-IsSummed a b counts zero i q q' h e = ground arith
  sockets-IsSummed a b counts (suc left) i q q' h e =
      elim (Bool-cases (ltb i (length q.socket_energy))) [
        | inl lt ↦
            let s = socket-IsSummed a b counts i q (ground arith) h in
            let r =
              sockets-IsSummed a b counts left (i + 1) (parse_socket d api a b counts i q) q' (s.0)
                (rw lt at e) in
            (r.0, omega arith)
        | inr ge ↦ absurd (ground arith)
      ]

  results-IsSummed :
      (a b : S) (q q' : IntelReadings F)
      → IsCounted q
      → parse_results d api a b q ≡ some q'
      → IsSummed q' × (length q'.socket_power ≡ api.num_sockets)
  unfolding parse_results
  results-IsSummed a b q q' h e =
      let zeros : List F = replicate api.num_sockets (of_ℕ 0) in
      let fresh : IntelReadings F = record q {
        overall_power = of_ℕ 0;
        socket_power = [];
        overall_usage = of_ℕ 0;
        socket_usage = zeros;
        core_usage = [];
      } in
      let counts : List ℕ = replicate api.num_sockets 0 in
      let (p, ps, t, ts, _) = cores-same a b api.num_cores 0 fresh counts in
      let (q1, counts') = parse_cores d api a b api.num_cores 0 (fresh, counts) in
      let q2 : IntelReadings F = record q1 {
        overall_usage = single (div q1.overall_usage (single (of_ℕ api.num_cores)));
      } in
      let power : q2.overall_power ≡ sum d q2.socket_power = p ∙ ap (sum d) (sym ps) in
      let energy : q2.overall_energy ≡ sum d q2.socket_energy = t ∙ (h ∙ ap (sum d) (sym ts)) in
      let none_yet = ap length ps in
      let r = sockets-IsSummed a b counts' api.num_sockets 0 q2 q' (power, energy) e in
      (r.0, omega arith)

  -- If no addition or rounding loses anything, a trigger that returns after the first sample leaves
  -- an overall power that is the sum of the powers of the sockets, of which there is one for each,
  -- keeps the overall energy equal to the sum of their energies, and releases the mutex.
  pub trigger-IsSummed :
      (sample : S) (time : ℕ) (g g' : Shared S) (m m' : Intel F) (st : Status)
      → g.pcm_valid ≢ 0
      → IsCounted m.readings
      → trigger d api sample time g m ≡ ended (m', st) g'
      → IsSummed m'.readings
        × (length m'.readings.socket_power ≡ api.num_sockets)
        × (m'.valid ≡ true)
        × (g'.locked ≡ false)
  unfolding trigger sample_locked
  trigger-IsSummed sample time g g' m m' st n h e =
      let q0 : IntelReadings F = record m.readings {
        type = type_bits cpu + type_bits power;
        difference = sub64 time m.readings.timestamp;
        timestamp = time;
      } in
      let free : g.locked ≡ false = ground arith in
      let counted : (g.pcm_valid == 0) ≡ false = ground arith in
      elim (Option-cases (parse_results d api g.state_1 sample q0)) [
        | inl r ↦ absurd (ground arith)
        | inr (q, r) ↦ let k = results-IsSummed g.state_1 sample q0 q h r in ground arith
      ]
