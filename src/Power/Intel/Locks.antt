-- ===== src/Power/Intel/Locks.antt =====
-- The mutex that the meters share.
use efimon.Prelude.{ℕ, ◌≡◌, refl, ◌≢◌, true, false}
use efimon.Float.{Float}
use efimon.Observer.{system}
use efimon.Power.Intel.{
  Programmed, success, msr_access_denied, pmu_busy, unknown_error, Pcm, Shared, IntelReadings,
  Intel, ended, raised, waits, trigger, reset, get_status, with_caps, program_status,
  program_counters, construct,
}

module _ {F S : Type 0} (d : Float F) (api : Pcm F S) where
  -- No call of any meter comes to its end.
  abbrev pub IsStuck : Shared S → Type 0
  IsStuck g =
      (sample : S) (time : ℕ) (m : Intel F)
      → (trigger d api sample time g m ≡ waits)
        × (reset d api g m ≡ waits)
        × (get_status d api g m ≡ waits)

  locked-IsStuck : (g : Shared S) → g.locked ≡ true → IsStuck g
  unfolding trigger reset get_status
  locked-IsStuck g h sample time m = (rw h refl, rw h refl, rw h refl)

  -- A second meter is made, with the mutex that its constructor has locked: from then on every
  -- trigger, reset and question for the status, of it and of the first meter, waits for ever.
  pub construct-second :
      (memory : IntelReadings F) (pid ms : ℕ) (answer : Programmed) (sample : S) (time : ℕ)
      (g : Shared S)
      → g.locked ≡ false
      → g.created ≡ true
      → (m : Intel F) × (g' : Shared S) × (construct d api memory pid system ms answer sample time g
          ≡ ended m g')
        × IsStuck g'
  unfolding construct
  construct-second memory pid ms answer sample time g free made =
      let m : Intel F = record {
        valid = false;
        pid = pid;
        interval_ms = ms;
        caps_type = 0;
        readings = memory;
      } in
      let g' : Shared S = record g { locked = true } in
      (with_caps d api m, g', rw (free, made) refl, locked-IsStuck g' refl)

  -- If the counters cannot be programmed, the constructor of the first meter throws the status of the
  -- answer and leaves the mutex locked: every later call of any meter waits for ever.
  pub construct-refused :
      (memory : IntelReadings F) (pid ms : ℕ) (answer : Programmed) (sample : S) (time : ℕ)
      (g : Shared S)
      → g.locked ≡ false
      → g.created ≡ false
      → answer ≢ success
      → (g' : Shared S) × (construct d api memory pid system ms answer sample time g
          ≡ raised (program_status d api answer) g')
        × IsStuck g'
  unfolding construct program_counters
  construct-refused memory pid ms success sample time g free made n = absurd (n refl)
  construct-refused memory pid ms msr_access_denied sample time g free made n =
      let g' : Shared S = record g { locked = true; created = true } in
      (g', rw (free, made) refl, locked-IsStuck g' refl)
  construct-refused memory pid ms pmu_busy sample time g free made n =
      let g' : Shared S = record g { locked = true; created = true } in
      (g', rw (free, made) refl, locked-IsStuck g' refl)
  construct-refused memory pid ms unknown_error sample time g free made n =
      let g' : Shared S = record g { locked = true; created = true } in
      (g', rw (free, made) refl, locked-IsStuck g' refl)
