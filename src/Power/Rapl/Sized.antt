-- ===== src/Power/Rapl/Sized.antt =====
-- The vectors of the meter have one element for each socket, so no access is out of range.
use efimon.Prelude.{
  ℕ, zero, suc, ◌+◌, ◌≤◌, ◌<◌, ◌≡◌, refl, ap, ◌≢◌, inl, inr, true, List, [], ◌∷◌, arith, ltb,
  Bool-cases, length, length-set,
}
use efimon.Float.{Float}
use efimon.Status.{Status, status_ok, fail, not_found}
use efimon.Observer.{system}
use efimon.Outcome.{returns}
use efimon.Power.Rapl.{
  PowerReadings, Rapl, Sample, unopened, unparsable, payload, resize, store, get_socket_consumption,
  account, parse_results, meter, meter_all, stamp, validate, walk, trigger, reset, blank, construct,
}

pub length-resize {ℓ} : {A : Type ℓ} (n : ℕ) (v : A) (xs : List A) → length (resize n v xs) ≡ n
unfolding resize
length-resize zero v xs = refl
length-resize (suc n) v [] = ap suc (length-resize n v [])
length-resize (suc n) v (x ∷ xs) = ap suc (length-resize n v xs)

-- One element for each socket in every vector that is indexed by a socket.
pub record IsSized {F : Type 0} (r : Rapl F) : Type 0 where
  pub before_len : length r.before ≡ r.num_sockets
  pub after_len : length r.after ≡ r.num_sockets
  pub max_len : length r.max ≡ r.num_sockets
  pub power_len : length r.readings.socket_power ≡ r.num_sockets
  pub energy_len : length r.readings.socket_energy ≡ r.num_sockets

module _ {F : Type 0} (d : Float F) where
  open d use {of_ℕ}

  -- What is kept through one socket: the sizes, the number of sockets, the flag and the time.
  abbrev pub Kept : Rapl F → Rapl F → Type 0
  Kept r r' =
      IsSized r'
      × (r'.num_sockets ≡ r.num_sockets)
      × (r'.valid ≡ r.valid)
      × (r'.readings.timestamp ≡ r.readings.timestamp)
      × (r'.readings.difference ≡ r.readings.difference)

  Kept-trans : (a b c : Rapl F) → Kept a b → Kept b c → Kept a c
  Kept-trans a b c p q = ground arith

  store-Kept : (s : ℕ) (u m : F) (r : Rapl F) → IsSized r → Kept r (store d s u m r)
  unfolding store
  store-Kept s u m r z = grind (arith, length-set)

  account-Kept : (s : ℕ) (r : Rapl F) → IsSized r → Kept r (account d s r)
  unfolding account
  account-Kept s r z = grind (arith, length-set)

  pub reset-IsSized : (r : Rapl F) → IsSized (reset d r).0
  unfolding reset
  reset-IsSized r = record {
    before_len = length-resize r.num_sockets (of_ℕ 0) r.before;
    after_len = length-resize r.num_sockets (of_ℕ 0) r.after;
    max_len = length-resize r.num_sockets (of_ℕ 0) r.max;
    power_len = length-resize r.num_sockets (of_ℕ 0) [];
    energy_len = length-resize r.num_sockets (of_ℕ 0) r.readings.socket_energy;
  }

  get-returns :
      (s : ℕ) (x : Sample F) (r : Rapl F)
      → IsSized r
      → s < r.num_sockets
      → x ≢ unparsable
      → (r' : Rapl F) × (st : Status) × (get_socket_consumption d s x r ≡ returns (r', st))
        × Kept r r'
  unfolding get_socket_consumption
  get-returns s unopened r z lt h =
      (r, fail not_found "The RAPL Interface cannot be opened", refl, ground arith)
  get-returns s unparsable r z lt h = absurd (h refl)
  get-returns s (payload u m) r z lt h =
      (store d s u m r, status_ok, ground arith, store-Kept s u m r z)

  pub parse-returns :
      (s : ℕ) (r : Rapl F)
      → IsSized r
      → s < r.num_sockets
      → parse_results d s r ≡ returns (account d s r)
  unfolding parse_results
  parse-returns s r z lt = ground arith

  meter-returns :
      (files : ℕ → Sample F) (s : ℕ) (r : Rapl F)
      → IsSized r
      → s < r.num_sockets
      → files s ≢ unparsable
      → (r' : Rapl F) × (meter d files s r ≡ returns r') × Kept r r'
  unfolding meter
  meter-returns files s r z lt h =
      let (g, st, e, k) = get-returns s (files s) r z lt h in
      (
        account d s g,
        rw e (parse-returns s g k.0 (omega arith)),
        Kept-trans r g (account d s g) k (account-Kept s g k.0),
      )

  meter_all-returns :
      (files : ℕ → Sample F) (left i : ℕ) (r : Rapl F)
      → IsSized r
      → i + left ≤ r.num_sockets
      → ((s : ℕ) → files s ≢ unparsable)
      → (r' : Rapl F) × (meter_all d files left i r ≡ returns r') × Kept r r'
  unfolding meter_all
  meter_all-returns files zero i r z le h = (r, refl, ground arith)
  meter_all-returns files (suc left) i r z le h =
      let (g, e, k) = meter-returns files i r z (omega arith) (h i) in
      let (r', e', k') = meter_all-returns files left (i + 1) g k.0 (omega arith) h in
      (r', rw e e', Kept-trans r g r' k k')

  pub stamp-IsSized : (time : ℕ) (r : Rapl F) → IsSized r → IsSized (stamp d time r)
  unfolding stamp
  stamp-IsSized time r z = ground arith

  -- A trigger of a meter whose vectors have one element for each socket always returns, with the OK
  -- status, whatever device is selected, if no file holds a line that is no number; the vectors
  -- keep their sizes, the meter is valid from then on, and the time is its timestamp.
  pub trigger-returns :
      (files : ℕ → Sample F) (time : ℕ) (r : Rapl F)
      → IsSized r
      → ((s : ℕ) → files s ≢ unparsable)
      → (r' : Rapl F) × (trigger d files time r ≡ returns (r', status_ok))
        × IsSized r'
        × (r'.num_sockets ≡ r.num_sockets)
        × (r'.valid ≡ true)
        × (r'.readings.timestamp ≡ time)
  unfolding trigger walk stamp validate
  trigger-returns files time r z h = elim (Bool-cases (ltb r.device r.num_sockets)) [
    | inl one ↦
        let (g, e, k) =
          meter-returns files r.device (stamp d time r) (stamp-IsSized time r z) (ground arith)
            (h r.device) in
        (record g { valid = true }, rw (one, e), ground arith, k.1, refl, k.3)
    | inr every ↦
        let (g, e, k) =
          meter_all-returns files r.num_sockets 0 (stamp d time r) (stamp-IsSized time r z)
            (omega arith) h in
        (record g { valid = true }, rw (every, e), ground arith, k.1, refl, k.3)
  ]

  -- So the constructor of a system-wide meter returns a meter that is valid and of the right size.
  pub construct-returns :
      (memory : PowerReadings F) (sockets cores ms time : ℕ) (files : ℕ → Sample F)
      → ((s : ℕ) → files s ≢ unparsable)
      → (r : Rapl F) × (construct d memory sockets cores system ms files time ≡ returns r)
        × IsSized r
        × (r.num_sockets ≡ sockets)
        × (r.valid ≡ true)
  unfolding construct
  construct-returns memory sockets cores ms time files h =
      let (r, e, z, n, v, _) =
        trigger-returns files time (reset d (blank d memory sockets cores ms)).0
          (reset-IsSized (blank d memory sockets cores ms)) h in
      (r, rw e, z, unfold reset blank in n, v)
