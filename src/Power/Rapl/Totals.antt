-- ===== src/Power/Rapl/Totals.antt =====
-- The accumulated energies: the overall one against those of the sockets.
use efimon.Prelude.{
  lt→ltb, ℕ, zero, suc, ◌+◌, ◌<◌, ◌≡◌, refl, sym, ap, true, List, [], ◌∷◌, arith, length, set,
}
use efimon.Float.{Float, IsExact}
use efimon.Status.{Status, status_ok}
use efimon.Outcome.{Outcome, returns, throws, escapes, faults, ◌>>=◌}
use efimon.Power.Rapl.{
  Rapl, Sample, unopened, unparsable, payload, resize, nth, store, interval_energy,
  get_socket_consumption, account, parse_results, meter, meter_all, stamp, validate, walk, trigger,
  reset,
}
use efimon.Power.Rapl.Sized.{IsSized, parse-returns, stamp-IsSized}

>>=-eq-returns {ℓ κ} :
    {A : Type ℓ} {B : Type κ} (m : Outcome A) (f : A → Outcome B) {b : B}
    → (m >>= f) ≡ returns b
    → (a : A) × (m ≡ returns a) × (f a ≡ returns b)
>>=-eq-returns (returns a) f h = (a, refl, h)
>>=-eq-returns (throws e) f h = cc
>>=-eq-returns escapes f h = cc
>>=-eq-returns faults f h = cc

resize_same {ℓ} : {A : Type ℓ} (n : ℕ) (v : A) (xs : List A) → length xs ≡ n → resize n v xs ≡ xs
unfolding resize
resize_same zero v [] h = refl
resize_same zero v (x ∷ xs) h = absurd (omega arith)
resize_same (suc n) v [] h = absurd (omega arith)
resize_same (suc n) v (x ∷ xs) h = ap (λ t. x ∷ t) (resize_same n v xs (omega arith))

module _ {F : Type 0} (d : Float F) where
  open d use {of_ℕ, add, single}

  abbrev pub sum : List F → F
  sum [] = of_ℕ 0
  sum (x ∷ xs) = add x (sum xs)

  -- The overall energy is the sum of the sockets' energies.
  abbrev pub IsBalanced : Rapl F → Type 0
  IsBalanced r = r.readings.overall_energy ≡ sum r.readings.socket_energy

  module _ (laws : IsExact d) where
    open laws use {add_assoc, add_comm, zero-add, single_id}

    pub sum-set :
        (xs : List F) (i : ℕ) (e : F)
        → i < length xs
        → sum (set xs i (add (nth d xs i) e)) ≡ add (sum xs) e
    unfolding nth
    sum-set [] i e h = elim h [ ]
    sum-set (x ∷ xs) zero e h =
        cc (add_assoc x e (sum xs), add_comm e (sum xs), add_assoc x (sum xs) e)
    sum-set (x ∷ xs) (suc i) e h = rw (sum-set xs i e (omega arith)) (sym (add_assoc x (sum xs) e))

    account-IsBalanced :
        (s : ℕ) (r : Rapl F)
        → IsBalanced r
        → ((r.valid ≡ true) → s < length r.readings.socket_energy)
        → IsBalanced (account d s r)
    unfolding account
    account-IsBalanced s r b h =
        let e = interval_energy d s r in
        let q = r.readings in
        ground (
          arith,
          single_id (add q.overall_energy e),
          single_id (add (nth d q.socket_energy s) e),
          sum-set q.socket_energy s e,
        )

    get-readings :
        (s : ℕ) (x : Sample F) (r r' : Rapl F) (st : Status)
        → get_socket_consumption d s x r ≡ returns (r', st)
        → (r'.readings ≡ r.readings) × (r'.valid ≡ r.valid)
    unfolding get_socket_consumption store
    get-readings s unopened r r' st e = ground arith
    get-readings s unparsable r r' st e = cc
    get-readings s (payload u m) r r' st e = ground arith

    parse-account :
        (s : ℕ) (r r' : Rapl F)
        → parse_results d s r ≡ returns r'
        → (r' ≡ account d s r) × ((r.valid ≡ true) → s < length r.readings.socket_energy)
    unfolding parse_results
    parse-account s r r' e = (ground arith, ground arith)

    meter-IsBalanced :
        (files : ℕ → Sample F) (s : ℕ) (r r' : Rapl F)
        → IsBalanced r
        → meter d files s r ≡ returns r'
        → IsBalanced r'
    unfolding meter
    meter-IsBalanced files s r r' b e =
        let ((g, st), got, parsed) = >>=-eq-returns (get_socket_consumption d s (files s) r) _ e in
        let (same, v) = get-readings s (files s) r g st got in
        let (eq, h) = parse-account s g r' parsed in rw eq (account-IsBalanced s g (rw same b) h)

    meter_all-IsBalanced :
        (files : ℕ → Sample F) (left i : ℕ) (r r' : Rapl F)
        → IsBalanced r
        → meter_all d files left i r ≡ returns r'
        → IsBalanced r'
    unfolding meter_all
    meter_all-IsBalanced files zero i r r' b e = ground arith
    meter_all-IsBalanced files (suc left) i r r' b e =
        let (g, one, rest) = >>=-eq-returns (meter d files i r) _ e in
        meter_all-IsBalanced files left (i + 1) g r' (meter-IsBalanced files i r g b one) rest

    walk-IsBalanced :
        (files : ℕ → Sample F) (r r' : Rapl F)
        → IsBalanced r
        → walk d files r ≡ returns r'
        → IsBalanced r'
    unfolding walk
    walk-IsBalanced files r r' b e = ground (
      arith,
      meter-IsBalanced files r.device r r' b,
      meter_all-IsBalanced files r.num_sockets 0 r r' b,
    )

    -- If no addition or rounding loses anything, a trigger keeps the overall energy equal to the sum
    -- of the sockets' energies, for one device and for all of them.
    pub trigger-IsBalanced :
        (files : ℕ → Sample F) (time : ℕ) (r r' : Rapl F) (st : Status)
        → IsBalanced r
        → trigger d files time r ≡ returns (r', st)
        → IsBalanced r'
    unfolding trigger stamp validate
    trigger-IsBalanced files time r r' st b e =
        let (g, walked, last) = >>=-eq-returns (walk d files (stamp d time r)) _ e in
        let done : IsBalanced g = walk-IsBalanced files (stamp d time r) g b walked in ground arith

  -- A reset sets the overall energy to zero and leaves the sockets' energies, so a meter that had
  -- counted anything is out of balance after it.
  pub reset-energy :
      (r : Rapl F)
      → length r.readings.socket_energy ≡ r.num_sockets
      → ((reset d r).0.readings.overall_energy ≡ of_ℕ 0)
        × ((reset d r).0.readings.socket_energy ≡ r.readings.socket_energy)
        × ((reset d r).0.valid ≡ r.valid)
  unfolding reset
  reset-energy r h = (refl, resize_same r.num_sockets (of_ℕ 0) r.readings.socket_energy h, refl)

  -- A socket whose files cannot be opened in a later trigger has the energy of its last interval
  -- added again, and the trigger reports no error.
  pub trigger-unopened :
      (files : ℕ → Sample F) (time : ℕ) (r : Rapl F)
      → IsSized r
      → r.valid ≡ true
      → r.device < r.num_sockets
      → files r.device ≡ unopened
      → (r' : Rapl F) × (trigger d files time r ≡ returns (r', status_ok))
        × (r'.before ≡ r.before)
        × (r'.after ≡ r.after)
        × (r'.readings.overall_energy
            ≡ single (add r.readings.overall_energy (interval_energy d r.device r)))
  unfolding trigger walk meter get_socket_consumption
  trigger-unopened files time r z v lt un =
      let r1 : Rapl F = stamp d time r in
      let parsed : parse_results d r.device r1 ≡ returns (account d r.device r1) =
        parse-returns d r.device r1 (stamp-IsSized d time r z) (unfold stamp in lt) in
      (
        record (account d r.device r1) { valid = true },
        (unfold stamp validate in rw (lt→ltb r.device r.num_sockets lt, un, parsed)),
        (unfold account stamp in refl),
        (unfold account stamp in refl),
        (unfold account stamp interval_energy in rw v),
      )
