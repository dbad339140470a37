-- ===== src/Power/Ipmi/Totals.antt =====
-- The well-formedness of the meter: its sizes, and the overall energy against that of the units.
use efimon.Prelude.{
  ℕ, zero, suc, ◌+◌, ◌<◌, ◌≡◌, refl, sym, ◌∙◌, inl, inr, Option, none, some, List, [], ◌∷◌, arith,
  Bool-cases, length, replicate, length-set, length-replicate, Text, codes, contains,
}
use efimon.Float.{Float, IsExact}
use efimon.Status.{Status, status_ok}
use efimon.Observer.{ObserverScope, process, system}
use efimon.Outcome.{Outcome, returns, >>=-returns}
use efimon.Power.Rapl.{nth}
use efimon.Power.Rapl.Totals.{sum, sum-set}
use efimon.Power.Ipmi.{
  Ipmi, PsuReadings, FanReadings, Run, value, put_power, power_line, read_power, get_power,
  energy_of, account, parse_results, meter, meter_all, stamp, walk, validate, trigger,
  get_fan_speed, reset, get_info, blank, warm_up, construct, select_device, set_interval,
}
use efimon.Power.Ipmi.Outcomes.{trigger-walk}

module _ {F : Type 0} (d : Float F) (stof : Text → Outcome F) where
  open d use {of_ℕ, add, single}

  -- One element for each unit, the rated powers as they were read, and an overall energy that is the
  -- sum of the units' energies.
  pub record IsMeter (r : Ipmi F) : Type 0 where
    pub power_len : length r.readings.psu_power ≡ r.num_psus
    pub energy_len : length r.readings.psu_energy ≡ r.num_psus
    pub max_eq : r.readings.psu_max_power ≡ r.max_power
    pub balance : r.readings.overall_energy ≡ sum d r.readings.psu_energy

  -- What a program can do with a meter that it has constructed.
  pub data IsReached : Ipmi F → Type 0 where
    constructed :
        (readings : PsuReadings F) (fans : FanReadings F) (scope : ObserverScope) (ms : ℕ)
        (info info' : Run) (sensors : Option Run) (runs : ℕ → Run) (time : ℕ) {r : Ipmi F}
        → construct d stof readings fans scope ms info info' sensors runs time ≡ returns r
        → IsReached r
    triggered :
        (sensors : Option Run) (runs : ℕ → Run) (time : ℕ) {r r' : Ipmi F} (st : Status)
        → IsReached r
        → trigger d stof sensors runs time r ≡ returns (r', st)
        → IsReached r'
    resetted : {r : Ipmi F} → IsReached r → IsReached (reset d stof r).0
    selected : {r : Ipmi F} (device : ℕ) → IsReached r → IsReached (select_device d stof device r).0
    timed : {r : Ipmi F} (ms : ℕ) → IsReached r → IsReached (set_interval d stof ms r).0

  module _ (laws : IsExact d) where
    open laws use {add_assoc, add_comm, zero-add, single_id}

    put-IsMeter :
        (i : ℕ) (v : F) (r r' : Ipmi F)
        → IsMeter r
        → put_power d stof i v r ≡ returns r'
        → IsMeter r'
    unfolding put_power
    put-IsMeter i v r r' m e = grind (arith, length-set)

    line-IsMeter :
        (i : ℕ) (line : Text) (seen : ℕ) (r : Ipmi F) (p : Ipmi F × ℕ)
        → IsMeter r
        → power_line d stof i line seen r ≡ returns p
        → IsMeter (p.0)
    unfolding power_line
    line-IsMeter i line seen r p m e =
        elim (Bool-cases (contains (codes "Instantaneous Power") line)) [
          | inl b ↦
              let (v, _, rest) = >>=-returns (value d stof line) _ p (rw b at e) in
              let (r', put, last) = >>=-returns (put_power d stof i v r) _ p rest in
              let k = put-IsMeter i v r r' m put in ground arith
          | inr b ↦ ground arith
        ]

    read-IsMeter :
        (i : ℕ) (lines : List Text) (seen : ℕ) (r : Ipmi F) (p : Ipmi F × ℕ)
        → IsMeter r
        → read_power d stof i lines seen r ≡ returns p
        → IsMeter (p.0)
    unfolding read_power
    read-IsMeter i [] seen r p m e = ground arith
    read-IsMeter i (line ∷ lines) seen r p m e =
        let (q, one, rest) = >>=-returns (power_line d stof i line seen r) _ p e in
        read-IsMeter i lines (q.1) (q.0) p (line-IsMeter i line seen r q m one) rest

    get-IsMeter :
        (run : Run) (i : ℕ) (r : Ipmi F) (p : Ipmi F × Status)
        → IsMeter r
        → get_power d stof run i r ≡ returns p
        → IsMeter (p.0)
    unfolding get_power
    get-IsMeter none i r p m e = ground arith
    get-IsMeter (some lines) i r p m e =
        let (q, read, last) = >>=-returns (read_power d stof i lines 0 r) _ p e in
        let k = read-IsMeter i lines 0 r q m read in ground arith

    account-IsMeter :
        (i : ℕ) (r : Ipmi F)
        → IsMeter r
        → i < length r.readings.psu_energy
        → IsMeter (account d stof i r)
    unfolding account
    account-IsMeter i r m lt =
        let e = energy_of d stof i r in
        let q = r.readings in
        grind (
          arith,
          length-set,
          single_id (add q.overall_energy e),
          single_id (add (nth d q.psu_energy i) e),
          sum-set d laws q.psu_energy i e lt,
        )

    parse-IsMeter :
        (i : ℕ) (r r' : Ipmi F) → IsMeter r → parse_results d stof i r ≡ returns r' → IsMeter r'
    unfolding parse_results
    parse-IsMeter i r r' m e = let k = account-IsMeter i r m in ground arith

    meter-IsMeter :
        (runs : ℕ → Run) (i : ℕ) (r : Ipmi F) (p : Ipmi F × Status)
        → IsMeter r
        → meter d stof runs i r ≡ returns p
        → IsMeter (p.0)
    unfolding meter
    meter-IsMeter runs i r p m e =
        let (q, got, rest) = >>=-returns (get_power d stof (runs i) i r) _ p e in
        let (r', parsed, last) = >>=-returns (parse_results d stof i (q.0)) _ p rest in
        let k = parse-IsMeter i (q.0) r' (get-IsMeter (runs i) i r q m got) parsed in ground arith

    meter_all-IsMeter :
        (runs : ℕ → Run) (left i : ℕ) (st : Status) (r : Ipmi F) (p : Ipmi F × Status)
        → IsMeter r
        → meter_all d stof runs left i st r ≡ returns p
        → IsMeter (p.0)
    unfolding meter_all
    meter_all-IsMeter runs zero i st r p m e = ground arith
    meter_all-IsMeter runs (suc left) i st r p m e =
        let (q, one, rest) = >>=-returns (meter d stof runs i r) _ p e in
        meter_all-IsMeter runs left (i + 1) (q.1) (q.0) p (meter-IsMeter runs i r q m one) rest

    walk-IsMeter :
        (runs : ℕ → Run) (r : Ipmi F) (p : Ipmi F × Status)
        → IsMeter r
        → walk d stof runs r ≡ returns p
        → IsMeter (p.0)
    unfolding walk
    walk-IsMeter runs r p m e = ground (
      arith,
      meter-IsMeter runs r.psu_id r p m,
      meter_all-IsMeter runs r.num_psus 0 status_ok r p m,
    )

    sum-zeros : (n : ℕ) → sum d (replicate n (of_ℕ 0)) ≡ of_ℕ 0
    sum-zeros zero = refl
    sum-zeros (suc n) = zero-add (sum d (replicate n (of_ℕ 0))) ∙ sum-zeros n

    reset-IsMeter : (r : Ipmi F) → IsMeter (reset d stof r).0
    unfolding reset
    reset-IsMeter r = record {
      power_len = length-replicate r.num_psus (of_ℕ 0);
      energy_len = length-replicate r.num_psus (of_ℕ 0);
      max_eq = refl;
      balance = sym (sum-zeros r.num_psus);
    }

    -- A trigger also stops where the sensors cannot be read, with the object as it was stamped.
    trigger-IsMeter :
        (sensors : Option Run) (runs : ℕ → Run) (time : ℕ) (r r' : Ipmi F) (st : Status)
        → IsMeter r
        → trigger d stof sensors runs time r ≡ returns (r', st)
        → IsMeter r'
    unfolding trigger stamp validate get_fan_speed
    trigger-IsMeter (some none) runs time r r' st m e = ground arith
    trigger-IsMeter none runs time r r' st m e =
        let (fans, q, walked, last) = trigger-walk d stof none runs time r r' st (λ y. cc) e in
        let k =
          walk-IsMeter runs (record (stamp d stof time r) { fans = fans }) q (ground arith)
            walked in
        ground arith
    trigger-IsMeter (some (some lines)) runs time r r' st m e =
        let (fans, q, walked, last) =
          trigger-walk d stof (some (some lines)) runs time r r' st (λ y. cc) e in
        let k =
          walk-IsMeter runs (record (stamp d stof time r) { fans = fans }) q (ground arith)
            walked in
        ground arith

    warm_up-IsMeter :
        (info : Run) (sensors : Option Run) (runs : ℕ → Run) (time : ℕ) (r r' : Ipmi F)
        → warm_up d stof info sensors runs time r ≡ returns r'
        → IsMeter r'
    unfolding warm_up
    warm_up-IsMeter info sensors runs time r r' e =
        let (p, _, rest) = >>=-returns (get_info d stof info r) _ r' e in
        let (q, run, last) =
          >>=-returns (trigger d stof sensors runs time ((reset d stof (p.0)).0)) _ r' rest in
        let k =
          trigger-IsMeter sensors runs time ((reset d stof (p.0)).0) (q.0) (q.1)
            (reset-IsMeter (p.0)) run in
        ground arith

    construct-IsMeter :
        (readings : PsuReadings F) (fans : FanReadings F) (scope : ObserverScope) (ms : ℕ)
        (info info' : Run) (sensors : Option Run) (runs : ℕ → Run) (time : ℕ) (r : Ipmi F)
        → construct d stof readings fans scope ms info info' sensors runs time ≡ returns r
        → IsMeter r
    unfolding construct
    construct-IsMeter readings fans process ms info info' sensors runs time r e = absurd (cc)
    construct-IsMeter readings fans system ms info info' sensors runs time r e =
        let (p, _, rest) =
          >>=-returns (get_info d stof info (blank d stof readings fans ms)) _ r e in
        ground (arith, warm_up-IsMeter info' sensors runs time (p.0) r)

    -- If no addition or rounding loses anything, every meter that was constructed and then triggered,
    -- reset, or told its device or interval in any order, whatever the commands print, has one
    -- element for each unit, the rated powers as they were read, and an overall energy that is the
    -- sum of the units' energies.
    pub reached-IsMeter : (r : Ipmi F) → IsReached r → IsMeter r
    unfolding select_device set_interval
    reached-IsMeter r (constructed readings fans scope ms info info' sensors runs time e) =
        construct-IsMeter readings fans scope ms info info' sensors runs time r e
    reached-IsMeter r' (triggered sensors runs time {r} st h e) =
        trigger-IsMeter sensors runs time r r' st (reached-IsMeter r h) e
    reached-IsMeter _ (resetted {r} h) = reset-IsMeter r
    reached-IsMeter _ (selected {r} device h) = let m = reached-IsMeter r h in ground arith
    reached-IsMeter _ (timed {r} ms h) = let m = reached-IsMeter r h in ground arith
