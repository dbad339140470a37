-- ===== src/Power/Ipmi/Outcomes.antt =====
-- The status that a trigger returns, whatever it reads.
use efimon.Prelude.{
  ℕ, zero, suc, ◌+◌, ◌≤◌, ◌<◌, ◌≡◌, refl, sym, ap, ◌∙◌, ◌≢◌, inl, inr, Bool, true, false, ◌||◌,
  Option, none, some, List, [], ◌∷◌, arith, ltb, if◌then◌else◌, Bool-cases, length, length-set,
  Text, codes, contains, ◌++◌, to_string,
}
use efimon.Float.{Float}
use efimon.Status.{Status, status_ok, fail, not_found}
use efimon.Outcome.{Outcome, returns, >>=-returns}
use efimon.Power.Ipmi.{
  Ipmi, FanReadings, Run, value, put_power, power_line, read_power, get_power, account,
  parse_results, meter, meter_all, stamp, walk, validate, trigger, get_fan_speed, read_fans,
}

-- Some line names the instantaneous power.
abbrev pub is_metered : List Text → Bool
is_metered [] = false
is_metered (line ∷ lines) = contains (codes "Instantaneous Power") line || is_metered lines

-- What is reported for a unit, from what its command printed; the message ends in its number.
abbrev pub run_status : ℕ → Run → Status
run_status i none = fail not_found "The IPMI power file cannot be opened"
run_status i (some lines) = if is_metered lines then status_ok else record {
  code = not_found;
  msg = codes "Cannot get the consumption of the PSU" ++ to_string i;
}

-- What is reported for the units from `i` on: the status of the last one.
abbrev pub last_status : (ℕ → Run) → ℕ → ℕ → Status → Status
last_status runs zero i st = st
last_status runs (suc left) i st = last_status runs left (i + 1) (run_status i (runs i))

-- What is reported for the selected unit, or for all of them.
abbrev pub walk_status : (ℕ → Run) → ℕ → ℕ → Status
walk_status runs device units =
    if ltb device units then run_status device (runs device) else last_status runs units 0 status_ok

module _ {F : Type 0} (d : Float F) (stof : Text → Outcome F) where
  -- What a unit leaves alone: the units, the device, the flag and the sizes.
  abbrev pub Kept : Ipmi F → Ipmi F → Type 0
  Kept r r' =
      (r'.num_psus ≡ r.num_psus)
      × (r'.psu_id ≡ r.psu_id)
      × (r'.valid ≡ r.valid)
      × (length r'.readings.psu_power ≡ length r.readings.psu_power)
      × (length r'.readings.psu_energy ≡ length r.readings.psu_energy)

  pub put-Kept : (i : ℕ) (v : F) (r r' : Ipmi F) → put_power d stof i v r ≡ returns r' → Kept r r'
  unfolding put_power
  put-Kept i v r r' e = grind (arith, length-set)

  pub line-seen :
      (i : ℕ) (line : Text) (seen : ℕ) (r : Ipmi F) (p : Ipmi F × ℕ)
      → power_line d stof i line seen r ≡ returns p
      → ((contains (codes "Instantaneous Power") line ≡ true) → p.1 ≡ seen + 1)
        × ((contains (codes "Instantaneous Power") line ≡ false) → p.1 ≡ seen)
        × Kept r (p.0)
  unfolding power_line
  line-seen i line seen r p e = elim (Bool-cases (contains (codes "Instantaneous Power") line)) [
    | inl b ↦
        let (v, _, rest) = >>=-returns (value d stof line) _ p (rw b at e) in
        let (r', put, last) = >>=-returns (put_power d stof i v r) _ p rest in
        let k = put-Kept i v r r' put in ground arith
    | inr b ↦ ground arith
  ]

  pub read-seen :
      (i : ℕ) (lines : List Text) (seen : ℕ) (r : Ipmi F) (p : Ipmi F × ℕ)
      → read_power d stof i lines seen r ≡ returns p
      → (seen ≤ p.1)
        × ((is_metered lines ≡ true) → seen < p.1)
        × ((is_metered lines ≡ false) → p.1 ≡ seen)
        × Kept r (p.0)
  unfolding read_power
  read-seen i [] seen r p e = ground arith
  read-seen i (line ∷ lines) seen r p e =
      let (q, one, rest) = >>=-returns (power_line d stof i line seen r) _ p e in
      let l = line-seen i line seen r q one in
      let ih = read-seen i lines (q.1) (q.0) p rest in
      let found = contains (codes "Instantaneous Power") line in
      let le : seen ≤ q.1 = elim (Bool-cases found) [
        | inl b ↦ omega (arith, l.0 b)
        | inr b ↦ omega (arith, l.1 b)
      ] in
      (
        omega arith,
        (λ h. elim (Bool-cases found) [
          | inl b ↦ omega (arith, l.0 b)
          | inr b ↦ omega (arith, l.1 b, ih.1 (rw b at h))
        ]),
        (λ h. elim (Bool-cases found) [
          | inl b ↦ absurd (ground arith)
          | inr b ↦ ih.2 (rw b at h) ∙ l.1 b
        ]),
        ground arith,
      )

  pub get-status :
      (run : Run) (i : ℕ) (r : Ipmi F) (p : Ipmi F × Status)
      → get_power d stof run i r ≡ returns p
      → (p.1 ≡ run_status i run) × Kept r (p.0)
  unfolding get_power
  get-status none i r p e = ground arith
  get-status (some lines) i r p e =
      let (q, read, last) = >>=-returns (read_power d stof i lines 0 r) _ p e in
      let s = read-seen i lines 0 r q read in
      elim (Bool-cases (is_metered lines)) [
        | inl b ↦ let some_seen = s.1 b in ground arith
        | inr b ↦ let none_seen = s.2 b in ground arith
      ]

  pub parse-Kept : (i : ℕ) (r r' : Ipmi F) → parse_results d stof i r ≡ returns r' → Kept r r'
  unfolding parse_results account
  parse-Kept i r r' e = grind (arith, length-set)

  pub meter-status :
      (runs : ℕ → Run) (i : ℕ) (r : Ipmi F) (p : Ipmi F × Status)
      → meter d stof runs i r ≡ returns p
      → (p.1 ≡ run_status i (runs i)) × Kept r (p.0)
  unfolding meter
  meter-status runs i r p e =
      let (q, got, rest) = >>=-returns (get_power d stof (runs i) i r) _ p e in
      let (r', parsed, last) = >>=-returns (parse_results d stof i (q.0)) _ p rest in
      let s = get-status (runs i) i r q got in let k = parse-Kept i (q.0) r' parsed in ground arith

  pub meter_all-status :
      (runs : ℕ → Run) (left i : ℕ) (st : Status) (r : Ipmi F) (p : Ipmi F × Status)
      → meter_all d stof runs left i st r ≡ returns p
      → (p.1 ≡ last_status runs left i st) × Kept r (p.0)
  unfolding meter_all
  meter_all-status runs zero i st r p e = ground arith
  meter_all-status runs (suc left) i st r p e =
      let (q, one, rest) = >>=-returns (meter d stof runs i r) _ p e in
      let s = meter-status runs i r q one in
      let ih = meter_all-status runs left (i + 1) (q.1) (q.0) p rest in
      (ih.0 ∙ ap (last_status runs left (i + 1)) (s.0), ground arith)

  pub walk-status :
      (runs : ℕ → Run) (r : Ipmi F) (p : Ipmi F × Status)
      → walk d stof runs r ≡ returns p
      → (p.1 ≡ walk_status runs r.psu_id r.num_psus) × Kept r (p.0)
  unfolding walk
  walk-status runs r p e = elim (Bool-cases (ltb r.psu_id r.num_psus)) [
    | inl b ↦ rw b (meter-status runs r.psu_id r p (rw b at e))
    | inr b ↦ rw b (meter_all-status runs r.num_psus 0 status_ok r p (rw b at e))
  ]

  -- Reading the fans changes no other part, and reports no error where the command can be run.
  pub fans-same :
      (lines : List Text) (r : Ipmi F) (p : Ipmi F × Status)
      → get_fan_speed d stof (some lines) r ≡ returns p
      → (p.1 ≡ status_ok) × (p.0 ≡ record r { fans = (p.0).fans })
  unfolding get_fan_speed
  fans-same lines r p e =
      let (q, read, last) = >>=-returns (read_fans d stof lines (d.of_ℕ 0, [])) _ p e in
      ground arith

  -- A trigger that returns has gone over the units with an object that differs from the stamped one
  -- in the fans only.
  pub trigger-walk :
      (sensors : Option Run) (runs : ℕ → Run) (time : ℕ) (r r' : Ipmi F) (st : Status)
      → sensors ≢ some none
      → trigger d stof sensors runs time r ≡ returns (r', st)
      → (fans : FanReadings F) × (q : Ipmi F × Status) × (walk d stof runs
            (record (stamp d stof time r) { fans = fans })
          ≡ returns q)
        × ((r', st) ≡ validate d stof q)
  unfolding trigger
  trigger-walk none runs time r r' st h e =
      let (q, walked, last) = >>=-returns (walk d stof runs (stamp d stof time r)) _ (r', st) e in
      ((stamp d stof time r).fans, q, walked, ground arith)
  trigger-walk (some none) runs time r r' st h e = absurd (h refl)
  trigger-walk (some (some lines)) runs time r r' st h e =
      let (p, got, rest) =
        >>=-returns (get_fan_speed d stof (some lines) (stamp d stof time r)) _ (r', st) e in
      let (fine, same) = fans-same lines (stamp d stof time r) p got in
      let (q, walked, last) = >>=-returns (walk d stof runs (p.0)) _ (r', st) (rw fine at rest) in
      ((p.0).fans, q, ap (walk d stof runs) (sym same) ∙ walked, ground arith)

  -- The status of a trigger is that of the selected unit, or of the last unit if the device is no
  -- unit's: what the commands of the units before printed does not show in it. With no unit it is
  -- OK. The meter is valid from then on, whatever the status. The sensors are not built in, or their
  -- command can be run.
  pub trigger-status :
      (sensors : Option Run) (runs : ℕ → Run) (time : ℕ) (r r' : Ipmi F) (st : Status)
      → sensors ≢ some none
      → trigger d stof sensors runs time r ≡ returns (r', st)
      → (st ≡ walk_status runs r.psu_id r.num_psus)
        × (r'.valid ≡ true)
        × (r'.num_psus ≡ r.num_psus)
        × (r'.psu_id ≡ r.psu_id)
  unfolding stamp validate
  trigger-status sensors runs time r r' st h e =
      let (fans, q, walked, last) = trigger-walk sensors runs time r r' st h e in
      let s = walk-status runs (record (stamp d stof time r) { fans = fans }) q walked in
      ground arith
