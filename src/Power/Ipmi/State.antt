-- ===== src/Power/Ipmi/State.antt =====
-- The state of `IPMIMeterObserver` and what the three commands give it (src/efimon/power/ipmi.cpp).
use efimon.Prelude.{
  ℕ, ◌+◌, Bool, Option, none, some, List, [], ◌∷◌, ◌++◌, ltb, ◌==◌, if◌then◌else◌, length, set,
  Text, codes, contains, to_string,
}
use efimon.Float.{Float}
use efimon.Status.{Status, status_ok, fail, file_error, not_found}
use efimon.Outcome.{Outcome, returns, escapes, ◌>>=◌}
use efimon.Power.Ipmi.Payload.{field, fan_field}

-- `PSUReadings`.
pub record PsuReadings (F : Type 0) : Type 0 where
  pub type : ℕ
  pub timestamp : ℕ
  pub difference : ℕ
  pub overall_power : F
  pub overall_energy : F
  pub psu_power : List F
  pub psu_max_power : List F
  pub psu_energy : List F

-- The part of `FanReadings` that the meter writes.
pub record FanReadings (F : Type 0) : Type 0 where
  pub overall_speed : F
  pub fan_speeds : List F

pub record Ipmi (F : Type 0) : Type 0 where
  pub valid : Bool
  pub psu_id : ℕ
  pub num_psus : ℕ
  pub max_power : List F
  pub interval_ms : ℕ
  pub caps_type : ℕ
  pub readings : PsuReadings F
  pub fans : FanReadings F

-- What a command prints, where it can be run.
abbrev pub Run : Type 0
Run = Option (List Text)

-- The number of the unit stands at the end of the message.
abbrev pub no_consumption : ℕ → Status
no_consumption i = record {
  code = not_found;
  msg = codes "Cannot get the consumption of the PSU" ++ to_string i;
}

module _ {F : Type 0} (d : Float F) (stof : Text → Outcome F) where
  open d use {of_ℕ, add, mul, div, single}

  unfoldable pub value : Text → Outcome F
  unfolding field
  value line = field line >>= stof

  unfoldable pub rated_line : Text → Ipmi F → Outcome (Ipmi F)
  unfolding value
  rated_line line r =
      if contains (codes "Rated Watts") line
      then (value line >>= λ v.
          returns (record r { num_psus = r.num_psus + 1; max_power = r.max_power ++ (v ∷ []) }))
      else returns r

  unfoldable pub read_rated : List Text → Ipmi F → Outcome (Ipmi F)
  unfolding rated_line
  read_rated [] r = returns r
  read_rated (line ∷ lines) r = rated_line line r >>= read_rated lines

  unfoldable pub get_info : Run → Ipmi F → Outcome (Ipmi F × Status)
  get_info none r = returns (r, fail file_error "Cannot execute ipmi info command")
  get_info (some lines) r = read_rated lines (record r { num_psus = 0; max_power = [] }) >>= λ r'.
      returns
        (r', if r'.num_psus == 0 then fail not_found "Cannot find compatible PSUs" else status_ok)

  -- `psu_power.at(psu) = val` and the sum.
  unfoldable pub put_power : ℕ → F → Ipmi F → Outcome (Ipmi F)
  put_power i v r =
      let q = r.readings in
      if ltb i (length q.psu_power)
      then returns (record r {
        readings = record q {
          psu_power = set q.psu_power i v;
          overall_power = single (add q.overall_power v);
        };
      })
      else escapes

  -- A line, with the occurrences so far.
  unfoldable pub power_line : ℕ → Text → ℕ → Ipmi F → Outcome (Ipmi F × ℕ)
  unfolding value put_power
  power_line i line seen r =
      if contains (codes "Instantaneous Power") line
      then (value line >>= λ v. put_power i v r >>= λ r'. returns (r', seen + 1))
      else returns (r, seen)

  unfoldable pub read_power : ℕ → List Text → ℕ → Ipmi F → Outcome (Ipmi F × ℕ)
  unfolding power_line
  read_power i [] seen r = returns (r, seen)
  read_power i (line ∷ lines) seen r =
      power_line i line seen r >>= λ p. read_power i lines (p.1) (p.0)

  unfoldable pub get_power : Run → ℕ → Ipmi F → Outcome (Ipmi F × Status)
  get_power none i r = returns (r, fail not_found "The IPMI power file cannot be opened")
  get_power (some lines) i r = read_power i lines 0 r >>= λ p.
      returns (p.0, if p.1 == 0 then no_consumption i else status_ok)

  -- A line of the sensors, with the sum and the speeds so far.
  unfoldable pub fan_line : Text → F × List F → Outcome (F × List F)
  unfolding fan_field
  fan_line line p =
      if contains (codes "RPM") line
      then (stof (fan_field line) >>= λ v. returns (single (add (p.0) v), p.1 ++ (v ∷ [])))
      else returns p

  unfoldable pub read_fans : List Text → F × List F → Outcome (F × List F)
  unfolding fan_line
  read_fans [] p = returns p
  read_fans (line ∷ lines) p = fan_line line p >>= read_fans lines

  unfoldable pub get_fan_speed : Run → Ipmi F → Outcome (Ipmi F × Status)
  get_fan_speed none r = returns (r, fail not_found "The IPMI sensor cannot be opened")
  get_fan_speed (some lines) r = read_fans lines (of_ℕ 0, []) >>= λ p. returns (
    record r {
      fans = record {
        overall_speed = single (div (p.0) (single (of_ℕ (length (p.1)))));
        fan_speeds = p.1;
      };
    },
    status_ok,
  )
