-- ===== src/Power/Rapl.antt =====
-- `RAPLMeterObserver` (src/efimon/power/rapl.cpp). The number of sockets and of cores of the
-- machine, the uptime and the contents of the powercap files are arguments.
pub mod Sized
pub mod Totals
pub mod Tests
use efimon.Prelude.{
  ℕ, zero, suc, ◌+◌, Bool, true, false, not, ◌&&◌, ◌||◌, none, some, List, [], ◌∷◌, ltb,
  if◌then◌else◌, length, get_elem?, set,
}
use efimon.Float.{Float}
use efimon.Status.{Status, status_ok, fail, not_found, invalid_parameter, not_implemented}
use efimon.Observer.{ObserverScope, process, system, type_bits, none_type, cpu, power, interval}
use efimon.Outcome.{Outcome, returns, throws, escapes, faults, ◌>>=◌}
use efimon.Words.{sub64}

-- The part of `CPUReadings` that the meter writes.
pub record PowerReadings (F : Type 0) : Type 0 where
  pub type : ℕ
  pub timestamp : ℕ
  pub difference : ℕ
  pub overall_usage : F
  pub overall_power : F
  pub overall_energy : F
  pub socket_power : List F
  pub socket_energy : List F
  pub core_power : List F

-- The last two energies of each socket, its range, and what is reported. `num_sockets` and
-- `logical_cores` are those of `info_`.
pub record Rapl (F : Type 0) : Type 0 where
  pub num_sockets : ℕ
  pub logical_cores : ℕ
  pub valid : Bool
  pub device : ℕ
  pub interval_ms : ℕ
  pub caps_type : ℕ
  pub before : List F
  pub after : List F
  pub max : List F
  pub readings : PowerReadings F

-- The two files of a socket: one of them cannot be opened, a first line is no number, or the energy
-- and the range in microjoules.
pub data Sample (F : Type 0) : Type 0 where
  unopened unparsable : Sample F
  payload : F → F → Sample F

-- `vector::resize(n, value)`.
unfoldable pub resize {ℓ} : {A : Type ℓ} → ℕ → A → List A → List A
resize zero v xs = []
resize (suc n) v [] = v ∷ resize n v []
resize (suc n) v (x ∷ xs) = x ∷ resize n v xs

module _ {F : Type 0} (d : Float F) where
  open d use {of_ℕ, add, sub, mul, div, neg, ge, single}

  -- The element, where the index is in range.
  unfoldable pub nth : List F → ℕ → F
  nth xs i = elim (get_elem? xs i) [ none ↦ of_ℕ 0 | some v ↦ v ]

  -- 1e-06.
  unfoldable pub micro : F
  micro = div (of_ℕ 1) (of_ℕ 1000000)

  -- The meters of a socket after its files were read.
  unfoldable pub store : ℕ → F → F → Rapl F → Rapl F
  unfolding nth
  store s uj max_uj r = record r {
    max = set r.max s (mul max_uj micro);
    before = set r.before s (if r.valid then nth r.after s else mul uj micro);
    after = set r.after s (mul uj micro);
  }

  -- `at` throws past the end, and `stod` where there is no number.
  unfoldable pub get_socket_consumption : ℕ → Sample F → Rapl F → Outcome (Rapl F × Status)
  get_socket_consumption s unopened r =
      returns (r, fail not_found "The RAPL Interface cannot be opened")
  get_socket_consumption s unparsable r = escapes
  get_socket_consumption s (payload uj max_uj) r =
      if ltb s (length r.max) && ltb s (length r.before) && ltb s (length r.after)
      then returns (store s uj max_uj r, status_ok)
      else escapes

  -- The energy between the two samples; the counter wraps at the range.
  unfoldable pub interval_energy : ℕ → Rapl F → F
  unfolding nth
  interval_energy s r =
      let b = nth r.before s in
      let a = nth r.after s in if ge a b then sub a b else add (sub (nth r.max s) b) a

  unfoldable pub account : ℕ → Rapl F → Rapl F
  account s r =
      let energy = interval_energy s r in
      let watts = div (mul energy (of_ℕ 1000)) (of_ℕ r.readings.difference) in
      let q = r.readings in
      record r {
        readings = record q {
          socket_power = set q.socket_power s (single watts);
          overall_power = single (add q.overall_power watts);
          socket_energy =
              if r.valid
              then set q.socket_energy s (single (add (nth q.socket_energy s) energy))
              else q.socket_energy;
          overall_energy =
              if r.valid then single (add q.overall_energy energy) else q.overall_energy;
        };
      }

  unfoldable pub parse_results : ℕ → Rapl F → Outcome (Rapl F)
  parse_results s r =
      if ltb s (length r.before)
        && ltb s (length r.after)
        && ltb s (length r.max)
        && ltb s (length r.readings.socket_power)
        && (not r.valid || ltb s (length r.readings.socket_energy))
      then returns (account s r)
      else escapes

  -- One socket in `Trigger`: the status of the reading is not looked at.
  unfoldable pub meter : (ℕ → Sample F) → ℕ → Rapl F → Outcome (Rapl F)
  meter files s r = get_socket_consumption s (files s) r >>= λ p. parse_results s p.0

  -- The loop over the sockets from `i` on.
  unfoldable pub meter_all : (ℕ → Sample F) → ℕ → ℕ → Rapl F → Outcome (Rapl F)
  meter_all files zero i r = returns r
  meter_all files (suc left) i r = meter files i r >>= meter_all files left (i + 1)

  -- The metadata that a trigger writes first.
  unfoldable pub stamp : ℕ → Rapl F → Rapl F
  stamp time r =
      let q = r.readings in
      record r {
        readings = record q {
          type = type_bits cpu + type_bits power;
          difference = sub64 time q.timestamp;
          timestamp = time;
          overall_power = of_ℕ 0;
        };
      }

  unfoldable pub validate : Rapl F → Rapl F × Status
  validate r = (record r { valid = true }, status_ok)

  -- The selected socket, or all of them.
  unfoldable pub walk : (ℕ → Sample F) → Rapl F → Outcome (Rapl F)
  walk files r =
      if ltb r.device r.num_sockets
      then meter files r.device r
      else meter_all files r.num_sockets 0 r

  unfoldable pub trigger : (ℕ → Sample F) → ℕ → Rapl F → Outcome (Rapl F × Status)
  trigger files time r = walk files (stamp time r) >>= λ p. returns (validate p)

  unfoldable pub reset : Rapl F → Rapl F × Status
  unfolding resize
  reset r =
      let q = r.readings in
      let n = r.num_sockets in
      (
        record r {
          before = resize n (of_ℕ 0) r.before;
          after = resize n (of_ℕ 0) r.after;
          max = resize n (of_ℕ 0) r.max;
          readings = record {
            type = type_bits none_type;
            timestamp = 0;
            difference = 0;
            overall_usage = neg (of_ℕ 1);
            overall_power = of_ℕ 0;
            overall_energy = of_ℕ 0;
            socket_power = resize n (of_ℕ 0) [];
            socket_energy = resize n (of_ℕ 0) q.socket_energy;
            core_power = resize r.logical_cores (of_ℕ 0) [];
          };
        },
        status_ok,
      )

  -- The object before the constructor's `Reset`: empty vectors, and numbers that nobody wrote.
  unfoldable pub blank : PowerReadings F → ℕ → ℕ → ℕ → Rapl F
  blank memory sockets cores ms = record {
    num_sockets = sockets;
    logical_cores = cores;
    valid = false;
    device = sockets;
    interval_ms = ms;
    caps_type = type_bits cpu + type_bits power + type_bits interval;
    before = [];
    after = [];
    max = [];
    readings = record memory { socket_power = []; socket_energy = []; core_power = [] };
  }

  unfoldable pub construct :
      PowerReadings F → ℕ → ℕ → ObserverScope → ℕ → (ℕ → Sample F) → ℕ → Outcome (Rapl F)
  construct memory sockets cores process ms files time =
      throws (fail invalid_parameter "Process-scope is not supported")
  construct memory sockets cores system ms files time =
      trigger files time (reset (blank memory sockets cores ms)).0 >>= λ p. returns p.0

  unfoldable pub select_device : ℕ → Rapl F → Rapl F × Status
  select_device device r = (record r { device = device }, status_ok)

  unfoldable pub set_scope : ObserverScope → Rapl F → Rapl F × Status
  set_scope system r = (r, status_ok)
  set_scope process r = (r, fail not_implemented "The scope is only set to SYSTEM")

  unfoldable pub set_pid : ℕ → Rapl F → Rapl F × Status
  set_pid pid r =
      (r, fail not_implemented "It is not possible to set a PID in a SYSTEM wide Observer")

  unfoldable pub set_interval : ℕ → Rapl F → Rapl F × Status
  set_interval ms r = (record r { interval_ms = ms }, status_ok)

  unfoldable pub clear_interval : Rapl F → Rapl F × Status
  clear_interval r = (r, fail not_implemented "The clear interval is not implemented yet")
