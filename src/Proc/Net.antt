-- ===== src/Proc/Net.antt =====
-- `ProcNetObserver` (src/efimon/proc/net.cpp). The lines of /proc/net/dev, the floats of
-- /proc/uptime, and the order in which the hash map of the devices is gone through, are arguments.
pub mod Devices
pub mod Rates
pub mod Names
pub mod Tests
use efimon.Prelude.{
  ℕ, ◌+◌, ◌-◌, not, ◌&&◌, Option, none, some, List, [], ◌∷◌, ◌++◌, map, if◌then◌else◌, length, set,
  take, drop, keep, Text, codes, text_eq,
}
use efimon.Status.{Status, status_ok, fail, not_implemented, invalid_parameter}
use efimon.Observer.{ObserverScope, process, system, type_bits, network, interval}
use efimon.Float.{Float}
use efimon.Outcome.{Outcome, returns, throws, escapes, faults, ◌>>=◌}
use efimon.Words.{sub64}
use efimon.Proc.Machine.{Machine, uptime_ms, split_spaces, value_at, number_at}

pub record NetReadings (F : Type 0) : Type 0 where
  pub type : ℕ
  pub timestamp : ℕ
  pub difference : ℕ
  pub tx_volume : F
  pub rx_volume : F
  pub tx_packets : ℕ
  pub rx_packets : ℕ
  pub tx_bw : F
  pub rx_bw : F
  pub tx_power : F
  pub rx_power : F
  pub dev_name : Text

-- `data` is the map `data_`, `readings` and `device_names` the two vectors.
pub record NetObserver (F : Type 0) : Type 0 where
  pub interval_ms : ℕ
  pub device : ℕ
  pub status : Status
  pub caps_type : ℕ
  pub uptime : ℕ
  pub prev_uptime : ℕ
  pub devices : List (Text × NetReadings F)
  pub readings : List (NetReadings F)
  pub device_names : List Text

-- What a line tells: the device, and its bytes and packets.
pub record Row : Type 0 where
  pub name : Text
  pub tx : ℕ
  pub rx : ℕ
  pub tx_packets : ℕ
  pub rx_packets : ℕ

-- The pieces of a line between the spaces that are not empty.
unfoldable pub words_of : Text → List Text
words_of line = keep (λ w. not (text_eq w (codes " ")) && not (text_eq w [])) (split_spaces line)

-- `s.substr(0, s.size() - 1)`: the name without its colon.
unfoldable pub without_last : Text → Text
without_last s = take (length s - 1) s

unfoldable pub parse_row : Text → Outcome Row
parse_row line =
    let values = words_of line in
    value_at values 0 >>= λ first. number_at values 9 >>= λ tx. number_at values 1 >>= λ rx.
    number_at values 10 >>= λ tx_packets. number_at values 2 >>= λ rx_packets. returns record {
      name = without_last first;
      tx = tx;
      rx = rx;
      tx_packets = tx_packets;
      rx_packets = rx_packets;
    }

unfoldable pub find_device : {V : Type 0} → Text → List (Text × V) → Option V
find_device k [] = none
find_device k (e ∷ m) = if text_eq k (e.0) then some (e.1) else find_device k m

unfoldable pub set_device : {V : Type 0} → Text → V → List (Text × V) → List (Text × V)
set_device k v [] = (k, v) ∷ []
set_device k v (e ∷ m) = if text_eq k (e.0) then (e.0, v) ∷ m else e ∷ set_device k v m

module _ {F : Type 0} (d : Float F) where
  open d use {of_ℕ, mul, sub, div, single}

  unfoldable pub construct : NetObserver F → ObserverScope → ℕ → Outcome (NetObserver F)
  construct memory process ms = throws (fail invalid_parameter "Process-scope is not supported")
  construct memory system ms = returns record memory {
    interval_ms = ms;
    device = 0;
    status = status_ok;
    caps_type = type_bits network + type_bits interval;
    devices = [];
    readings = [];
    device_names = [];
  }

  -- `NetReadings{}`.
  unfoldable pub no_readings : NetReadings F
  no_readings = record {
    type = 0;
    timestamp = 0;
    difference = 0;
    tx_volume = of_ℕ 0;
    rx_volume = of_ℕ 0;
    tx_packets = 0;
    rx_packets = 0;
    tx_bw = of_ℕ 0;
    rx_bw = of_ℕ 0;
    tx_power = of_ℕ 0;
    rx_power = of_ℕ 0;
    dev_name = [];
  }

  -- Bytes in KiB.
  unfoldable pub volume : ℕ → F
  volume bytes = single (div (single (of_ℕ bytes)) (of_ℕ 1024))

  -- `(volume - before) / difference * 1000.f`; zero for a new device.
  unfoldable pub bandwidth : Option F → F → ℕ → F
  bandwidth none now ms = single (mul (of_ℕ 0) (of_ℕ 1000))
  bandwidth (some before) now ms =
      single (mul (single (div (single (sub now before)) (single (of_ℕ ms)))) (of_ℕ 1000))

  unfoldable pub measure : ℕ → ℕ → Option (NetReadings F) → Row → NetReadings F
  measure uptime ms old row = record (elim old [ none ↦ no_readings | some q ↦ q ]) {
    type = type_bits network;
    timestamp = uptime;
    difference = ms;
    tx_bw = bandwidth (elim old [ none ↦ none | some q ↦ some q.tx_volume ]) (volume row.tx) ms;
    rx_bw = bandwidth (elim old [ none ↦ none | some q ↦ some q.rx_volume ]) (volume row.rx) ms;
    tx_volume = volume row.tx;
    rx_volume = volume row.rx;
    tx_packets = row.tx_packets;
    rx_packets = row.rx_packets;
    dev_name = row.name;
  }

  unfoldable pub record_row :
      ℕ → ℕ → Row → List (Text × NetReadings F) → List (Text × NetReadings F)
  record_row uptime ms row m =
      set_device row.name (measure uptime ms (find_device row.name m) row) m

  -- The loop over the lines.
  unfoldable pub read_lines :
      ℕ → ℕ → List Text → List (Text × NetReadings F) → Outcome (List (Text × NetReadings F))
  read_lines uptime ms [] m = returns m
  read_lines uptime ms (line ∷ lines) m =
      parse_row line >>= λ row. read_lines uptime ms lines (record_row uptime ms row m)

  -- The names are put behind those of the triggers before; the readings are new.
  unfoldable pub publish :
      (List (Text × NetReadings F) → List (Text × NetReadings F)) → NetObserver F → NetObserver F
  publish arrange o =
      let entries = arrange o.devices in
      record o {
        device_names = o.device_names ++ map (λ e. e.0) entries;
        readings = map (λ e. e.1) entries;
      }

  -- `GetProcNetDev`; the first two lines are titles.
  unfoldable pub get_proc_net_dev :
      (List (Text × NetReadings F) → List (Text × NetReadings F))
      → List Text
      → NetObserver F
      → Outcome (NetObserver F)
  get_proc_net_dev arrange lines o =
      let ms = sub64 o.uptime o.prev_uptime in
      read_lines o.uptime ms (drop 2 lines) o.devices >>= λ m.
      returns (publish arrange (record o { prev_uptime = o.uptime; devices = m }))

  unfoldable pub get_uptime : Machine → Option F → NetObserver F → NetObserver F
  get_uptime mc none o = o
  get_uptime mc (some up) o = record o { uptime = uptime_ms d mc up }

  unfoldable pub trigger :
      (List (Text × NetReadings F) → List (Text × NetReadings F))
      → Machine
      → Option F
      → List Text
      → NetObserver F
      → Outcome (NetObserver F × Status)
  trigger arrange mc up lines o =
      get_proc_net_dev arrange lines (get_uptime mc up o) >>= λ o'. returns (o', status_ok)

  -- `Reset` clears the readings alone.
  unfoldable pub reset : NetObserver F → NetObserver F × Status
  reset o = (record o { readings = [] }, status_ok)

  unfoldable pub select_device : ℕ → NetObserver F → NetObserver F × Status
  select_device device o = (record o { device = device }, status_ok)

  unfoldable pub set_scope : ObserverScope → NetObserver F → NetObserver F × Status
  set_scope scope o = (o, fail not_implemented "Cannot select a device since it is not implemented")

  unfoldable pub set_pid : ℕ → NetObserver F → NetObserver F × Status
  set_pid pid o = (o, fail not_implemented "Cannot set a PID since it is not implemented")

  unfoldable pub set_interval : ℕ → NetObserver F → NetObserver F × Status
  set_interval ms o = (record o { interval_ms = ms }, status_ok)

  unfoldable pub clear_interval : NetObserver F → NetObserver F × Status
  clear_interval o = (o, status_ok)
