-- ===== src/Proc/Net/Tests.antt =====
-- The theorems on the network observer at concrete inputs.
use efimon.Prelude.{ℕ, ◌≡◌, refl, arith, none, some, List, [], ◌∷◌, drop, Text, codes}
use efimon.Status.{status_ok}
use efimon.Float.{whole}
use efimon.Outcome.{returns}
use efimon.Proc.Machine.{Machine, uptime_ms, split_spaces, value_at, number_at}
use efimon.Proc.Net.{
  NetReadings, NetObserver, Row, words_of, without_last, parse_row, find_device, no_readings,
  read_lines, publish, get_proc_net_dev, get_uptime, trigger,
}
use efimon.Proc.Net.Devices.{Parses, AreDistinct}
use efimon.Proc.Net.Rates.{IsRated, trigger-rates}

abbrev machine : Machine
machine = record { clk_tck = 100; processors = 2; page_size = 4096 }

abbrev lo_before : NetReadings ℕ
lo_before = record (no_readings whole) { tx_volume = 3; rx_volume = 3; timestamp = 1000 }

abbrev observer : NetObserver ℕ
observer = record {
  interval_ms = 0;
  device = 0;
  status = status_ok;
  caps_type = 0;
  uptime = 1000;
  prev_uptime = 1000;
  devices = (codes "lo", lo_before) ∷ [];
  readings = lo_before ∷ [];
  device_names = codes "lo" ∷ [];
}

abbrev file : List Text
file =
    codes "Inter-|   Receive"
    ∷ codes " face |bytes"
    ∷ codes "    lo: 5120 9 0 0 0 0 0 0 7168 11 0"
    ∷ codes "  eth0: 2048 4 0 0 0 0 0 0 1024 2 0"
    ∷ []

abbrev lo_row : Row
lo_row = record { name = codes "lo"; tx = 7168; rx = 5120; tx_packets = 11; rx_packets = 9 }

abbrev eth_row : Row
eth_row = record { name = codes "eth0"; tx = 1024; rx = 2048; tx_packets = 2; rx_packets = 4 }

file-Parses : Parses (drop 2 file) (lo_row ∷ eth_row ∷ [])
unfolding parse_row words_of without_last value_at number_at split_spaces
file-Parses = (refl, (refl, tt))

rows-AreDistinct : AreDistinct (lo_row ∷ eth_row ∷ [])
rows-AreDistinct = ((cc, tt), (tt, tt))

abbrev later : List Text
later =
    codes "Inter-|   Receive"
    ∷ codes " face |bytes"
    ∷ codes "  eth0: 6144 5 0 0 0 0 0 0 1024 2 0"
    ∷ codes "    lo: 5120 9 0 0 0 0 0 0 15360 15 0"
    ∷ []

abbrev lo_later : Row
lo_later = record { name = codes "lo"; tx = 15360; rx = 5120; tx_packets = 15; rx_packets = 9 }

abbrev eth_later : Row
eth_later = record { name = codes "eth0"; tx = 1024; rx = 6144; tx_packets = 2; rx_packets = 5 }

later-Parses : Parses (drop 2 later) (eth_later ∷ lo_later ∷ [])
unfolding parse_row words_of without_last value_at number_at split_spaces
later-Parses = (refl, (refl, tt))

later-AreDistinct : AreDistinct (eth_later ∷ lo_later ∷ [])
later-AreDistinct = ((cc, tt), (tt, tt))

trigger-rates_example :
    (o1 : NetObserver ℕ) × (o2 : NetObserver ℕ) × (q : NetReadings ℕ) × (trigger whole
        (λ m. m)
        machine
        (some 2)
        file
        observer
      ≡ returns (o1, status_ok))
    × (trigger whole (λ m. m) machine (some 3) later o1 ≡ returns (o2, status_ok))
    × (find_device (codes "lo") o2.devices ≡ some q)
    × IsRated whole lo_row lo_later 1000 q
unfolding uptime_ms
trigger-rates_example =
    trigger-rates whole (λ m. m) machine 2 3 file later (lo_row ∷ eth_row ∷ [])
      (eth_later ∷ lo_later ∷ []) 0 1 lo_row lo_later observer file-Parses later-Parses
      rows-AreDistinct later-AreDistinct refl refl refl (omega arith) (omega arith)

abbrev again : NetObserver ℕ
again = publish whole (λ m. m) (record observer { uptime = 1000; prev_uptime = 1000 })

again_run : trigger whole (λ m. m) machine none [] observer ≡ returns (again, status_ok)
unfolding trigger get_uptime get_proc_net_dev read_lines
again_run = refl
