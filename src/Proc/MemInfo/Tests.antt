-- ===== src/Proc/MemInfo/Tests.antt =====
-- The theorems on the memory observer, and on numbers in texts, at concrete inputs.
use efimon.Prelude.{ℕ, ◌≡◌, refl, none, List, [], ◌∷◌, map, arith, All, Text, codes}
use efimon.Status.{status_ok}
use efimon.Float.{whole}
use efimon.Outcome.{returns}
use efimon.Proc.Machine.{Machine}
use efimon.Proc.MemInfo.{MemObserver, trigger}
use efimon.Proc.MemInfo.Amounts.{Entry, line_of, IsEntry}
use efimon.Proc.MemInfo.Labels.{HasAmounts, IsSingle, trigger-amounts}

abbrev machine : Machine
machine = record { clk_tck = 100; processors = 2; page_size = 4096 }

abbrev observer : MemObserver ℕ
observer = record {
  interval_ms = 0;
  status = status_ok;
  caps_type = 129;
  proc_data = record { swap_available = 4; swap_total = 9; phys_available = 5; phys_total = 5 };
  readings = record {
    type = 2;
    timestamp = 10;
    difference = 10;
    overall_usage = 0;
    total_memory_usage = 0;
    swap_usage = 0;
    overall_bw = 0;
    overall_power = 0;
  };
  uptime = 10;
}

abbrev entry : Text → ℕ → Entry
entry label n = record { label = label; pad = 3; amount = n }

abbrev entries : List Entry
entries =
    entry (codes "MemTotal:") 8192
    ∷ entry (codes "MemFree:") 100
    ∷ entry (codes "MemAvailable:") 2048
    ∷ entry (codes "SwapFree:") 3
    ∷ []

entries-IsEntry : All IsEntry entries
entries-IsEntry = omega arith

entries-IsSingle : All IsSingle entries
entries-IsSingle = (
  (refl, refl, refl, refl, refl, refl),
  (
    (refl, refl, refl, refl, refl, refl),
    ((refl, refl, refl, refl, refl, refl), ((refl, refl, refl, refl, refl, refl), tt)),
  ),
)

trigger-amounts_example :
    (o' : MemObserver ℕ) × (trigger whole machine none (map line_of entries) observer
      ≡ returns (o', status_ok))
    × HasAmounts 2048 3 8192 9 o'.proc_data
    × (o'.readings.overall_usage ≡ 6)
    × (o'.readings.swap_usage ≡ 0)
    × (o'.readings.total_memory_usage ≡ 6)
trigger-amounts_example =
    trigger-amounts whole machine none entries observer entries-IsEntry entries-IsSingle
      (omega arith) (omega arith) (omega arith) (omega arith)
