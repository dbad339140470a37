-- ===== src/Daemon/Rows/Tests.antt =====
-- The theorems on the rows at concrete inputs, over whole numbers.
use efimon.Prelude.{ℕ, ◌≡◌, refl, false, none, some, List, [], ◌∷◌, Text, codes, to_string}
use efimon.Float.{whole}
use efimon.Outcome.{returns}
use efimon.Logger.{Value, uint64, single_float, find_value}
use efimon.Asm.Kinds.{memory, scalar, type_string, family_string, origin_decomposed, origin_of_bits}
use efimon.Perf.Annotate.{type_number, family_number}
use efimon.Daemon.Columns.{
  Features, CpuUsage, Slots, from_register, bucket_name, bucket_of, is_memory, has_origins, column,
  bucket_column, create_log_table,
}
use efimon.Daemon.Rows.{
  put_value, put_indexed, put_pair, find_key, origins_of, base_values, put_usage, put_ipmi,
  put_rapl, row_values,
}
use efimon.Daemon.Rows.Filled.{AreKnown}
use efimon.Daemon.Rows.Known.{row_values-AreKnown}
use efimon.Daemon.Rows.Buckets.{put_pair-shares}

abbrev same_order : List (ℕ × ℕ) → List (ℕ × ℕ)
same_order os = os

-- Register to register, then immediate to register: both belong to the column of the registers.
abbrev shares : List (ℕ × List (ℕ × List (ℕ × ℕ)))
shares = (0, ((2, ((10, 30) ∷ (11, 5) ∷ [])) ∷ [])) ∷ []

-- 5 of 35.
put_pair-shares_example :
    find_value
      (codes "ProbabilityRegisterScalarMemory")
      (put_pair whole same_order shares scalar memory [])
    ≡ some (single_float 5)
unfolding has_origins bucket_column column bucket_name origins_of find_key type_number family_number
    bucket_of is_memory origin_decomposed origin_of_bits type_string family_string
put_pair-shares_example = put_pair-shares whole same_order shares scalar memory from_register []

abbrev no_features : Features
no_features = record { ipmi = false; rapl = false; perf = false }

abbrev usage : CpuUsage ℕ
usage = record { timestamp = 1; difference = 2; overall_usage = 3; socket_frequency = [] }

abbrev one_socket : ℕ → Slots ℕ
one_socket mhz = record {
  psu_slot = none;
  fan_slot = none;
  rapl_slot = none;
  cpu_slot = some (record usage { socket_frequency = mhz ∷ [] });
}

abbrev row : List (Text × Value ℕ)
row =
    (codes "Timestamp", uint64 1)
    ∷ (codes "SystemCpuUsage", single_float 3)
    ∷ (codes "ProcessCpuUsage", single_float 3)
    ∷ (codes "TimeDifference", uint64 2)
    ∷ (codes "SocketFreq0", single_float 1800)
    ∷ []

row_run : row_values whole same_order no_features false usage (one_socket 1800) [] ≡ returns row
unfolding row_values put_usage put_ipmi put_rapl put_indexed base_values put_value to_string
row_run = refl

row_values-AreKnown_example :
    AreKnown (create_log_table no_features false (one_socket 2400) []).0 row
row_values-AreKnown_example =
    row_values-AreKnown whole same_order no_features false usage (one_socket 2400) (one_socket 1800)
      [] row
      record {
        frequencies_len = refl;
        max_powers_len = refl;
        speeds_len = refl;
        socket_powers_len = refl;
      }
      row_run
