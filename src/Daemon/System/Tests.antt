-- ===== src/Daemon/System/Tests.antt =====
-- The theorem on the refresh at a concrete input, over whole numbers.
use efimon.Prelude.{ℕ, ◌≤◌, ◌≡◌, refl, none, some, List, [], ◌∷◌, length, Text, codes}
use efimon.Float.{whole}
use efimon.Status.{Status, status_ok}
use efimon.Outcome.{Outcome, returns}
use efimon.Proc.Machine.{leading}
use efimon.Proc.CpuInfo.{
  CpuInfo, keyword_bits, keyword_of, after_colon, stoi, read_id, max, push_core, insert_map,
  see_processor, see_socket, see_core, see, parse_line, parse_lines, start_parsing, parse_map,
  refresh, find_socket, sum_clocks, socket_mean, socket_means, get_socket_mean_frequency,
}
use efimon.Daemon.Columns.{CpuUsage}
use efimon.Daemon.System.{
  SystemObserver, trigger_if_enabled, SystemMeters, write_means, refresh_proc_sys,
}
use efimon.Daemon.System.Sockets.{refresh-frequencies}

abbrev stof : Text → Outcome ℕ
stof t = returns (leading 0 t)

abbrev unchanged : {O : Type 0} → O → Outcome (O × Status)
unchanged o = returns (o, status_ok)

abbrev observer : SystemObserver ℕ (CpuUsage ℕ)
observer = record {
  trigger = unchanged;
  usage = λ o. o;
  write_frequencies = λ xs o. record o { socket_frequency = xs };
}

abbrev one_core : List Text
one_core =
    codes "processor\t: 0"
    ∷ codes "cpu MHz\t\t: 1800"
    ∷ codes "physical id\t: 0"
    ∷ codes "core id\t\t: 0"
    ∷ []

abbrev meters_of : List ℕ → CpuInfo ℕ → SystemMeters ℕ (CpuUsage ℕ) ℕ ℕ
meters_of frequencies info = record {
  proc_sys =
      some
        record { timestamp = 0; difference = 0; overall_usage = 0; socket_frequency = frequencies };
  ipmi = none;
  rapl = none;
  info = info;
  warnings = [];
}

abbrev no_cores : CpuInfo ℕ
no_cores = record { num_logical = 0; num_physical = 0; num_sockets = 0; topology = [] }

abbrev with_core : CpuInfo ℕ
with_core = record {
  num_logical = 1;
  num_physical = 1;
  num_sockets = 1;
  topology = (0, (record { logical = 0; core = 0; clock = 1800 } ∷ [])) ∷ [];
}

refresh_run :
    refresh_proc_sys whole stof observer unchanged unchanged one_core (meters_of [] no_cores)
    ≡ returns (meters_of (1800 ∷ []) with_core, status_ok)
unfolding keyword_bits keyword_of after_colon stoi read_id max push_core insert_map see_processor
    see_socket see_core see parse_line parse_lines start_parsing parse_map refresh find_socket
    sum_clocks socket_mean socket_means get_socket_mean_frequency trigger_if_enabled write_means
    refresh_proc_sys leading
refresh_run = refl

refresh-frequencies_example :
    (o : CpuUsage ℕ) × ((meters_of (1800 ∷ []) with_core).proc_sys ≡ some o)
    × (length o.socket_frequency ≡ 1)
    × (0 ≤ with_core.num_sockets)
refresh-frequencies_example =
    refresh-frequencies whole stof observer unchanged unchanged one_core (meters_of [] no_cores)
      (meters_of (1800 ∷ []) with_core) status_ok (λ xs o. refl) refresh_run
