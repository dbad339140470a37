-- ===== src/Options/Tests.antt =====
-- The theorems on the command lines at concrete inputs.
use efimon.Prelude.{◌-◌, ◌^◌, ◌≡◌, refl, true, false, some, List, [], ◌∷◌, arith, Text, codes}
use efimon.Outcome.{returns}
use efimon.Args.{parser, exists, get_begin, find_option, advance, get_option, deref}
use efimon.Launcher.Monitor.{AppData}
use efimon.Options.{
  DaemonOptions, daemon_options, launcher_options, exists_either, number_or, read_filename,
  of_found, read_target,
}
use efimon.Options.Written.{command_line, daemon_options-command_line}
use efimon.Options.Targets.{launcher_options-dashes}

abbrev options : DaemonOptions
options = record {
  samples = 20;
  frequency = 250;
  delaytime = 2;
  port = 5551;
  outputpath = codes "/var/log";
  debug_mode = true;
}

daemon_options-command_line_example :
    daemon_options (command_line (codes "efimon-daemon") options) ≡ returns (some options)
daemon_options-command_line_example =
    daemon_options-command_line (codes "efimon-daemon") options refl refl (omega arith)

abbrev arguments : List Text
arguments =
    codes "efimon-launcher" ∷ codes "-o" ∷ codes "-" ∷ codes "a.csv" ∷ codes "-c" ∷ codes "ls" ∷ []

abbrev application : AppData
application = record {
  command = codes "ls" ∷ [];
  port = 5550;
  pid = 0;
  frequency = 100;
  samples = 2 ^ 32 - 1;
  delay = 3;
  enable_perf = false;
  filename = codes "a.csv";
  socket = true;
}

arguments_run : launcher_options arguments ≡ returns (some (application, true))
unfolding launcher_options exists_either exists parser number_or read_filename read_target of_found
    get_option get_begin find_option advance deref
arguments_run = refl

launcher_options-dashes_example :
    (exists (codes "-o") (parser arguments) ≡ true → exists (codes "-") (parser arguments) ≡ true)
    × (exists (codes "--command") (parser arguments) ≡ true
        → exists (codes "-c") (parser arguments) ≡ true)
launcher_options-dashes_example = launcher_options-dashes arguments application true arguments_run
