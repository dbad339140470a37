-- ===== src/Options.antt =====
-- How the tools read their command lines: the beginning of `main` in src/tools/efimon-daemon.cpp,
-- efimon-launcher.cpp and efimon-power-analyser.cpp. `none` is the return of -1 after a message.
use efimon.Prelude.{
  ℕ, ◌-◌, ◌%◌, ◌^◌, String, Bool, true, not, ◌&&◌, ◌||◌, Option, none, some, List, [], ◌∷◌, leb,
  ◌==◌, if◌then◌else◌, Text, codes,
}
pub mod Targets
pub mod Tests
pub mod Written
use efimon.Outcome.{Outcome, returns, escapes, ◌>>=◌}
use efimon.Args.{Found, found, throws, parser, exists, get_begin, get_option}
use efimon.Proc.Machine.{is_digit, leading}
use efimon.Proc.CpuInfo.{stoi}
use efimon.Daemon.Server.{Config, Server, def_frequency}
use efimon.Daemon.Analyser.{Setting, new_analyser, enable_debug, start_system}
use efimon.Perf.Record.{World}
use efimon.Launcher.Monitor.{AppData}

unfoldable pub is_blank : ℕ → Bool
is_blank c = c == b' ' || (leb 9 c && leb c 13)

unfoldable pub skip_blanks : Text → Text
unfolding is_blank
skip_blanks [] = []
skip_blanks (c ∷ s) = let rest = skip_blanks s in if is_blank c then rest else c ∷ s

-- The number after a minus, as a pattern of 32 bits.
unfoldable pub negative : Text → Outcome ℕ
negative [] = escapes
negative (c ∷ s) =
    let n = leading 0 (c ∷ s) in
    if is_digit c
    then if leb n (2 ^ 31) then returns ((2 ^ 32 - n) % 2 ^ 32) else escapes
    else escapes

unfoldable pub signed : Text → Outcome ℕ
unfolding negative stoi
signed [] = escapes
signed (c ∷ s) = if c == b'-' then negative s else if c == b'+' then stoi s else stoi (c ∷ s)

-- `std::stoi` with the conversion to `unsigned int`.
unfoldable pub read_uint : Text → Outcome ℕ
unfolding signed skip_blanks
read_uint t = signed (skip_blanks t)

-- The exceptions of the parser are of the standard library.
unfoldable pub of_found : {A : Type 0} → Found A → Outcome A
of_found (found a) = returns a
of_found (throws e) = escapes

unfoldable pub exists_either : String → String → List Text → Bool
exists_either short long args = exists (codes short) args || exists (codes long) args

unfoldable pub get_either : String → String → List Text → Outcome Text
unfolding of_found
get_either short long args =
    of_found (get_option (if exists (codes short) args then codes short else codes long) args)

unfoldable pub text_or : Text → String → String → List Text → Outcome Text
unfolding exists_either get_either
text_or default short long args =
    if exists_either short long args then get_either short long args else returns default

unfoldable pub number_or : ℕ → String → String → List Text → Outcome ℕ
unfolding exists_either get_either read_uint
number_or default short long args =
    if exists_either short long args
    then get_either short long args >>= read_uint
    else returns default

-- `kDefaultSampleLimit`, `kDelay`, `kPort`; the default of `samples` in the launcher is -1.
abbrev pub def_samples : ℕ
def_samples = 100

abbrev pub def_delay : ℕ
def_delay = 3

abbrev pub def_port : ℕ
def_port = 5550

pub record DaemonOptions : Type 0 where
  pub samples : ℕ
  pub frequency : ℕ
  pub delaytime : ℕ
  pub port : ℕ
  pub outputpath : Text
  pub debug_mode : Bool

unfoldable pub daemon_options : List Text → Outcome (Option DaemonOptions)
unfolding number_or text_or
daemon_options argv =
    let args = parser argv in
    if exists_either "-h" "--help" args
    then returns none
    else (number_or def_samples "-s" "--samples" args >>= λ samples.
        number_or def_frequency "-f" "--frequency" args >>= λ frequency.
        number_or def_delay "-d" "--delay" args >>= λ delaytime.
        number_or def_port "-p" "--port" args >>= λ port.
        text_or (codes "/tmp") "-o" "--output-folder" args >>= λ outputpath. returns (
          some record {
            samples = samples;
            frequency = frequency;
            delaytime = delaytime;
            port = port;
            outputpath = outputpath;
            debug_mode = exists_either "-g" "--enable-debug" args;
          }))

-- The analyser and the system's thread, before the first request.
unfoldable pub boot : Setting → World → DaemonOptions → Config × Server
boot setting world o =
    let a = if o.debug_mode then enable_debug (new_analyser world) else new_analyser world in
    (
      record { setting = setting; delaytime = o.delaytime; outputpath = o.outputpath },
      record { analyser = (start_system o.delaytime a).0; logcounter = 0 },
    )

-- The command of the launcher, or the process that it attaches to.
unfoldable pub read_target : Bool → List Text → Outcome (List Text × ℕ)
unfolding of_found get_either read_uint
read_target check_command args =
    if check_command
    then (of_found (get_begin (codes "-c") args) >>= λ command. returns (command, 0))
    else (get_either "-pid" "--pid" args >>= λ t. read_uint t >>= λ pid. returns ([], pid))

-- With `-o` the code asks for the value of `-`.
unfoldable pub read_filename : List Text → Outcome Text
unfolding exists_either of_found
read_filename args =
    if exists_either "-o" "--output" args
    then of_found
        (get_option (if exists (codes "-o") args then codes "-" else codes "--output") args)
    else returns []

-- With the application's data, whether there is a command.
unfoldable pub launcher_options : List Text → Outcome (Option (AppData × Bool))
unfolding read_target read_filename number_or
launcher_options argv =
    let args = parser argv in
    let check_command = exists_either "-c" "--command" args in
    if exists_either "-h" "--help" args || not (check_command || exists_either "-pid" "--pid" args)
    then returns none
    else (read_target check_command args >>= λ target.
        number_or (2 ^ 32 - 1) "-s" "--samples" args >>= λ samples.
        number_or def_frequency "-f" "--frequency" args >>= λ frequency.
        number_or def_delay "-d" "--delay" args >>= λ delay.
        number_or def_port "-p" "--port" args >>= λ port. read_filename args >>= λ filename.
        returns (
          some (
            record {
              command = target.0;
              port = port;
              pid = target.1;
              frequency = frequency;
              samples = samples;
              delay = delay;
              enable_perf = exists_either "-perf" "--enable-perf" args;
              filename = filename;
              socket = true;
            },
            check_command,
          )))
