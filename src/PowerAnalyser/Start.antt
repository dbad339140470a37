-- ===== src/PowerAnalyser/Start.antt =====
-- How the power analyser starts (src/tools/efimon-power-analyser.cpp): its options and the thread of
-- its command.
use efimon.Prelude.{
  ℕ, Bool, not, ◌&&◌, ◌||◌, Option, none, some, List, ltb, if◌then◌else◌, length, Text, codes,
}
use efimon.Manager.{Pipe, ProcessManager}
use efimon.Launcher
use efimon.Launcher.{Launch}
use efimon.Outcome.{Outcome, returns, escapes, ◌>>=◌}
use efimon.Args.{parser, exists, get_begin}
use efimon.Options.{of_found, exists_either, get_either, number_or, text_or, read_uint, def_samples}
use efimon.Daemon.Server.{def_frequency}

-- `launch_command`: the launcher's, over the same process manager.
unfoldable pub launch_command :
    {P : Type 0} → Pipe P → List Text → List Bool → ProcessManager P → Outcome (Launch P)
launch_command api args closes m = Launcher.launch_command api args closes m

pub record AnalyserOptions : Type 0 where
  pub pid : ℕ
  pub timelimit : ℕ
  pub frequency : ℕ
  pub log_filename : Text

-- What `launch` gives is the pid of a command that runs; where it does not run the return from `main`
-- destroys a thread that was not joined, which ends the program.
unfoldable pub read_pid : (List Text → Option ℕ) → Bool → List Text → Outcome ℕ
unfolding of_found get_either read_uint
read_pid launch check_pid args =
    if check_pid
    then get_either "-p" "--pid" args >>= read_uint
    else (of_found (get_begin (codes "-c") args) >>= λ command. elim (launch command) [
      | none ↦ escapes
      | some pid ↦ returns pid
    ])

-- Exactly one of a process and a command; `none` is the return of -1.
unfoldable pub analyser_options :
    (List Text → Option ℕ) → Bool → List Text → Outcome (Option AnalyserOptions)
unfolding read_pid exists_either number_or text_or
analyser_options launch root argv =
    let args = parser argv in
    let check_pid = exists_either "-p" "--pid" args in
    let check_cmd = exists (codes "-c") args in
    let one = (check_cmd && not check_pid) || (check_pid && not check_cmd) in
    if not root || ltb (length argv) 3 || not one
    then returns none
    else (read_pid launch check_pid args >>= λ pid.
        number_or def_samples "-s" "--samples" args >>= λ timelimit.
        number_or def_frequency "-f" "--frequency" args >>= λ frequency.
        text_or (codes "measurements.csv") "-o" "--output" args >>= λ log_filename. returns (
          some record {
            pid = pid;
            timelimit = timelimit;
            frequency = frequency;
            log_filename = log_filename;
          }))
