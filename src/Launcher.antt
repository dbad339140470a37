-- ===== src/Launcher.antt =====
-- The thread of the launcher that runs a command, `launch_command`
-- (src/tools/efimon-launcher.cpp), over the process manager.
pub mod Json
pub mod Monitor
pub mod Kept
pub mod Remote
pub mod Ends
pub mod Tests
use efimon.Prelude.{Bool, true, false, none, List, [], ◌∷◌, if◌then◌else◌, Text}
use efimon.Status.{Status, is_ok}
use efimon.Outcome.{Outcome, returns, faults}
use efimon.Manager.{Mode, silent, Pipe, ProcessManager, open_process, close_process, is_running}

-- The manager, the flag that the thread sets, and whether the thread has come to its end.
pub record Launch (P : Type 0) : Type 0 where
  pub manager : ProcessManager P
  pub terminated : Bool
  pub finished : Bool

module _ {P : Type 0} (api : Pipe P) where
  -- The loop: the values are what it reads of `close` at the end of each round.
  unfoldable pub follow : List Bool → ProcessManager P → Launch P
  follow [] m = record { manager = m; terminated = false; finished = false }
  follow (close ∷ closes) m =
      let m' = (is_running api m).0 in
      let rest = follow closes m' in
      if (is_running api m).1
      then (if close
          then record { manager = (close_process api m').0; terminated = false; finished = true }
          else rest)
      else record { manager = (close_process api m').0; terminated = true; finished = true }

  -- An empty command has no first element.
  unfoldable pub launch_command : List Text → List Bool → ProcessManager P → Outcome (Launch P)
  unfolding follow
  launch_command [] closes m = faults
  launch_command (cmd ∷ args) closes m =
      let arguments : List Text = elim args [ [] ↦ [] | ◌∷◌ a rest ↦ cmd ∷ a ∷ rest ] in
      let (m', st) = open_process api cmd arguments silent none m in
      returns (
        if is_ok st.code
        then follow closes m'
        else record { manager = m'; terminated = true; finished = true })
