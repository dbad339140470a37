-- ===== src/Launcher/Tests.antt =====
-- The theorem on the thread of a command at a concrete input: a process of two lines.
use efimon.Prelude.{◌≡◌, refl, true, false, [], ◌∷◌, arith, codes}
use efimon.Outcome.{returns}
use efimon.Manager.{open_process}
use efimon.Manager.Tests.{Lines, lines_pipe, lines_pipe-IsPipe, launched}
use efimon.Launcher.{Launch, launch_command}
use efimon.Launcher.Ends.{IsEnded, launch_command-IsEnded}

-- The second round is told to close.
launch_command-IsEnded_example :
    (l : Launch Lines) × (launch_command lines_pipe
        (codes "greet" ∷ [])
        (false ∷ true ∷ false ∷ [])
        launched
      ≡ returns l)
    × IsEnded lines_pipe (λ p. p.1) lines_pipe-IsPipe launched false l
unfolding open_process
launch_command-IsEnded_example =
    launch_command-IsEnded lines_pipe (λ p. p.1) lines_pipe-IsPipe (codes "greet") []
      (false ∷ true ∷ false ∷ []) launched refl (omega arith)
