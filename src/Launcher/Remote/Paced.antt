-- ===== src/Launcher/Remote/Paced.antt =====
-- The launcher's polls while the worker measures: before each request that the daemon serves the
-- worker's thread ends one round.
pub mod Completes
use efimon.Prelude.{ℕ, Option, none, some, List, [], ◌∷◌, Text}
use efimon.Daemon.Thread.{Act, round}
use efimon.Daemon.Analyser.{advance_worker}
use efimon.Daemon.Server.{Json, Config, Server}
use efimon.Launcher.Json.{Writer}
use efimon.Launcher.Remote.{Peer, daemon_ask}

-- The server after one more round of the worker of a process.
abbrev pub elapsed : ℕ → Server → Server
elapsed pid s = record s { analyser = advance_worker (round ∷ []) pid s.analyser }

module _ {J : Type 0} (api : Json J) (w : Writer J) where
  unfoldable pub paced_ask : Config → List Act → ℕ → Text → Peer → Option (Peer × Text)
  paced_ask c acts pid text none = none
  paced_ask c acts pid text (some s) = daemon_ask api w c acts text (some (elapsed pid s))
