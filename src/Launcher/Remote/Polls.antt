-- ===== src/Launcher/Remote/Polls.antt =====
-- A poll of the launcher against the daemon.
use efimon.Prelude.{
  ℕ, zero, suc, ◌^◌, ◌<◌, ◌≡◌, refl, ◌∙◌, ◌≢◌, Bool, false, none, some, List, [], ◌∷◌, arith,
  replicate, Text, codes,
}
use efimon.Status.{code_number, stopped}
use efimon.Outcome.{returns}
use efimon.Daemon.Thread.{Act}
use efimon.Daemon.Analyser.{Analyser, find_worker, Notice, check_worker}
use efimon.Daemon.Server.{Json, Config, Server, object, respond}
use efimon.Daemon.Replies.{serve-poll}
use efimon.Launcher.Json.{parsed, Writer, build, IsJson}
use efimon.Launcher.Monitor.{AppData, poll_payload, read_code, check_monitor, watch, watching}
use efimon.Launcher.Remote.Answers.{
  code_number_bound, parse_text-write, daemon_ask-serve, parse_stream-reply, member-code,
}
use efimon.Launcher.Remote.{parse_text, response_value, reply_text, daemon_ask}

absent-code :
    (pid : ℕ) (a : Analyser)
    → find_worker pid a.workers ≡ none
    → code_number (check_worker pid a).code ≢ code_number stopped
unfolding check_worker code_number
absent-code pid a e = ground arith

module _ {J : Type 0} (api : Json J) (w : Writer J) (law : IsJson api w) (c : Config) where
  open w use {of_uint, of_int, of_text, write}

  ask-poll :
      (acts : List Act) (app : AppData) (s : Server)
      → app.pid < 2 ^ 32
      → daemon_ask api w c acts (write (poll_payload api w app)) (some s)
        ≡ some (some s, reply_text api w (object (respond (check_worker app.pid s.analyser) none)))
  unfolding poll_payload
  ask-poll acts app s h =
      let es : List (Text × J) =
        (codes "transaction", of_text (codes "poll")) ∷ (codes "pid", of_uint app.pid) ∷ [] in
      daemon_ask-serve api w c acts (write (build api w es)) s s _ (
        serve-poll api (parse_text api w) c acts (write (build api w es)) (build api w es)
          (of_text (codes "poll")) (of_uint app.pid) s app.pid (parse_text-write api w law es)
          (law.member-build es (codes "transaction")) (law.as_text-of_text (codes "poll"))
          (law.member-build es (codes "pid")) (law.as_uint-of_uint app.pid h))

  read_code-respond :
      (n : Notice)
      → read_code api w (parsed (response_value api w (respond n none)))
        ≡ returns (record { code = code_number n.code; msg = "" })
  unfolding read_code
  read_code-respond n =
      rw
        (
          member-code api w law n none,
          law.as_int-of_int (code_number n.code) (code_number_bound n.code),
        )
        refl

  -- A poll over the socket is the analyser's own answer: it gives the code of `CheckWorkerThread`
  -- for the launcher's process, with no message, and changes nothing in the daemon.
  pub check_monitor-check_worker :
      (acts : List Act) (app : AppData) (s : Server)
      → app.pid < 2 ^ 32
      → check_monitor api w (daemon_ask api w c acts) app (some s)
        ≡ returns (
            some (
              some s,
              record { code = code_number (check_worker app.pid s.analyser).code; msg = "" },
            ))
  unfolding check_monitor
  check_monitor-check_worker acts app s h =
      let a = ask-poll acts app s h in
      let p = parse_stream-reply api w law (check_worker app.pid s.analyser) none in
      let r = read_code-respond (check_worker app.pid s.analyser) in ground arith

  watch-step :
      (acts : List Act) (app : AppData) (s : Server) (rounds : List (Bool × Bool))
      → app.pid < 2 ^ 32
      → code_number (check_worker app.pid s.analyser).code ≢ code_number stopped
      → watch api w (daemon_ask api w c acts) ((false, false) ∷ rounds) app (some s)
        ≡ watch api w (daemon_ask api w c acts) rounds app (some s)
  unfolding watch
  watch-step acts app s rounds h n = let a = check_monitor-check_worker acts app s h in ground arith

  -- Where the daemon has no worker for the process, as after another client's request to stop it, the
  -- loop never ends by itself: it takes the answer that there is none for a monitor that runs, so
  -- after any number of rounds in which no flag is set it polls again, and the daemon is as it was.
  pub watch-endless :
      (acts : List Act) (app : AppData) (s : Server) (rounds : ℕ)
      → app.pid < 2 ^ 32
      → find_worker app.pid s.analyser.workers ≡ none
      → watch api w (daemon_ask api w c acts) (replicate rounds (false, false)) app (some s)
        ≡ returns (some (some s, watching))
  unfolding watch
  watch-endless acts app s zero h e = refl
  watch-endless acts app s (suc rounds) h e =
      watch-step acts app s (replicate rounds (false, false)) h (absent-code app.pid s.analyser e)
      ∙ watch-endless acts app s rounds h e
