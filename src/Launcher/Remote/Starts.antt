-- ===== src/Launcher/Remote/Starts.antt =====
-- The launcher's request to start the monitors, against the daemon.
use efimon.Prelude.{
  ◌≡◌, refl, ◌∙◌, inl, inr, true, Option, none, some, List, [], ◌∷◌, ◌++◌, if◌then◌else◌,
  Bool-cases, Text, codes, text_eq,
}
use efimon.Outcome.{returns}
use efimon.Daemon.Thread.{Act}
use efimon.Daemon.Analyser.{Analyser, Notice, start_system, start_worker}
use efimon.Daemon.Server.{
  Json, Config, Server, object, respond, serve, serve_parsed, dispatch, serve_system, serve_start,
  member_if, early_reply, complete, create_monitoring_file,
}
use efimon.Launcher.Json.{parsed, Writer, build, assign, IsJson}
use efimon.Launcher.Monitor.{
  AppData, system_payload, process_payload, put_name, start_monitor, start_process, report_system,
  report_process, named_success,
}
use efimon.Launcher.Remote.{response_value, reply_text, daemon_ask}
use efimon.Launcher.Remote.Answers.{
  parse_text-write, daemon_ask-serve, parse_stream-reply, member-result, member-name,
}
use efimon.Launcher.Remote.Requests.{
  IsSized, template_fields, IsRequest, name_or, serve-request, has_succeeded-respond, next_log,
  log_name,
}

-- The name that a request asks for, if it has one.
abbrev pub chosen : Text → Option Text
chosen [] = none
chosen (c ∷ cs) = some (c ∷ cs)

-- The daemon after the first request.
abbrev pub system_started : Config → Server → Server
system_started c s = record s { analyser = (start_system c.delaytime s.analyser).0 }

-- The launcher's file, or the next log of the daemon.
abbrev pub file_of : Config → AppData → Server → Text
file_of c app s = name_or (log_name c app s) (chosen app.filename)

-- The lines of `start_monitor`, from the two statuses.
abbrev pub system_lines : Notice → List Text
system_lines n =
    if text_eq n.what []
    then codes "System Monitor started" ∷ []
    else codes "System Monitor could not be started. Probably, it's been started before" ∷ []

abbrev pub process_lines : Notice → Text → List Text
process_lines n file =
    if text_eq n.what []
    then codes "Process Monitor started" ∷ (codes "Log file in: " ++ file) ∷ []
    else codes "Process Monitor could not be started" ∷ []

module _ {J : Type 0} (api : Json J) (w : Writer J) (law : IsJson api w) (c : Config) where
  open w use {of_uint, of_int, of_text, of_bool, write}

  abbrev system_fields : AppData → List (Text × J) → List (Text × J)
  system_fields app es =
      template_fields api w law c app
        ((codes "transaction", of_text (codes "system")) ∷ (codes "state", of_bool true) ∷ es)

  abbrev name_fields : Text → List (Text × J)
  name_fields [] = []
  name_fields (x ∷ xs) = (codes "name", of_text (x ∷ xs)) ∷ []

  abbrev process_fields : AppData → Text → List (Text × J)
  process_fields app file = system_fields app (
      (codes "transaction", of_text (codes "process"))
      ∷ (codes "pid", of_uint app.pid)
      ∷ name_fields file)

  put_name-assign :
      (file : Text) (j : J) → put_name api w file j ≡ assign api w (name_fields file) j
  unfolding put_name
  put_name-assign [] j = refl
  put_name-assign (x ∷ xs) j = refl

  system_payload-build :
      (app : AppData) → system_payload api w app ≡ build api w (system_fields app [])
  unfolding system_payload
  system_payload-build app = refl

  process_payload-build :
      (app : AppData)
      → process_payload api w app (system_payload api w app)
        ≡ build api w (process_fields app app.filename)
  unfolding process_payload system_payload
  process_payload-build app = put_name-assign app.filename _

  process_fields-IsRequest :
      (app : AppData) (file : Text)
      → IsRequest api w law c app true (chosen file) (process_fields app file)
  process_fields-IsRequest app [] = record {
    transaction = refl;
    state = refl;
    pid = refl;
    perf = refl;
    frequency = refl;
    samples = refl;
    delay = refl;
    file = refl;
  }
  process_fields-IsRequest app (x ∷ xs) = record {
    transaction = refl;
    state = refl;
    pid = refl;
    perf = refl;
    frequency = refl;
    samples = refl;
    delay = refl;
    file = refl;
  }

  ask-system :
      (acts : List Act) (app : AppData) (s : Server)
      → daemon_ask api w c acts (write (system_payload api w app)) (some s)
        ≡ some (
          some (system_started c s),
          reply_text api w (object (respond (start_system c.delaytime s.analyser).1 none)),
        )
  unfolding serve serve_parsed dispatch serve_system member_if early_reply complete
  ask-system acts app s =
      let es = system_fields app [] in
      let p = parse_text-write api w law es in
      let m1 = law.member-build es (codes "transaction") in
      let m2 = law.as_text-of_text (codes "system") in
      let m3 = law.member-build es (codes "state") in
      let m4 = law.as_bool-of_bool true in
      rw (system_payload-build app) (
        daemon_ask-serve api w c acts (write (build api w es)) s (system_started c s) _
          (rw (p, serve, m1, m2, dispatch, m3, m4) refl))

  ask-process :
      (acts : List Act) (app : AppData) (s : Server) (a : Analyser) (n : Notice)
      → IsSized app
      → start_worker c.setting
          (file_of c app s)
          app.pid
          app.delay
          app.samples
          app.enable_perf
          app.frequency
          s.analyser
        ≡ returns (a, n)
      → daemon_ask api w c acts
          (write (process_payload api w app (system_payload api w app)))
          (some s)
        ≡ some (
          some (record (next_log s) { analyser = a }),
          reply_text api w (object (respond n (some (file_of c app s)))),
        )
  unfolding create_monitoring_file
  ask-process acts app s a n z e =
      let es = process_fields app app.filename in
      let r =
        serve-request api w law c acts es s app true (chosen app.filename) z
          (process_fields-IsRequest app app.filename) in
      rw (process_payload-build app) (
        daemon_ask-serve api w c acts (write (build api w es)) s
          (record (next_log s) { analyser = a }) (object (respond n (some (file_of c app s))))
          (r ∙ (unfold serve_start complete in rw e refl)))

  report_system-respond :
      (n : Notice)
      → report_system api w (parsed (response_value api w (respond n none)))
        ≡ returns (system_lines n)
  unfolding report_system
  report_system-respond n = rw (has_succeeded-respond api w law c n none) refl

  report_process-respond :
      (n : Notice) (file : Text)
      → report_process api w (parsed (response_value api w (respond n (some file))))
        ≡ returns (process_lines n file)
  unfolding report_process named_success
  report_process-respond n file =
      let m = member-result api w law n (some file) in
      let k = member-name api w law n file in
      let q = law.equals-of_text n.what [] in
      let t = law.as_text-of_text file in
      elim (Bool-cases (text_eq n.what [])) [
        | inl y ↦ rw (m, k, q, y, t) refl
        | inr y ↦ rw (m, k, q, y) refl
      ]

  -- A start over the socket is two calls of the analyser: the monitor of the system, and then
  -- `StartWorkerThread` with the launcher's process, delay, samples, perf flag and frequency, and with
  -- the launcher's file, or the daemon's next log if the launcher has none. If the second call
  -- returns, each part is said to have started exactly where its status has no message, and the file
  -- that is printed is the worker's.
  pub start_monitor-start_worker :
      (acts : List Act) (app : AppData) (s : Server) (a : Analyser) (n : Notice)
      → IsSized app
      → app.socket ≡ true
      → start_worker c.setting
          (file_of c app s)
          app.pid
          app.delay
          app.samples
          app.enable_perf
          app.frequency
          (system_started c s).analyser
        ≡ returns (a, n)
      → start_monitor api w (daemon_ask api w c acts) app (some s)
        ≡ returns (
            some (
              some (record (next_log s) { analyser = a }),
              system_lines (start_system c.delaytime s.analyser).1
                  ++ process_lines n (file_of c app s),
            ))
  unfolding start_monitor start_process
  start_monitor-start_worker acts app s a n z on e =
      let n0 = (start_system c.delaytime s.analyser).1 in
      let q1 = ask-system acts app s in
      let p1 = parse_stream-reply api w law n0 none in
      let r1 = report_system-respond n0 in
      let q2 = ask-process acts app (system_started c s) a n z e in
      let p2 = parse_stream-reply api w law n (some (file_of c app s)) in
      let r2 = report_process-respond n (file_of c app s) in
      rw (on, start_monitor, q1, p1, r1, start_process, q2, p1, p2, r2) refl
