-- ===== src/Launcher/Remote/Requests.antt =====
-- The launcher's requests to start and to stop a monitor, against the daemon.
use efimon.Prelude.{
  ◌+◌, ◌%◌, ◌^◌, ◌<◌, ◌≡◌, refl, ◌∙◌, Bool, true, false, Option, none, some, List, [], ◌∷◌, ◌++◌,
  if◌then◌else◌, Text, codes, text_eq,
}
use efimon.Outcome.{Outcome, returns, ◌>>=◌}
use efimon.Daemon.Thread.{Act}
use efimon.Daemon.Analyser.{Analyser, Notice, stop_worker}
use efimon.Daemon.Server.{
  Json, Config, Server, object, respond, serve, serve_parsed, dispatch, dispatch_process,
  serve_process, serve_start, member_if, field_or, early_reply, complete, stopped_with,
  create_monitoring_file,
}
use efimon.Launcher.Json.{Writer, build, last_value, IsJson}
use efimon.Launcher.Monitor.{AppData, stop_payload, report_stop, has_succeeded, stop_monitor}
use efimon.Launcher.Remote.{parse_text, response_value, reply_text, daemon_ask}
use efimon.Launcher.Remote.Answers.{
  parse_text-write, daemon_ask-serve, parse_stream-reply, member-result,
}

-- The numbers of a request fit `unsigned int`.
pub record IsSized (app : AppData) : Type 0 where
  pub pid_fits : app.pid < 2 ^ 32
  pub frequency_fits : app.frequency < 2 ^ 32
  pub samples_fits : app.samples < 2 ^ 32
  pub delay_fits : app.delay < 2 ^ 32

abbrev pub name_or : Text → Option Text → Text
name_or file none = file
name_or file (some name) = name

-- The server with the next number of a log, and the name of that log.
abbrev pub next_log : Server → Server
next_log s = record s { logcounter = (s.logcounter + 1) % 2 ^ 32 }

abbrev pub log_name : Config → AppData → Server → Text
log_name c app s = (create_monitoring_file c.outputpath app.pid s.logcounter).0

-- The lines of `stop_monitor`, from the reply and the status that it tells of.
abbrev pub stop_lines : Text → Notice → List Text
stop_lines reply n =
    if text_eq n.what []
    then codes "Process Monitor stopped" ∷ []
    else (codes "Process Monitor could not be stopped. Payload: " ++ reply) ∷ []

module _ {J : Type 0} (api : Json J) (w : Writer J) (law : IsJson api w) (c : Config) where
  open w use {of_uint, of_int, of_text, of_bool, write}

  abbrev pub template_fields : AppData → List (Text × J) → List (Text × J)
  template_fields app es =
      (codes "transaction", of_text (codes "process"))
      ∷ (codes "state", of_bool true)
      ∷ (codes "pid", of_uint 0)
      ∷ (codes "perf", of_bool app.enable_perf)
      ∷ (codes "frequency", of_uint app.frequency)
      ∷ (codes "samples", of_uint app.samples)
      ∷ (codes "delay", of_uint app.delay)
      ∷ es

  abbrev stop_fields : AppData → List (Text × J)
  stop_fields app = template_fields app (
      (codes "transaction", of_text (codes "process"))
      ∷ (codes "pid", of_uint app.pid)
      ∷ (codes "state", of_bool false)
      ∷ [])

  stop_payload-build : (app : AppData) → stop_payload api w app ≡ build api w (stop_fields app)
  unfolding stop_payload
  stop_payload-build app = refl

  abbrev pub name_value : Option Text → Option J
  name_value none = none
  name_value (some name) = some (of_text name)

  -- The members of a request for a process, with the flag and the name of the log.
  pub record IsRequest (app : AppData) (on : Bool) (name : Option Text) (es : List (Text × J))
      : Type 0 where
    pub transaction : last_value (codes "transaction") es ≡ some (of_text (codes "process"))
    pub state : last_value (codes "state") es ≡ some (of_bool on)
    pub pid : last_value (codes "pid") es ≡ some (of_uint app.pid)
    pub perf : last_value (codes "perf") es ≡ some (of_bool app.enable_perf)
    pub frequency : last_value (codes "frequency") es ≡ some (of_uint app.frequency)
    pub samples : last_value (codes "samples") es ≡ some (of_uint app.samples)
    pub delay : last_value (codes "delay") es ≡ some (of_uint app.delay)
    pub file : last_value (codes "name") es ≡ name_value name

  -- What the daemon calls for such a request.
  abbrev pub handle :
      List Act
      → Server
      → AppData
      → Bool
      → Option Text
      → Outcome (Option (Server × Notice × Option Text))
  handle acts s app on name =
      let (file, n) = create_monitoring_file c.outputpath app.pid s.logcounter in
      let s' : Server = record s { logcounter = n } in
      if on
      then serve_start api (parse_text api w) c (name_or file name) app.pid app.delay app.samples
          app.enable_perf app.frequency s'
      else returns
          (stopped_with (stop_worker acts app.pid s.analyser) s' (some (name_or file name)))

  serve_process-members :
      (acts : List Act) (es : List (Text × J)) (s : Server) (app : AppData) (on : Bool)
      (name : Option Text)
      → IsSized app
      → IsRequest app on name es
      → serve_process api
          (parse_text api w)
          c
          acts
          (build api w es)
          (of_bool on)
          (of_uint app.pid)
          s
        ≡ handle acts s app on name
  unfolding serve_process field_or
  serve_process-members acts es s app on name z q =
      let b1 = law.as_bool-of_bool on in
      let b2 = law.as_uint-of_uint app.pid z.pid_fits in
      let b3 = law.member-build es (codes "delay") in
      let b4 = law.as_uint-of_uint app.delay z.delay_fits in
      let b5 = law.member-build es (codes "perf") in
      let b6 = law.as_bool-of_bool app.enable_perf in
      let b7 = law.member-build es (codes "frequency") in
      let b8 = law.as_uint-of_uint app.frequency z.frequency_fits in
      let b9 = law.member-build es (codes "samples") in
      let b10 = law.as_uint-of_uint app.samples z.samples_fits in
      let b11 = law.member-build es (codes "name") in
      elim name
          as (λ m.
            last_value (codes "name") es ≡ name_value m
            → serve_process api (parse_text api w) c acts (build api w es) (of_bool on)
                (of_uint app.pid) s
              ≡ handle acts s app on m) [
                | none ↦ λ f.
                    rw
                      (
                        b1, b2, b3, q.delay, b4, b5, q.perf, b6, b7, q.frequency, b8, b9, q.samples,
                        b10, b11, f,
                      )
                      refl
                | some t ↦ λ f.
                    let b12 = law.as_text-of_text t in
                    rw
                      (
                        b1, b2, b3, q.delay, b4, b5, q.perf, b6, b7, q.frequency, b8, b9, q.samples,
                        b10, b11, f, b12,
                      )
                      refl
              ]
        q.file

  -- The whole turn of the loop for such a request.
  pub serve-request :
      (acts : List Act) (es : List (Text × J)) (s : Server) (app : AppData) (on : Bool)
      (name : Option Text)
      → IsSized app
      → IsRequest app on name es
      → serve api (parse_text api w) c acts (write (build api w es)) s
        ≡ handle acts s app on name >>= λ o. returns (complete none o)
  unfolding serve serve_parsed dispatch dispatch_process member_if early_reply
  serve-request acts es s app on name z q =
      let p = parse_text-write api w law es in
      let m1 = law.member-build es (codes "transaction") in
      let m2 = law.as_text-of_text (codes "process") in
      let m3 = law.member-build es (codes "state") in
      let m4 = law.member-build es (codes "pid") in
      let h = serve_process-members acts es s app on name z q in
      rw (p, serve, m1, q.transaction, m2, dispatch, m3, q.state, m4, q.pid, h) refl

  stop_fields-IsRequest : (app : AppData) → IsRequest app false none (stop_fields app)
  stop_fields-IsRequest app = record {
    transaction = refl;
    state = refl;
    pid = refl;
    perf = refl;
    frequency = refl;
    samples = refl;
    delay = refl;
    file = refl;
  }

  -- The whole turn of the loop for the launcher's request to stop.
  pub serve-stop :
      (acts : List Act) (app : AppData) (s : Server)
      → IsSized app
      → serve api (parse_text api w) c acts (write (stop_payload api w app)) s
        ≡ returns (
            complete none (
              stopped_with
                (stop_worker acts app.pid s.analyser)
                (next_log s)
                (some (log_name c app s))))
  unfolding create_monitoring_file
  serve-stop acts app s z =
      rw (stop_payload-build app)
        (serve-request acts (stop_fields app) s app false none z (stop_fields-IsRequest app))

  ask-stop :
      (acts : List Act) (app : AppData) (s : Server) (a : Analyser) (n : Notice)
      → IsSized app
      → stop_worker acts app.pid s.analyser ≡ some (a, n)
      → daemon_ask api w c acts (write (stop_payload api w app)) (some s)
        ≡ some (
          some (record (next_log s) { analyser = a }),
          reply_text api w (object (respond n (some (log_name c app s)))),
        )
  ask-stop acts app s a n z e =
      daemon_ask-serve api w c acts (write (stop_payload api w app)) s
        (record (next_log s) { analyser = a }) (object (respond n (some (log_name c app s))))
        (serve-stop acts app s z ∙ (unfold stopped_with complete in rw e refl))

  pub has_succeeded-respond :
      (n : Notice) (name : Option Text)
      → has_succeeded api w (response_value api w (respond n name)) ≡ returns (text_eq n.what [])
  unfolding has_succeeded
  has_succeeded-respond n name =
      rw (member-result api w law n name, law.equals-of_text n.what []) refl

  -- A request to stop over the socket is the analyser's own `StopWorkerThread` for the launcher's
  -- process, with the next number of a log, and it prints that the monitor has stopped exactly where
  -- the analyser's status has no message.
  pub stop_monitor-stop_worker :
      (acts : List Act) (app : AppData) (s : Server) (a : Analyser) (n : Notice)
      → IsSized app
      → app.socket ≡ true
      → stop_worker acts app.pid s.analyser ≡ some (a, n)
      → stop_monitor api w (daemon_ask api w c acts) app (some s)
        ≡ returns (
            some (
              some (record (next_log s) { analyser = a }),
              stop_lines (reply_text api w (object (respond n (some (log_name c app s))))) n,
            ))
  unfolding stop_monitor report_stop
  stop_monitor-stop_worker acts app s a n z on e =
      let q = ask-stop acts app s a n z e in
      let p = parse_stream-reply api w law n (some (log_name c app s)) in
      let h = has_succeeded-respond n (some (log_name c app s)) in
      rw (on, stop_monitor, q, p, h) refl
