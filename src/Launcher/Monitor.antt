-- ===== src/Launcher/Monitor.antt =====
-- The requests of the launcher to the daemon, `start_monitor`, `check_monitor` and `stop_monitor`,
-- and the loop of `main` that polls (src/tools/efimon-launcher.cpp). The daemon at the other end of
-- the socket is a state and a function that takes a message and gives the reply; `none` says that
-- the reply never comes.
use efimon.Prelude.{
  ℕ, String, Bool, true, false, not, ◌||◌, Option, none, some, List, [], ◌∷◌, ◌++◌, ◌==◌,
  if◌then◌else◌, Text, codes,
}
use efimon.Outcome.{Outcome, returns, ◌>>=◌}
use efimon.Status.{code_number, invalid_parameter, stopped}
use efimon.Daemon.Server.{Json}
use efimon.Launcher.Json.{Parsed, parsed, wrong, Writer}

-- The part of `AppData` that the requests are made of.
pub record AppData : Type 0 where
  pub command : List Text
  pub port : ℕ
  pub pid : ℕ
  pub frequency : ℕ
  pub samples : ℕ
  pub delay : ℕ
  pub enable_perf : Bool
  pub filename : Text
  pub socket : Bool

-- The code and the message of the `Status` of a poll; the code is an `int`, as its pattern of 32
-- bits.
pub record Polled : Type 0 where
  pub code : ℕ
  pub msg : String

-- How the loop of `main` ended: by a flag, with the value of `terminated`, or by the answer of the
-- daemon; or it goes on.
pub data Watch : Type 0 where
  flagged : Bool → Watch
  completed : Watch
  watching : Watch

module _ {J : Type 0} (api : Json J) (w : Writer J) where
  open api use {null, member, as_text}
  open w use {put, of_bool, of_uint, of_text, equals, as_int}

  unfoldable pub create_template : AppData → J
  create_template app =
      let root = put null (codes "transaction") (of_text (codes "process")) in
      let root = put root (codes "state") (of_bool true) in
      let root = put root (codes "pid") (of_uint 0) in
      let root = put root (codes "perf") (of_bool app.enable_perf) in
      let root = put root (codes "frequency") (of_uint app.frequency) in
      let root = put root (codes "samples") (of_uint app.samples) in
      put root (codes "delay") (of_uint app.delay)

  -- `isMember("result") ? res_json["result"] == "" : false`.
  unfoldable pub has_succeeded : J → Outcome Bool
  has_succeeded j =
      member j (codes "result") >>= λ m. returns (elim m [ none ↦ false | some v ↦ equals v [] ])

  unfoldable pub report_system : Parsed J → Outcome (List Text)
  unfolding has_succeeded
  report_system (wrong errors) = returns ((codes "Cannot parse the response: " ++ errors) ∷ [])
  report_system (parsed j) = has_succeeded j >>= λ done. returns (
      if done
      then codes "System Monitor started" ∷ []
      else codes "System Monitor could not be started. Probably, it's been started before" ∷ [])

  -- The name is looked for only where there is a result.
  unfoldable pub named_success : J → Option J → Outcome (Option J)
  named_success j none = returns none
  named_success j (some v) =
      member j (codes "name") >>= λ n. returns (if equals v [] then n else none)

  unfoldable pub report_process : Parsed J → Outcome (List Text)
  unfolding named_success
  report_process (wrong errors) = returns ((codes "Cannot parse the response" ++ errors) ∷ [])
  report_process (parsed j) = member j (codes "result") >>= λ m. named_success j m >>= λ n. elim n [
    | none ↦ returns (codes "Process Monitor could not be started" ∷ [])
    | some name ↦ as_text name >>= λ file.
        returns (codes "Process Monitor started" ∷ (codes "Log file in: " ++ file) ∷ [])
  ]

  unfoldable pub system_payload : AppData → J
  unfolding create_template
  system_payload app =
      put (put (create_template app) (codes "transaction") (of_text (codes "system")))
        (codes "state") (of_bool true)

  -- `if (!data.filename.empty()) payload["name"] = data.filename`.
  unfoldable pub put_name : Text → J → J
  put_name [] payload = payload
  put_name (c ∷ cs) payload = put payload (codes "name") (of_text (c ∷ cs))

  unfoldable pub process_payload : AppData → J → J
  unfolding put_name
  process_payload app payload =
      let payload = put payload (codes "transaction") (of_text (codes "process")) in
      put_name app.filename (put payload (codes "pid") (of_uint app.pid))

  unfoldable pub poll_payload : AppData → J
  poll_payload app =
      put (put null (codes "transaction") (of_text (codes "poll"))) (codes "pid") (of_uint app.pid)

  abbrev invalid_response : Polled
  invalid_response = record {
    code = code_number invalid_parameter;
    msg = "The response is invalid";
  }

  unfoldable pub read_code : Parsed J → Outcome Polled
  read_code (wrong errors) = returns invalid_response
  read_code (parsed j) = member j (codes "code") >>= λ m. elim m [
    | none ↦ returns invalid_response
    | some v ↦ as_int v >>= λ value. returns (record { code = value; msg = "" })
  ]

  unfoldable pub stop_payload : AppData → J
  unfolding create_template
  stop_payload app =
      let payload = put (create_template app) (codes "transaction") (of_text (codes "process")) in
      put (put payload (codes "pid") (of_uint app.pid)) (codes "state") (of_bool false)

  -- The text of the reply is printed where the monitor could not be stopped.
  unfoldable pub report_stop : Text → Parsed J → Outcome (List Text)
  unfolding has_succeeded
  report_stop reply (wrong errors) = returns ((codes "Cannot parse the response" ++ errors) ∷ [])
  report_stop reply (parsed j) = has_succeeded j >>= λ done. returns (
      if done
      then codes "Process Monitor stopped" ∷ []
      else (codes "Process Monitor could not be stopped. Payload: " ++ reply) ∷ [])

module _ {J D : Type 0} (api : Json J) (w : Writer J) (ask : Text → D → Option (D × Text)) where
  open w use {write, parse_stream}

  -- The second message; the stream still holds what the first parse left.
  unfoldable pub start_process : J → Text → List Text → D → Outcome (Option (D × List Text))
  unfolding report_process
  start_process payload rest lines d = elim (ask (write payload) d) [
    | none ↦ returns none
    | some (d', reply) ↦ report_process api w (parse_stream (rest ++ reply)).0 >>= λ more.
        returns (some (d', lines ++ more))
  ]

  -- The lines that it prints.
  unfoldable pub start_monitor : AppData → D → Outcome (Option (D × List Text))
  unfolding system_payload process_payload report_system start_process
  start_monitor app d =
      if not app.socket
      then returns (some (d, []))
      else elim (ask (write (system_payload api w app)) d) [
        | none ↦ returns none
        | some (d', reply) ↦ report_system api w (parse_stream reply).0 >>= λ lines.
            start_process (process_payload api w app (system_payload api w app))
              (parse_stream reply).1 lines d'
      ]

  unfoldable pub check_monitor : AppData → D → Outcome (Option (D × Polled))
  unfolding poll_payload read_code
  check_monitor app d = elim (ask (write (poll_payload api w app)) d) [
    | none ↦ returns none
    | some (d', reply) ↦ read_code api w (parse_stream reply).0 >>= λ st. returns (some (d', st))
  ]

  unfoldable pub stop_monitor : AppData → D → Outcome (Option (D × List Text))
  unfolding stop_payload report_stop
  stop_monitor app d =
      if not app.socket
      then returns (some (d, []))
      else elim (ask (write (stop_payload api w app)) d) [
        | none ↦ returns none
        | some (d', reply) ↦
            report_stop api w reply (parse_stream reply).0 >>= λ lines. returns (some (d', lines))
      ]

  -- The loop of `main`: the values are what each round reads of `terminated` and `close`.
  unfoldable pub watch : List (Bool × Bool) → AppData → D → Outcome (Option (D × Watch))
  unfolding check_monitor
  watch [] app d = returns (some (d, watching))
  watch (flags ∷ rounds) app d =
      let polled : Outcome (Option (D × Watch)) = check_monitor app d >>= λ r. elim r [
        | none ↦ returns none
        | some (d', st) ↦ elim (st.code == code_number stopped) [
          | true ↦ returns (some (d', completed))
          | false ↦ watch rounds app d'
        ]
      ] in
      if flags.0 || flags.1 then returns (some (d, flagged (flags.0))) else polled

  -- What `main` asks of the daemon once it is connected.
  unfoldable pub supervise : List (Bool × Bool) → AppData → D → Outcome (Option (D × Watch))
  unfolding start_monitor watch stop_monitor
  supervise rounds app d = start_monitor app d >>= λ started. elim started [
    | none ↦ returns none
    | some (d1, lines) ↦ watch rounds app d1 >>= λ o. elim o [
      | none ↦ returns none
      | some (d2, watching) ↦ returns (some (d2, watching))
      | some (d2, completed) ↦ stop_monitor app d2 >>= λ s. elim s [
        | none ↦ returns none
        | some (d3, more) ↦ returns (some (d3, completed))
      ]
      | some (d2, flagged t) ↦ stop_monitor app d2 >>= λ s. elim s [
        | none ↦ returns none
        | some (d3, more) ↦ returns (some (d3, flagged t))
      ]
    ]
  ]
