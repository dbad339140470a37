-- ===== src/Daemon/Server.antt =====
-- The loop of the daemon that serves requests (src/tools/efimon-daemon.cpp). The JSON library and
-- the parser are arguments. A reply socket takes one message for each request: a second `send`
-- throws, which ends the daemon.
use efimon.Prelude.{
  ℕ, ◌+◌, ◌%◌, ◌^◌, String, Bool, false, Option, none, some, List, ◌++◌, if◌then◌else◌, Text, codes,
  text_eq, to_string,
}
use efimon.Status.{code_number, invalid_parameter}
use efimon.Outcome.{Outcome, returns, ◌>>=◌}
use efimon.Daemon.Thread.{Act}
use efimon.Daemon.Analyser.{
  Notice, notice, Setting, Analyser, start_system, stop_system, start_worker, stop_worker,
  check_worker,
}

-- What the daemon calls of the JSON library: `isMember` with `operator[]`, the null value that
-- `operator[]` gives for a missing key, and the conversions, which throw on another type.
pub record Json (J : Type 0) : Type 0 where
  pub null : J
  pub member : J → Text → Outcome (Option J)
  pub as_bool : J → Outcome Bool
  pub as_uint : J → Outcome ℕ
  pub as_text : J → Outcome Text

-- `delaytime` and `outputpath` of the command line.
pub record Config : Type 0 where
  pub setting : Setting
  pub delaytime : ℕ
  pub outputpath : Text

pub record Server : Type 0 where
  pub analyser : Analyser
  pub logcounter : ℕ

pub record Response : Type 0 where
  pub result : Text
  pub code : ℕ
  pub name : Option Text

-- A fixed text, or the object `response` as text.
pub data Reply : Type 0 where
  plain : String → Reply
  object : Response → Reply

-- `kDefFrequency`.
abbrev pub def_frequency : ℕ
def_frequency = 100

unfoldable pub create_monitoring_file : Text → ℕ → ℕ → Text × ℕ
create_monitoring_file path pid logcounter =
    let n = (logcounter + 1) % 2 ^ 32 in
    (path ++ codes "/efimon-" ++ to_string pid ++ codes "-" ++ to_string n ++ codes ".csv", n)

-- What a request leads to: nothing while a join waits, or the new state, the status, and the name.
abbrev pub Served : Type 0
Served = Option (Server × Notice × Option Text)

unfoldable pub stopped_with : Option (Analyser × Notice) → Server → Option Text → Served
stopped_with none s name = none
stopped_with (some (a, n)) s name = some (record s { analyser = a }, n, name)

unfoldable pub respond : Notice → Option Text → Response
respond n name = record { result = n.what; code = code_number n.code; name = name }

-- The reply that is sent where there is no transaction; the handling of the message goes on.
unfoldable pub early_reply : {J : Type 0} → Option J → Option Reply
early_reply none = some (plain "{\"result\": \"Cannot find transaction\"}")
early_reply (some t) = none

-- The server after a turn, or `none` where the turn has ended the daemon, and the reply that is sent.
abbrev pub Turn : Type 0
Turn = Option Server × Reply

-- The last `send` of a turn throws if a reply is out already.
unfoldable pub complete : Option Reply → Served → Option Turn
complete early none = none
complete none (some (s, n, name)) = some (some s, object (respond n name))
complete (some reply) (some (s, n, name)) = some (none, reply)

module _ {J : Type 0} (api : Json J) (parse : Text → Option J) (c : Config) where
  open api use {null, member, as_bool, as_uint, as_text}

  -- `root.isMember(key) ? root[key].as…() : default`.
  unfoldable pub field_or : {A : Type 0} → (J → Outcome A) → A → String → J → Outcome A
  field_or as_a default key root =
      member root (codes key) >>= λ m. elim m [ none ↦ returns default | some v ↦ as_a v ]

  -- `test && root.isMember(key)`, with the member.
  unfoldable pub member_if : Bool → String → J → Outcome (Option J)
  member_if test key root = if test then member root (codes key) else returns none

  unfoldable pub serve_system : List Act → J → Server → Outcome Served
  serve_system acts jstate s = as_bool jstate >>= λ state.
      let (a, n) = start_system c.delaytime s.analyser in
      returns (
        if state
        then some (record s { analyser = a }, n, none)
        else stopped_with (stop_system acts s.analyser) s none)

  unfoldable pub serve_start : Text → ℕ → ℕ → ℕ → Bool → ℕ → Server → Outcome Served
  serve_start name pid delay samples perf freq s =
      start_worker c.setting name pid delay samples perf freq s.analyser >>= λ r.
      returns (some (record s { analyser = r.0 }, r.1, some name))

  unfoldable pub serve_process : List Act → J → J → J → Server → Outcome Served
  serve_process acts root jstate jpid s = as_bool jstate >>= λ state. as_uint jpid >>= λ pid.
      field_or as_uint c.delaytime "delay" root >>= λ delay.
      field_or as_bool false "perf" root >>= λ perf.
      field_or as_uint def_frequency "frequency" root >>= λ freq.
      field_or as_uint 0 "samples" root >>= λ samples.
      let (file, n) = create_monitoring_file c.outputpath pid s.logcounter in
      let s' : Server = record s { logcounter = n } in
      field_or as_text file "name" root >>= λ name.
      if state
      then serve_start name pid delay samples perf freq s'
      else returns (stopped_with (stop_worker acts pid s.analyser) s' (some name))

  unfoldable pub serve_poll : J → Server → Outcome Served
  serve_poll jpid s = as_uint jpid >>= λ pid. returns (some (s, check_worker pid s.analyser, none))

  unfoldable pub serve_else : Server → Outcome Served
  serve_else s = returns (some (s, notice invalid_parameter "Invalid set of params", none))

  -- The chain of tests on the transaction, from the last to the first.
  unfoldable pub dispatch_poll : Text → J → Server → Outcome Served
  dispatch_poll transaction root s =
      member_if (text_eq (codes "poll") transaction) "pid" root >>= λ p. elim p [
        | none ↦ serve_else s
        | some jpid ↦ serve_poll jpid s
      ]

  unfoldable pub dispatch_process : List Act → Text → J → Server → Outcome Served
  dispatch_process acts transaction root s =
      member_if (text_eq (codes "process") transaction) "state" root >>= λ st. elim st [
        | none ↦ dispatch_poll transaction root s
        | some jstate ↦ member root (codes "pid") >>= λ p. elim p [
          | none ↦ dispatch_poll transaction root s
          | some jpid ↦ serve_process acts root jstate jpid s
        ]
      ]

  unfoldable pub dispatch : List Act → Text → J → Server → Outcome Served
  dispatch acts transaction root s =
      member_if (text_eq (codes "system") transaction) "state" root >>= λ st. elim st [
        | none ↦ dispatch_process acts transaction root s
        | some jstate ↦ serve_system acts jstate s
      ]

  unfoldable pub serve_parsed : List Act → J → Server → Outcome (Option Turn)
  serve_parsed acts root s = member root (codes "transaction") >>= λ t.
      as_text (elim t [ none ↦ null | some j ↦ j ]) >>= λ transaction.
      dispatch acts transaction root s >>= λ o. returns (complete (early_reply t) o)

  -- One turn of the loop.
  unfoldable pub serve : List Act → Text → Server → Outcome (Option Turn)
  serve acts text s = elim (parse text) [
    | none ↦ returns (some (some s, plain "{\"result\": \"Cannot parse\"}"))
    | some root ↦ serve_parsed acts root s
  ]
