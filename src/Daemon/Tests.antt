-- ===== src/Daemon/Tests.antt =====
-- The theorems on the daemon at concrete inputs.
use efimon.Prelude.{
  ℕ, ◌≡◌, ◌↔◌, refl, ◌≢◌, Bool, true, false, Option, none, some, List, [], ◌∷◌, arith,
  if◌then◌else◌, Text, codes, text_eq,
}
use efimon.Status.{ok, resource_busy, cannot_open, running, stopped, fail}
use efimon.Outcome.{Outcome, returns, throws, escapes}
use efimon.Perf.Record.{
  RecordReadings, Recorder, World, fresh_recorder, enlist, construct, construct_alive, check_alive,
  is_active, destroy,
}
use efimon.Daemon.Thread.{
  Thread, looping, finished, begin, round, leave, clear, launch, step, run, state, on_begin,
  on_round, count_sample, decrement,
}
use efimon.Daemon.Stops.{rounds, rounds-stop, stop-lost}
use efimon.Daemon.Analyser.{
  notice, Worker, Setting, Analyser, new_analyser, new_worker, find_worker, start_worker, start_new,
  worker_start, make_perf, make_thread, stop_worker, worker_stop, join, dismantle, drop_recorder,
  erase_worker, is_finished,
}
use efimon.Daemon.History.{Step, stops, here, next, restart-throws}
use efimon.Daemon.Server.{Json, Config, Server, serve}
use efimon.Daemon.Replies.{missing, HasNoTransaction, serve-ends_iff}

rounds-stop_example :
    ((t : Thread) × (run (begin ∷ rounds 1) (launch 3) ≡ some t) × (state t ≡ running))
    × ((t : Thread) × (run (begin ∷ rounds 3) (launch 3) ≡ some t)
        × (state t ≡ stopped)
        × (step leave t ≡ some (record t { phase = finished })))
rounds-stop_example = rounds-stop 2 1 (omega arith) (omega arith)

abbrev looper : Thread
looper = record { phase = looping; flag = true; samples = 0; limited = false }

lost_run : run (clear ∷ begin ∷ round ∷ round ∷ []) (launch 0) ≡ some looper
unfolding run step launch on_begin on_round count_sample
lost_run = refl

stop-lost_example : (looper.phase ≢ finished) × (state looper ≡ running)
stop-lost_example = stop-lost (round ∷ round ∷ []) looper refl lost_run

abbrev memory : RecordReadings
memory = record { perf_data_path = []; type = 7; timestamp = 10; difference = 9 }

abbrev setting : Setting
setting = record { alive = λ p. true; memory = memory; perf_built = true }

abbrev empty_world : World
empty_world = record { tmp_dir = codes "/tmp"; active = []; folders = [] }

abbrev idle : Analyser
idle = new_analyser empty_world

abbrev after_zero : Analyser
after_zero = record idle { workers = (0, new_worker (codes "z.csv") 0) ∷ [] }

zero_run :
    start_worker setting (codes "z.csv") 0 3 10 false 100 idle
    ≡ returns (
      after_zero,
      notice cannot_open "Invalid instance of the worker. Are you using default constructor?",
    )
unfolding start_worker start_new worker_start new_analyser new_worker find_worker
zero_run = refl

abbrev monitor : ℕ → Worker
monitor pid = record (new_worker (codes "m.csv") pid) { thread = some looper }

abbrev one_monitor : Analyser
one_monitor = record idle { workers = (7, monitor 7) ∷ [] }

abbrev observer : Recorder × World
observer = enlist (check_alive (λ p. true) (fresh_recorder memory 5 3 100 true)).0 empty_world

abbrev started : Analyser
started = record idle {
  workers =
      (
        5,
        record (new_worker (codes "m.csv") 5) {
          delay = 3;
          metered = true;
          recorder = some (observer.0);
          thread = some (launch 1);
        },
      )
      ∷ [];
  world = observer.1;
}

abbrev ended : Analyser
ended = record idle { world = destroy (observer.0) (observer.1) }

start_run :
    start_worker setting (codes "m.csv") 5 3 1 true 100 idle ≡ returns (started, notice ok "")
unfolding start_worker start_new worker_start make_perf make_thread new_analyser new_worker
    find_worker construct construct_alive check_alive fresh_recorder is_active
start_run = refl

end_run : stop_worker (begin ∷ round ∷ leave ∷ []) 5 started ≡ some (ended, notice ok "")
unfolding stop_worker worker_stop find_worker erase_worker join run step new_worker launch
    is_finished on_begin on_round count_sample decrement dismantle drop_recorder new_analyser
end_run = refl

idle_absent : find_worker 5 (idle.workers) ≡ none
unfolding new_analyser find_worker
idle_absent = refl

started-Step : Step started ended
started-Step = stops (begin ∷ round ∷ leave ∷ []) 5 (notice ok "") end_run

ended_absent : find_worker 5 ended.workers ≡ none
unfolding new_analyser find_worker
ended_absent = refl

restart-throws_example :
    start_worker setting (codes "n.csv") 5 1 0 true 50 ended
    ≡ throws (fail resource_busy "The PID is already being tracked by perf record")
restart-throws_example =
    restart-throws setting setting (codes "m.csv") (codes "n.csv") 5 3 1 1 0 100 50 idle started
      ended (notice ok "") refl (omega arith) idle_absent start_run (next here started-Step)
      ended_absent refl refl

-- The JSON library over documents with a transaction and members that are numbers.
data Value : Type 0 where
  nothing : Value
  truth : Bool → Value
  number : ℕ → Value
  word : Text → Value
  document : Option Text → List (Text × ℕ) → Value

abbrev field : Text → List (Text × ℕ) → Option Value
field k [] = none
field k (e ∷ es) = if text_eq k (e.0) then some (number (e.1)) else field k es

abbrev value_member : Value → Text → Outcome (Option Value)
value_member nothing k = returns none
value_member (truth b) k = escapes
value_member (number n) k = escapes
value_member (word t) k = escapes
value_member (document t es) k = returns (
    if text_eq k (codes "transaction")
    then elim t [ none ↦ none | some x ↦ some (word x) ]
    else field k es)

abbrev value_bool : Value → Outcome Bool
value_bool (truth b) = returns b
value_bool _ = escapes

abbrev value_uint : Value → Outcome ℕ
value_uint (number n) = returns n
value_uint _ = escapes

abbrev value_text : Value → Outcome Text
value_text nothing = returns []
value_text (word t) = returns t
value_text _ = escapes

abbrev values : Json Value
values = record {
  null = nothing;
  member = value_member;
  as_bool = value_bool;
  as_uint = value_uint;
  as_text = value_text;
}

-- Two requests: `{}`, and a poll of the process 5.
abbrev read : Text → Option Value
read t =
    if text_eq t (codes "{}")
    then some (document none [])
    else if text_eq t (codes "poll 5")
    then some (document (some (codes "poll")) ((codes "pid", 5) ∷ []))
    else none

abbrev config : Config
config = record { setting = setting; delaytime = 3; outputpath = codes "/tmp" }

abbrev server : Server
server = record { analyser = one_monitor; logcounter = 0 }

serve-ends_iff_example :
    (serve values read config [] (codes "{}") server ≡ returns (some (none, missing)))
    ↔ ((missing ≡ missing) × HasNoTransaction values read config (codes "{}"))
serve-ends_iff_example = serve-ends_iff values read config [] (codes "{}") server missing refl
