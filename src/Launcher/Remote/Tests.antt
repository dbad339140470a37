-- ===== src/Launcher/Remote/Tests.antt =====
-- The theorems on the launcher and the daemon at concrete inputs.
use efimon.Prelude.{◌≡◌, refl, ◌∙◌, List, true, false, none, some, [], ◌∷◌, ◌++◌, arith, codes}
use efimon.Status.{code_number, ok}
use efimon.Outcome.{returns}
use efimon.Perf.Record.{RecordReadings}
use efimon.Daemon.Thread.{
  Act, begin, round, leave, run, step, on_begin, on_round, on_leave, count_sample, decrement,
  looping, launch,
}
use efimon.Daemon.Analyser.{
  Worker, notice, Analyser, new_analyser, new_worker, find_worker, start_worker, start_new,
  worker_start, make_perf, make_thread, check_worker, stop_worker, worker_stop, join, dismantle,
  drop_recorder, erase_worker, is_finished, start_system,
}
use efimon.Daemon.Server.{Config, Server, object, respond, serve, complete, stopped_with}
use efimon.Daemon.Workers.{IsKeyed}
use efimon.Launcher.Monitor.{
  AppData, check_monitor, stop_monitor, start_monitor, watch, watching, completed, flagged,
  supervise, stop_payload,
}
use efimon.Launcher.Remote.{daemon_ask, reply_text, parse_text}
use efimon.Launcher.Remote.Polls.{check_monitor-check_worker, watch-endless}
use efimon.Launcher.Remote.Requests.{
  IsSized, next_log, log_name, stop_monitor-stop_worker, stop_lines, serve-stop,
}
use efimon.Launcher.Remote.Session.{IsReleased, supervise-stops}
use efimon.Launcher.Remote.Starts.{
  start_monitor-start_worker, system_lines, process_lines, file_of, system_started,
}
use efimon.Launcher.Remote.Paced.Completes.{sampling, Comes, watch-completes}
use efimon.Launcher.Remote.Values.{library, writer, library-IsJson}

abbrev memory : RecordReadings
memory = record { perf_data_path = []; type = 7; timestamp = 10; difference = 9 }

abbrev config : Config
config = record {
  setting = record { alive = λ p. true; memory = memory; perf_built = true };
  delaytime = 3;
  outputpath = codes "/tmp";
}

abbrev idle : Analyser
idle = new_analyser record { tmp_dir = codes "/tmp"; active = []; folders = [] }

abbrev server : Server
server = record { analyser = idle; logcounter = 0 }

abbrev app : AppData
app = record {
  command = [];
  port = 5550;
  pid = 5;
  frequency = 100;
  samples = 4;
  delay = 2;
  enable_perf = false;
  filename = codes "a.csv";
  socket = true;
}

app-IsSized : IsSized app
app-IsSized = omega arith

absent : find_worker app.pid server.analyser.workers ≡ none
unfolding new_analyser find_worker
absent = refl

check_monitor-check_worker_example :
    check_monitor library writer (daemon_ask library writer config []) app (some server)
    ≡ returns
        (some (some server, record { code = code_number (check_worker 5 idle).code; msg = "" }))
check_monitor-check_worker_example =
    check_monitor-check_worker library writer library-IsJson config [] app server (omega arith)

-- The monitor of the process 5, after the system's.
abbrev both : Analyser
both = record (system_started config server).analyser {
  workers =
      (
        5,
        record (new_worker (codes "a.csv") 5) {
          delay = 2;
          metered = true;
          thread = some (launch 4);
        },
      )
      ∷ [];
}

start_run :
    start_worker config.setting
      (file_of config app server)
      5
      2
      4
      false
      100
      (system_started config server).analyser
    ≡ returns (both, notice ok "")
unfolding start_worker start_new worker_start make_perf make_thread find_worker new_worker
    start_system new_analyser
start_run = refl

start_monitor-start_worker_example :
    start_monitor library writer (daemon_ask library writer config []) app (some server)
    ≡ returns (
        some (
          some (record (next_log server) { analyser = both }),
          system_lines (start_system 3 idle).1
              ++ process_lines (notice ok "") (file_of config app server),
        ))
start_monitor-start_worker_example =
    start_monitor-start_worker library writer library-IsJson config [] app server both
      (notice ok "") app-IsSized refl start_run

abbrev watched : Server
watched = record server {
  analyser = record idle {
    workers =
        (
          5,
          record (new_worker (codes "a.csv") 5) {
            thread = some record { phase = looping; flag = true; samples = 2; limited = true };
          },
        )
        ∷ [];
  };
}

stop_run : stop_worker (leave ∷ []) 5 watched.analyser ≡ some (idle, notice ok "")
unfolding stop_worker worker_stop find_worker erase_worker dismantle drop_recorder join new_worker
    new_analyser is_finished run step
stop_run = refl

stop_monitor-stop_worker_example :
    stop_monitor library writer (daemon_ask library writer config (leave ∷ [])) app (some watched)
    ≡ returns (
        some (
          some (record (next_log watched) { analyser = idle }),
          stop_lines
              (reply_text library writer
                (object (respond (notice ok "") (some (log_name config app watched)))))
              (notice ok ""),
        ))
stop_monitor-stop_worker_example =
    stop_monitor-stop_worker library writer library-IsJson config (leave ∷ []) app watched idle
      (notice ok "") app-IsSized refl stop_run

abbrev watched_worker : Worker
watched_worker = record (new_worker (codes "a.csv") 5) {
  thread = some record { phase = looping; flag = true; samples = 2; limited = true };
}

watched_found : find_worker 5 watched.analyser.workers ≡ some watched_worker
unfolding find_worker new_worker new_analyser
watched_found = refl

watched_thread : watched_worker.thread ≡ some (sampling 2)
unfolding new_worker
watched_thread = refl

watch-completes_example :
    Comes library writer library-IsJson config (leave ∷ []) app 1 watched watching
    × Comes library writer library-IsJson config (leave ∷ []) app 2 watched completed
watch-completes_example =
    watch-completes library writer library-IsJson config (leave ∷ []) app 1 watched watched_worker
      (omega arith) (omega arith) watched_found watched_thread

-- Two monitors, and the one that is left after a request to stop the other.
abbrev pair : Server
pair = record server {
  analyser = record idle { workers = (5, watched_worker) ∷ (7, new_worker (codes "b.csv") 7) ∷ [] };
}

abbrev single : Analyser
single = record idle { workers = (7, new_worker (codes "b.csv") 7) ∷ [] }

pair-IsKeyed : IsKeyed pair.analyser.workers
unfolding find_worker
pair-IsKeyed = (refl, (refl, tt))

pair_run : stop_worker (leave ∷ []) 5 pair.analyser ≡ some (single, notice ok "")
unfolding stop_worker worker_stop find_worker erase_worker dismantle drop_recorder join new_worker
    new_analyser is_finished run step
pair_run = refl

pair_served :
    serve library
      (parse_text library writer)
      config
      (leave ∷ [])
      (writer.write (stop_payload library writer app))
      pair
    ≡ returns (
        some (
          some (record (next_log pair) { analyser = single }),
          object (respond (notice ok "") (some (log_name config app pair))),
        ))
pair_served =
    serve-stop library writer library-IsJson config (leave ∷ []) app pair app-IsSized
    ∙ (unfold stopped_with complete in rw pair_run refl)

-- The launcher of the process 5 polls on after that request, which came from another one.
abbrev without : Server
without = record (next_log pair) { analyser = single }

without_absent : find_worker app.pid without.analyser.workers ≡ none
unfolding find_worker
without_absent = refl

watch-endless_example :
    watch library writer
      (daemon_ask library writer config [])
      ((false, false) ∷ (false, false) ∷ [])
      app
      (some without)
    ≡ returns (some (some without, watching))
watch-endless_example =
    watch-endless library writer library-IsJson config [] app without 2 (omega arith) without_absent

-- A whole session that a signal ends: the thread takes its four samples and leaves.
abbrev session : List Act
session = begin ∷ round ∷ round ∷ round ∷ round ∷ leave ∷ []

abbrev monitored : Server
monitored = record (next_log server) { analyser = both }

abbrev released : Analyser
released = record both { workers = [] }

released_run : stop_worker session 5 both ≡ some (released, notice ok "")
unfolding stop_worker worker_stop find_worker erase_worker dismantle drop_recorder join new_worker
    is_finished run step on_begin on_round on_leave count_sample decrement launch start_system
    new_analyser
released_run = refl

session_run :
    supervise library writer
      (daemon_ask library writer config session)
      ((true, false) ∷ [])
      app
      (some server)
    ≡ returns (some (some (record (next_log monitored) { analyser = released }), flagged true))
unfolding supervise watch
session_run =
    let h =
      start_monitor-start_worker library writer library-IsJson config session app server both
        (notice ok "") app-IsSized refl start_run in
    let k =
      stop_monitor-stop_worker library writer library-IsJson config session app monitored released
        (notice ok "") app-IsSized refl released_run in
    rw (h, k) refl

supervise-stops_example : IsReleased 5 (record (next_log monitored) { analyser = released })
unfolding new_analyser
supervise-stops_example =
    supervise-stops library writer library-IsJson config session ((true, false) ∷ []) app
      (some server) (record (next_log monitored) { analyser = released }) (flagged true) app-IsSized
      refl (λ e. absurd (ground arith)) tt session_run
