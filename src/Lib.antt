-- ===== src/Lib.antt =====
-- EfiMon: an efficiency monitor for Linux. Observers sample the CPU, the memory and the power of
-- the machine or of one process, a classifier sorts the machine instructions that perf reports,
-- and a daemon runs the observers in threads and logs what they give.
--
-- Files and the code that they model (paths from the root of the repository):
-- - Prelude, Outcome, Words, Float: shared types and lemmas; how a call ends (returns, throws a
--   Status, escapes with an exception of the standard library, faults); 64-bit wrap-around; the
--   machine's floating point as a parameter, with whole numbers as an instance.
-- - Status, Observer: include/efimon/status.hpp, observer-enums.hpp.
-- - Asm: src/efimon/asm-classifier.cpp and asm-classifier/x86-classifier.cpp. Kinds has the
--   enumerations and FamilyString, TypeString, OriginString, OriginDecomposed; X86 has
--   OperandTypes and Classify.
-- - Args: src/efimon/arg-parser.cpp.
-- - Lister: ProcPsProcessLister::Detect of src/efimon/proc/list.cpp and include/efimon/proc-
--   lister.hpp.
-- - Perf.Record: PerfRecordObserver of src/efimon/perf/record.cpp, with the list of tracked pids
--   that all its observers share.
-- - Power.Rapl: RAPLMeterObserver of src/efimon/power/rapl.cpp.
-- - Proc.Machine, Proc.Stat: ProcStatObserver of src/efimon/proc/stat.cpp; Proc.Stat for a
--   process, Proc.Stat.Global for the system.
-- - Daemon: the tools' daemon. Thread is the thread of a worker (ProcStatsWorker of
--   src/tools/efimon-daemon/efimon-worker.cpp) and the flag that it shares, as a relation on
--   acts; Analyser has the worker's Start, Stop and State and the EfimonAnalyser of efimon-
--   analyser.cpp, over the observers of Perf.Record; Server is the loop over requests of
--   src/tools/efimon-daemon.cpp, over a JSON library as a parameter. Stops, Workers, Restart,
--   History and Replies prove what they do.
-- - Proc.Net, Proc.MemInfo, Proc.CpuInfo: ProcNetObserver of src/efimon/proc/net.cpp,
--   ProcMemInfoObserver of meminfo.cpp and CPUInfo of cpuinfo.cpp, over the texts of their files;
--   Proc.Machine.Numbers reads back the numbers that are written in texts.
-- - Manager: ProcessManager of src/efimon/process-manager.cpp; Lines has what it prints.
-- - Power.Ipmi: IPMIMeterObserver of src/efimon/power/ipmi.cpp; Fields is about the lines of the
--   commands, Outcomes about the statuses, Runs about the end of a trigger, and Totals about the
--   energies.
-- - Power.Intel: IntelMeterObserver of src/efimon/power/intel.cpp with the mutex of its file;
--   Locks is about the mutex, Totals about the sums.
-- - Daemon.Columns, Daemon.Rows: CreateLogTable and LogReadings of src/tools/efimon-
--   daemon/efimon-worker.cpp, which take the readings of the meters to the logger; Rows.Known
--   compares the names of a row with the columns, Rows.Buckets says which share a column gets.
-- - Daemon.System: the rounds of the system thread of efimon-analyser.cpp, and RefreshProcStat of
--   efimon-worker.cpp; System.Sockets counts the frequencies.
-- - Proc.Threads: ThreadTree of src/efimon/proc/thread-tree.cpp.
-- - Options: the command lines of src/tools/efimon-daemon.cpp and efimon-launcher.cpp; Written
--   reads one back, Targets says which the launcher cannot read.
-- - Launcher.Monitor: start_monitor, check_monitor, stop_monitor and the polls of efimon-
--   launcher.cpp. Launcher.Remote puts the daemon's loop at the other end of the socket, over a
--   JSON library (Launcher.Json has its promises, Remote.Values a library that keeps them);
--   Starts, Requests and Polls prove what the requests do there, Paced how the polls end while a
--   worker measures, Session (over Launcher.Kept and Daemon.Keyed) what a whole session leaves in
--   the daemon.
-- - PowerAnalyser: src/tools/efimon-power-analyser.cpp; Known and Measures are about what it
--   logs, Turns about how many rows it logs.
-- - Launcher: launch_command of src/tools/efimon-launcher.cpp; Ends says when its thread ends.
-- - Proc.Io: ProcIOObserver of src/efimon/proc/io.cpp.
-- - Perf.Annotate: PerfAnnotateObserver of src/efimon/perf/annotate.cpp; Shares adds up its
--   histogram.
-- - Logger: include/efimon/logger.hpp and CSVLogger of src/efimon/logger/csv.cpp; Rows has the
--   shape of the file.
-- - Logger.Sqlite: SQLiteLogger of src/efimon/logger/sqlite.cpp; Statements and Handles prove
--   what it sends to the library and what it leaves open.
-- - The modules named State, PowerAnalyser.Start, Daemon.Analyser.Starts,
--   Launcher.Remote.Values.Binary and Daemon.Rows.Filled hold the first part of what their
--   parents model.
-- - Proc.Stat.Sampled, Proc.Net.Rates, Proc.MemInfo.Labels and Proc.CpuInfo.Grouped say what the
--   observers measure in terms of the files alone, without the observers' own formulas.
--
-- State is a record and each method returns the new record with its result. What the machine
-- gives (whether a file opens, what stands in it, whether a process is alive, the uptime) is an
-- argument, so a theorem holds for every environment. Texts that the code searches are lists of
-- bytes. A float is a double that rounding leaves alone; no law of rounding is assumed except
-- where a theorem names IsExact.
--
-- Fuel: the loops recur on a list or on the number of rounds left, which the code's own bounds
-- give. The loop of ProcessManager over the lines of a process has fuel: more than there are
-- lines left is enough. to_string counts digits, with one more than the number, which is always
-- enough. The loop of the launcher recurs on the values that it reads of a flag.
--
-- Not modelled: threads' scheduling inside the library calls, the locks (a call runs alone) but
-- for the one that the PCM meters share, the fscanf conversions of /proc/pid/stat, the PCM,
-- SQLite, JSON and socket libraries, what the IPMI commands do, the command-line tools' output,
-- the examples and the vendored headers.
pub mod Prelude
pub mod Status
pub mod Observer
pub mod Outcome
pub mod Float
pub mod Words
pub mod Asm
pub mod Args
pub mod Lister
pub mod Perf
pub mod Power
pub mod Proc
pub mod Daemon
pub mod Logger
pub mod Manager
pub mod Launcher
pub mod Options
pub mod PowerAnalyser
