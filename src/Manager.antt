-- ===== src/Manager.antt =====
-- `ProcessManager` (src/efimon/process-manager.cpp). The pipe to the process is the library
-- pstreams, an argument; what is printed is the list of the lines with the stream that each goes to.
pub mod Lines
pub mod Tests
use efimon.Prelude.{
  ℕ, zero, suc, Bool, true, false, Option, none, some, List, [], ◌∷◌, ◌++◌, if◌then◌else◌, Text,
}
use efimon.Status.{Status, status_ok, fail, cannot_open, file_error}

pub data Mode : Type 0 where
  silent only_stdout only_stderr both : Mode

-- `pstreambuf::pstdout`, `pstderr`, and both.
pub data PipeMode : Type 0 where
  pipe_stdout pipe_stderr pipe_both : PipeMode

-- What the manager calls of the pipe; `next_line` is `std::getline`, `none` where it fails.
pub record Pipe (P : Type 0) : Type 0 where
  pub closed : P
  pub launch : Text → List Text → PipeMode → P → P
  pub is_open : P → Bool
  pub next_line : P → Option Text × P
  pub shut : P → P

-- `stream` names a stream of the caller; `none` is the null pointer.
pub record ProcessManager (P : Type 0) : Type 0 where
  pub pipe : P
  pub mode : Mode
  pub stream : Option ℕ
  pub printed : List (Option ℕ × Text)

unfoldable pub pipe_mode : Mode → PipeMode
pipe_mode only_stdout = pipe_stdout
pipe_mode only_stderr = pipe_stderr
pipe_mode silent = pipe_both
pipe_mode both = pipe_both

unfoldable pub is_silent : Mode → Bool
is_silent silent = true
is_silent only_stdout = false
is_silent only_stderr = false
is_silent both = false

module _ {P : Type 0} (api : Pipe P) where
  open api use {closed, launch, is_open, next_line, shut}

  -- Both `Open`: the command alone has no arguments.
  unfoldable pub open_process :
      Text → List Text → Mode → Option ℕ → ProcessManager P → ProcessManager P × Status
  open_process cmd args mode stream m =
      let pipe = launch cmd args (pipe_mode mode) m.pipe in
      (
        record m { pipe = pipe; mode = mode; stream = stream },
        (if is_open pipe then status_ok else fail cannot_open "Cannot open the process"),
      )

  -- The constructors: `Open` is called without the stream, so its default, null, takes its place.
  unfoldable pub construct : Text → List Text → Mode → Option ℕ → ProcessManager P
  construct cmd args mode stream =
      (open_process cmd args mode none
        record { pipe = closed; mode = mode; stream = stream; printed = [] }).0

  -- A line to the stream, or to the standard error where there is none.
  unfoldable pub print_line : Text → ProcessManager P → ProcessManager P
  print_line line m =
      if is_silent m.mode then m else record m { printed = m.printed ++ ((m.stream, line) ∷ []) }

  unfoldable pub close_process : ProcessManager P → ProcessManager P × Status
  close_process m = (record m { pipe = shut m.pipe }, status_ok)

  -- The loop of `Sync`, with fuel; `none` means that it ran out.
  unfoldable pub drain : ℕ → ProcessManager P → Option (ProcessManager P)
  drain zero m = none
  drain (suc fuel) m =
      let (line, pipe) = next_line m.pipe in
      elim line [
        | none ↦ some (close_process (record m { pipe = pipe })).0
        | some l ↦ drain fuel (print_line l (record m { pipe = pipe }))
      ]

  unfoldable pub access_status : ProcessManager P → Status
  access_status m =
      if is_open m.pipe then status_ok else fail file_error "Cannot access the process"

  -- `Sync()`.
  unfoldable pub sync : ℕ → ProcessManager P → Option (ProcessManager P × Status)
  sync fuel m = elim (drain fuel m) [ none ↦ none | some m' ↦ some (m', access_status m) ]

  -- `Sync(true)`: where there is no line, the empty one is printed, and the process is closed.
  unfoldable pub sync_line : ProcessManager P → ProcessManager P × Status
  sync_line m =
      let (line, pipe) = next_line m.pipe in
      let m' : ProcessManager P = record m { pipe = pipe } in
      (
        elim line [ none ↦ (close_process (print_line [] m')).0 | some l ↦ print_line l m' ],
        access_status m,
      )

  unfoldable pub is_running : ProcessManager P → ProcessManager P × Bool
  is_running m = let m' = (sync_line m).0 in (m', is_open m'.pipe)
