-- ===== src/Launcher/Ends.antt =====
-- When the thread of a command ends.
use efimon.Prelude.{
  ◌<◌, ◌≡◌, refl, ◌∙◌, Bool, true, false, not, none, List, [], ◌∷◌, arith, length, take, any, Text,
}
use efimon.Outcome.{returns}
use efimon.Manager.{
  silent, Pipe, ProcessManager, is_silent, open_process, print_line, close_process, is_running,
}
use efimon.Manager.Lines.{
  IsPipe, sync_line-stops, sync_line-steps, read_line, read_line-keeps, printed-silent,
}
use efimon.Launcher.{Launch, follow, launch_command}

module _ {P : Type 0} (api : Pipe P) (left : P → List Text) (laws : IsPipe api left) where
  open api use {next_line, is_open, shut}
  open laws use {shut-is_open}

  -- The thread has ended: its process is closed, nothing was printed, and the flag says whether it
  -- ended by itself.
  pub record IsEnded (m : ProcessManager P) (by_itself : Bool) (l : Launch P) : Type 0 where
    pub thread_ended : l.finished ≡ true
    pub flag_set : l.terminated ≡ by_itself
    pub process_closed : is_open l.manager.pipe ≡ false
    pub nothing_printed : l.manager.printed ≡ m.printed

  running-last :
      (m : ProcessManager P)
      → left m.pipe ≡ []
      → m.mode ≡ silent
      → ((is_running api m).1 ≡ false) × ((is_running api m).0.printed ≡ m.printed)
  unfolding is_running print_line is_silent
  running-last m e s =
      let stop = sync_line-stops api left laws m e in
      let h = shut-is_open (next_line m.pipe).1 in
      (rw stop (unfold print_line in ground arith), rw stop (unfold print_line in ground arith))

  running-more :
      (m : ProcessManager P) (l : Text) (ls : List Text)
      → left m.pipe ≡ l ∷ ls
      → m.mode ≡ silent
      → is_open m.pipe ≡ true
      → let m' = (is_running api m).0 in
        ((is_running api m).1 ≡ true)
        × (left m'.pipe ≡ ls)
        × (is_open m'.pipe ≡ true)
        × (m'.mode ≡ silent)
        × (m'.printed ≡ m.printed)
  unfolding is_running is_silent
  running-more m l ls e s o =
      let step = sync_line-steps api left laws m l ls e in
      let k = read_line-keeps api left laws m l ls e in
      let p = printed-silent api left laws m l in
      let q : (read_line api left laws m l).printed ≡ m.printed = p (rw s refl) in
      (rw step (k.1 ∙ o), rw step (k.0), rw step (k.1 ∙ o), rw step (k.2 ∙ s), rw step q)

  -- Some value of a list is true.
  abbrev pub some_true : List Bool → Bool
  some_true closes = any (λ c. c) closes

  follow-IsEnded :
      (closes : List Bool) (m : ProcessManager P) (ls : List Text)
      → left m.pipe ≡ ls
      → m.mode ≡ silent
      → is_open m.pipe ≡ true
      → length ls < length closes
      → IsEnded m (not (some_true (take (length ls) closes))) (follow api closes m)
  unfolding follow close_process
  follow-IsEnded [] m ls e s o lt = absurd (omega arith)
  follow-IsEnded (c ∷ closes) m [] e s o lt =
      let (stopped, same) = running-last m e s in
      rw stopped record {
        thread_ended = refl;
        flag_set = refl;
        process_closed = shut-is_open (is_running api m).0.pipe;
        nothing_printed = same;
      }
  follow-IsEnded (true ∷ closes) m (l ∷ ls) e s o lt =
      let (runs, rest, open_still, mode, same) = running-more m l ls e s o in
      rw runs record {
        thread_ended = refl;
        flag_set = refl;
        process_closed = shut-is_open (is_running api m).0.pipe;
        nothing_printed = same;
      }
  follow-IsEnded (false ∷ closes) m (l ∷ ls) e s o lt =
      let (runs, rest, open_still, mode, same) = running-more m l ls e s o in
      let ih = follow-IsEnded closes (is_running api m).0 ls rest mode open_still (omega arith) in
      rw runs record {
        thread_ended = ih.thread_ended;
        flag_set = ih.flag_set;
        process_closed = ih.process_closed;
        nothing_printed = ih.nothing_printed ∙ same;
      }

  -- The thread of a command that can be started ends, if it gets a round for each line of the
  -- process and one more: the process is closed, nothing was printed, and the flag says that it ended
  -- by itself, exactly if no round before its last line was told to close.
  pub launch_command-IsEnded :
      (cmd : Text) (args : List Text) (closes : List Bool) (m : ProcessManager P)
      → let arguments : List Text = elim args [ [] ↦ [] | ◌∷◌ a rest ↦ cmd ∷ a ∷ rest ] in
        let m' = (open_process api cmd arguments silent none m).0 in
        is_open m'.pipe ≡ true
        → length (left m'.pipe) < length closes
        → (l : Launch P) × (launch_command api (cmd ∷ args) closes m ≡ returns l)
          × IsEnded m (not (some_true (take (length (left m'.pipe)) closes))) l
  unfolding launch_command open_process
  launch_command-IsEnded cmd args closes m o lt =
      let arguments : List Text = elim args [ [] ↦ [] | ◌∷◌ a rest ↦ cmd ∷ a ∷ rest ] in
      let m' = (open_process api cmd arguments silent none m).0 in
      let k = follow-IsEnded closes m' (left m'.pipe) refl refl o lt in
      (
        follow api closes m',
        rw o refl,
        record {
          thread_ended = k.thread_ended;
          flag_set = k.flag_set;
          process_closed = k.process_closed;
          nothing_printed = k.nothing_printed;
        },
      )
