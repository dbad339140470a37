-- ===== src/Manager/Lines.antt =====
-- Which lines of a process are printed, and where.
use efimon.Prelude.{
  ℕ, zero, suc, ◌<◌, ◌≡◌, refl, sym, ap, subst, ◌∙◌, ◌↔◌, inl, inr, true, false, Option, none, some,
  List, [], ◌∷◌, ◌++◌, arith, if◌then◌else◌, Bool-cases, length, All, Text,
}
use mathlib.Core.List.{append_assoc, append-nil}
use efimon.Status.{Status, status_ok}
use efimon.Manager.{
  Mode, Pipe, ProcessManager, is_silent, open_process, construct, print_line, close_process, drain,
  access_status, sync, sync_line,
}

-- What the pipe promises: the lines that are left come one by one, in order, and reading them
-- leaves it open; a closed one has no lines.
pub record IsPipe {P : Type 0} (api : Pipe P) (left : P → List Text) : Type 0 where
  pub next-none : (p : P) → left p ≡ [] → (api.next_line p).0 ≡ none
  pub next-some :
      (p : P) (l : Text) (ls : List Text)
      → left p ≡ l ∷ ls
      → ((api.next_line p).0 ≡ some l)
        × (left (api.next_line p).1 ≡ ls)
        × (api.is_open (api.next_line p).1 ≡ api.is_open p)
  pub shut-is_open : (p : P) → api.is_open (api.shut p) ≡ false

module _ {P : Type 0} (api : Pipe P) (left : P → List Text) (laws : IsPipe api left) where
  open api use {next_line, is_open, shut}
  open laws use {next-none, next-some, shut-is_open}

  -- The lines as they are printed.
  abbrev pub tagged : Mode → Option ℕ → List Text → List (Option ℕ × Text)
  tagged mode stream [] = []
  tagged mode stream (l ∷ ls) = if is_silent mode then [] else (stream, l) ∷ tagged mode stream ls

  tagged-silent :
      (mode : Mode) (stream : Option ℕ) (ls : List Text)
      → is_silent mode ≡ true
      → tagged mode stream ls ≡ []
  tagged-silent mode stream [] h = refl
  tagged-silent mode stream (l ∷ ls) h = rw h refl

  -- The calls of `Sync(true)`.
  abbrev pub sync_lines : ℕ → ProcessManager P → ProcessManager P
  sync_lines zero m = m
  sync_lines (suc n) m = sync_lines n (sync_line api m).0

  -- What stays of a manager when a line is read and printed.
  pub read_line : ProcessManager P → Text → ProcessManager P
  read_line m l = print_line api l (record m { pipe = (next_line m.pipe).1 })

  pub printed-silent :
      (m : ProcessManager P) (l : Text)
      → is_silent m.mode ≡ true
      → (read_line m l).printed ≡ m.printed
  unfolding read_line print_line
  printed-silent m l h = ground arith

  printed-loud :
      (m : ProcessManager P) (l : Text)
      → is_silent m.mode ≡ false
      → (read_line m l).printed ≡ m.printed ++ ((m.stream, l) ∷ [])
  unfolding read_line print_line
  printed-loud m l h = ground arith

  printed-tagged :
      (m : ProcessManager P) (l : Text) (ls : List Text)
      → (read_line m l).printed ++ tagged m.mode m.stream ls
        ≡ m.printed ++ tagged m.mode m.stream (l ∷ ls)
  printed-tagged m l ls = elim (Bool-cases (is_silent m.mode)) [
    | inl h ↦
        ap (λ y. y ++ tagged m.mode m.stream ls) (printed-silent m l h)
        ∙ ap (λ y. m.printed ++ y)
            (tagged-silent m.mode m.stream ls h ∙ sym (tagged-silent m.mode m.stream (l ∷ ls) h))
    | inr h ↦
        ap (λ y. y ++ tagged m.mode m.stream ls) (printed-loud m l h)
        ∙ (append_assoc m.printed ((m.stream, l) ∷ []) (tagged m.mode m.stream ls)
            ∙ ap (λ y. m.printed ++ y) (rw h refl))
  ]

  pub read_line-keeps :
      (m : ProcessManager P) (l : Text) (ls : List Text)
      → left m.pipe ≡ l ∷ ls
      → let m' = read_line m l in
        (left m'.pipe ≡ ls)
        × (is_open m'.pipe ≡ is_open m.pipe)
        × (m'.mode ≡ m.mode)
        × (m'.stream ≡ m.stream)
  unfolding read_line print_line
  read_line-keeps m l ls e =
      let (n, r, o) = next-some m.pipe l ls e in
      (ground arith, ground arith, ground arith, ground arith)

  drain-stops :
      (fuel : ℕ) (m : ProcessManager P)
      → left m.pipe ≡ []
      → drain api (suc fuel) m ≡ some (record m { pipe = shut (next_line m.pipe).1 })
  unfolding drain close_process
  drain-stops fuel m e = let n = next-none m.pipe e in ground arith

  drain-steps :
      (fuel : ℕ) (m : ProcessManager P) (l : Text) (ls : List Text)
      → left m.pipe ≡ l ∷ ls
      → drain api (suc fuel) m ≡ drain api fuel (read_line m l)
  unfolding drain read_line
  drain-steps fuel m l ls e = let (n, r, o) = next-some m.pipe l ls e in rw (n, drain) refl

  pub sync_line-stops :
      (m : ProcessManager P)
      → left m.pipe ≡ []
      → (sync_line api m).0 ≡ print_line api [] (record m { pipe = shut (next_line m.pipe).1 })
  unfolding sync_line close_process print_line
  sync_line-stops m e = let n = next-none m.pipe e in ground arith

  pub sync_line-steps :
      (m : ProcessManager P) (l : Text) (ls : List Text)
      → left m.pipe ≡ l ∷ ls
      → (sync_line api m).0 ≡ read_line m l
  unfolding sync_line read_line
  sync_line-steps m l ls e = let (n, r, o) = next-some m.pipe l ls e in rw (n, sync_line) refl

  -- What a drained manager is: it has printed the lines, and its process is closed.
  pub record IsDrained (m m' : ProcessManager P) (ls : List Text) : Type 0 where
    pub lines_printed : m'.printed ≡ m.printed ++ tagged m.mode m.stream ls
    pub process_closed : is_open m'.pipe ≡ false
    pub mode_kept : m'.mode ≡ m.mode
    pub stream_kept : m'.stream ≡ m.stream

  drain_both :
      (fuel : ℕ) (ls : List Text) (m : ProcessManager P)
      → left m.pipe ≡ ls
      → length ls < fuel
      → (m' : ProcessManager P) × (drain api fuel m ≡ some m')
        × (sync_lines (suc (length ls)) m ≡ print_line api [] m')
        × IsDrained m m' ls
  drain_both zero ls m e lt = absurd (omega arith)
  drain_both (suc fuel) [] m e lt =
      let m' : ProcessManager P = record m { pipe = shut (next_line m.pipe).1 } in
      (
        m',
        drain-stops fuel m e,
        sync_line-stops m e,
        record {
          lines_printed = sym (append-nil m.printed);
          process_closed = shut-is_open (next_line m.pipe).1;
          mode_kept = refl;
          stream_kept = refl;
        },
      )
  drain_both (suc fuel) (l ∷ ls) m e lt =
      let (rest, o, same_mode, same_stream) = read_line-keeps m l ls e in
      let (m', d, s, h) = drain_both fuel ls (read_line m l) rest (omega arith) in
      (
        m',
        drain-steps fuel m l ls e ∙ d,
        ap (sync_lines (suc (length ls))) (sync_line-steps m l ls e) ∙ s,
        record {
          lines_printed =
              h.lines_printed
              ∙ (ap (λ y. (read_line m l).printed ++ tagged y (read_line m l).stream ls) same_mode
                  ∙ (ap (λ y. (read_line m l).printed ++ tagged m.mode y ls) same_stream
                      ∙ printed-tagged m l ls));
          process_closed = h.process_closed;
          mode_kept = h.mode_kept ∙ same_mode;
          stream_kept = h.stream_kept ∙ same_stream;
        },
      )

  -- With more fuel than there are lines left, `Sync` returns: it has printed exactly these lines, in
  -- order, or none if the mode is silent, and the process is closed; the status is OK exactly if the
  -- process was open.
  pub sync-IsDrained :
      (fuel : ℕ) (m : ProcessManager P)
      → length (left m.pipe) < fuel
      → (m' : ProcessManager P) × (st : Status) × (sync api fuel m ≡ some (m', st))
        × IsDrained m m' (left m.pipe)
        × ((st ≡ status_ok) ↔ (is_open m.pipe ≡ true))
  unfolding sync access_status
  sync-IsDrained fuel m lt =
      let (m', d, s, h) = drain_both fuel (left m.pipe) m refl lt in
      (m', access_status api m, rw (d, sync) refl, h, ground arith)

  -- Reading line by line until the process is closed prints what one `Sync` prints, and after it, if
  -- the mode is not silent, one empty line that the process did not write.
  pub sync_lines-sync :
      (fuel : ℕ) (m : ProcessManager P)
      → length (left m.pipe) < fuel
      → (m' : ProcessManager P) × (st : Status) × (sync api fuel m ≡ some (m', st))
        × (sync_lines (suc (length (left m.pipe))) m ≡ print_line api [] m')
  unfolding sync
  sync_lines-sync fuel m lt =
      let (m', d, s, h) = drain_both fuel (left m.pipe) m refl lt in
      (m', access_status api m, rw (d, sync) refl, s)

  tagged-none : (mode : Mode) (ls : List Text) → All (λ line. line.0 ≡ none) (tagged mode none ls)
  tagged-none mode [] = tt
  tagged-none mode (l ∷ ls) = elim (Bool-cases (is_silent mode)) [
    | inl h ↦ subst (All (λ line. line.0 ≡ none)) (sym (tagged-silent mode none (l ∷ ls) h)) tt
    | inr h ↦
        subst (λ b. All (λ line. line.0 ≡ none) (if b then [] else (none, l) ∷ tagged mode none ls))
          (sym h) (refl, tagged-none mode ls)
  ]

  construct-fields :
      (cmd : Text) (args : List Text) (mode : Mode) (stream : Option ℕ)
      → let m = construct api cmd args mode stream in
        (m.printed ≡ []) × (m.stream ≡ none) × (m.mode ≡ mode)
  unfolding construct open_process
  construct-fields cmd args mode stream = (refl, refl, refl)

  -- A manager made with a stream never prints to it: whatever its process writes goes to the
  -- standard error.
  pub construct-stream :
      (cmd : Text) (args : List Text) (mode : Mode) (stream : Option ℕ) (fuel : ℕ)
      → let m = construct api cmd args mode stream in
        length (left m.pipe) < fuel
        → (m' : ProcessManager P) × (st : Status) × (sync api fuel m ≡ some (m', st))
          × All (λ line. line.0 ≡ none) m'.printed
  construct-stream cmd args mode stream fuel lt =
      let m = construct api cmd args mode stream in
      let lines = left m.pipe in
      let (fresh, null, moded) = construct-fields cmd args mode stream in
      let (m', st, e, h, _) = sync-IsDrained fuel m lt in
      let only : m'.printed ≡ tagged m.mode none lines =
        h.lines_printed
        ∙ (ap (λ y. y ++ tagged m.mode m.stream lines) fresh
            ∙ ap (λ y. tagged m.mode y lines) null) in
      (m', st, e, subst (All (λ line. line.0 ≡ none)) (sym only) (tagged-none m.mode lines))
