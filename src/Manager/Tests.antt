-- ===== src/Manager/Tests.antt =====
-- The theorems on the process manager at concrete inputs: the pipe is the list of its lines.
use efimon.Prelude.{
  ◌≡◌, refl, ◌↔◌, Bool, true, false, Option, none, some, List, [], ◌∷◌, arith, Text, codes,
}
use efimon.Status.{Status, status_ok}
use efimon.Manager.{both, Pipe, ProcessManager, sync, print_line}
use efimon.Manager.Lines.{IsPipe, sync_lines, IsDrained, sync-IsDrained, sync_lines-sync}

abbrev pub Lines : Type 0
Lines = Bool × List Text

abbrev pub take_line : Lines → Option Text × Lines
take_line (o, []) = (none, (o, []))
take_line (o, (l ∷ ls)) = (some l, (o, ls))

abbrev pub greeting : List Text
greeting = codes "hello" ∷ codes "bye" ∷ []

-- Every command prints the same two lines.
abbrev pub lines_pipe : Pipe Lines
lines_pipe = record {
  closed = (false, []);
  launch = λ cmd args mode p. (true, greeting);
  is_open = λ p. p.0;
  next_line = take_line;
  shut = λ p. (false, []);
}

take_line-none : (p : Lines) → p.1 ≡ [] → (take_line p).0 ≡ none
take_line-none (o, []) e = refl
take_line-none (o, (l ∷ ls)) e = cc

take_line-some :
    (p : Lines) (l : Text) (ls : List Text)
    → p.1 ≡ l ∷ ls
    → ((take_line p).0 ≡ some l) × ((take_line p).1.1 ≡ ls) × ((take_line p).1.0 ≡ p.0)
take_line-some (o, []) l ls e = cc
take_line-some (o, (k ∷ ks)) l ls e = (cc, cc, refl)

pub lines_pipe-IsPipe : IsPipe lines_pipe (λ p. p.1)
lines_pipe-IsPipe = record {
  next-none = take_line-none;
  next-some = take_line-some;
  shut-is_open = λ p. refl;
}

abbrev pub launched : ProcessManager Lines
launched = record { pipe = (true, greeting); mode = both; stream = some 4; printed = [] }

sync-IsDrained_example :
    (m' : ProcessManager Lines) × (st : Status) × (sync lines_pipe 3 launched ≡ some (m', st))
    × IsDrained lines_pipe (λ p. p.1) lines_pipe-IsPipe launched m' greeting
    × ((st ≡ status_ok) ↔ (true ≡ true))
sync-IsDrained_example =
    sync-IsDrained lines_pipe (λ p. p.1) lines_pipe-IsPipe 3 launched (omega arith)

sync_lines-sync_example :
    (m' : ProcessManager Lines) × (st : Status) × (sync lines_pipe 3 launched ≡ some (m', st))
    × (sync_lines lines_pipe (λ p. p.1) lines_pipe-IsPipe 3 launched ≡ print_line lines_pipe [] m')
sync_lines-sync_example =
    sync_lines-sync lines_pipe (λ p. p.1) lines_pipe-IsPipe 3 launched (omega arith)
