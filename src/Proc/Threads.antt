-- ===== src/Proc/Threads.antt =====
-- `ThreadTree` (src/efimon/proc/thread-tree.cpp): the threads of a process. The paths in a directory
-- are an argument; `none` is a directory that is not there.
pub mod Tasks
use efimon.Prelude.{
  ℕ, Option, none, some, List, [], ◌∷◌, ◌++◌, ◌==◌, if◌then◌else◌, any, Text, codes, to_string,
}
use efimon.Status.{Status, status_ok}
use efimon.Outcome.{Outcome, returns, escapes, ◌>>=◌}
use efimon.Proc.CpuInfo.{stoi}

pub record ThreadTree : Type 0 where
  pub pid : ℕ
  pub tree : List ℕ
  pub path : Text

-- `s.substr(s.find_last_of('/') + 1)`: all of it where there is none.
unfoldable pub after_slash : Text → Text
after_slash [] = []
after_slash (c ∷ s) =
    let rest = after_slash s in
    if any (λ x. x == b'/') s then rest else if c == b'/' then s else c ∷ s

-- The loop over the entries, with the tree so far.
unfoldable pub read_entries : List Text → List ℕ → Outcome (List ℕ)
unfolding after_slash stoi
read_entries [] tree = returns tree
read_entries (entry ∷ entries) tree =
    stoi (after_slash entry) >>= λ tid. read_entries entries (tree ++ (tid ∷ []))

-- An exception leaves before the tree is cleared, or with a part of it.
unfoldable pub refresh : (Text → Option (List Text)) → ThreadTree → Outcome (ThreadTree × Status)
unfolding read_entries
refresh directory t = elim (directory t.path) [
  | none ↦ escapes
  | some entries ↦ read_entries entries [] >>= λ tree. returns (record t { tree = tree }, status_ok)
]

unfoldable pub construct : (Text → Option (List Text)) → ℕ → Outcome ThreadTree
unfolding refresh
construct directory pid =
    refresh directory
      record { pid = pid; tree = []; path = codes "/proc/" ++ (to_string pid ++ codes "/task") }
    >>= λ p. returns (p.0)
