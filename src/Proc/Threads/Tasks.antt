-- ===== src/Proc/Threads/Tasks.antt =====
-- The ids of the threads, from the names of their directories.
use efimon.Prelude.{
  ℕ, ◌^◌, ◌<◌, ◌≡◌, refl, sym, ap, ◌∙◌, true, false, Option, some, List, [], ◌∷◌, ◌++◌, arith, ◌==◌,
  any, All, Text, to_string,
}
use efimon.Prelude.{IsDigit, to_string-IsDigit}
use mathlib.Core.List.{append_assoc, append-nil}
use efimon.Status.{status_ok}
use efimon.Outcome.{returns}
use efimon.Proc.CpuInfo.Lines.{stoi-to_string}
use efimon.Proc.Threads.{ThreadTree, after_slash, read_entries, refresh}

no_slash : (t : Text) → All IsDigit t → any (λ x. x == b'/') t ≡ false
no_slash [] h = refl
no_slash (c ∷ t) h = let ih = no_slash t (h.1) in ground arith

-- A path with a `/` in it.
has_slash : (dir t : Text) → any (λ x. x == b'/') (dir ++ (b'/' ∷ t)) ≡ true
has_slash [] t = refl
has_slash (c ∷ dir) t = let ih = has_slash dir t in ground arith

-- What follows the last `/` of a path.
after_slash-append : (dir t : Text) → All IsDigit t → after_slash (dir ++ (b'/' ∷ t)) ≡ t
unfolding after_slash
after_slash-append [] t h = let n = no_slash t h in ground arith
after_slash-append (c ∷ dir) t h =
    let ih = after_slash-append dir t h in let n = has_slash dir t in ground arith

-- The paths of the directories of the threads.
abbrev pub task_paths : Text → List ℕ → List Text
task_paths dir [] = []
task_paths dir (tid ∷ tids) = (dir ++ (b'/' ∷ to_string tid)) ∷ task_paths dir tids

read_entries-tasks :
    (dir : Text) (tids tree : List ℕ)
    → All (λ tid. tid < 2 ^ 31) tids
    → read_entries (task_paths dir tids) tree ≡ returns (tree ++ tids)
unfolding read_entries
read_entries-tasks dir [] tree h = ap returns (sym (append-nil tree))
read_entries-tasks dir (tid ∷ tids) tree h =
    rw (after_slash-append dir (to_string tid) (to_string-IsDigit tid), stoi-to_string tid (h.0))
      (read_entries-tasks dir tids (tree ++ (tid ∷ [])) (h.1)
        ∙ ap returns (append_assoc tree (tid ∷ []) tids))

-- The tree of a process whose directory lists its threads has their ids, in the order of the
-- directory, whatever it had before.
pub refresh-tasks :
    (directory : Text → Option (List Text)) (t : ThreadTree) (tids : List ℕ)
    → directory t.path ≡ some (task_paths t.path tids)
    → All (λ tid. tid < 2 ^ 31) tids
    → refresh directory t ≡ returns (record t { tree = tids }, status_ok)
unfolding refresh
refresh-tasks directory t tids e h =
    let r = read_entries-tasks t.path tids [] h in rw (e, r, refresh) refl
