-- ===== src/Lister.antt =====
-- `ProcPsProcessLister::Detect` (src/efimon/proc/list.cpp) over the lists of `ProcessLister`
-- (include/efimon/proc-lister.hpp). What `readproc` and `getpwuid` return is an argument.
pub mod Diff
pub mod Tests
use efimon.Prelude.{
  ℕ, Bool, not, Option, none, some, List, [], ◌∷◌, ◌==◌, if◌then◌else◌, any, keep, Text,
}
use efimon.Status.{Status, status_ok}

pub record Process : Type 0 where
  pub pid : ℕ
  pub owner : Text
  pub cmd : Text

-- `last_`, `dead_` and `new_`.
pub record Lister : Type 0 where
  pub last : List Process
  pub dead : List Process
  pub fresh : List Process

-- An entry of `readproc`: the task, the user's name if `getpwuid` knows the user, the command.
pub record ProcEntry : Type 0 where
  pub tid : ℕ
  pub user : Option Text
  pub command : Text

-- The loop over `readproc`; `none` where `pws->pw_name` reads through a null pointer.
unfoldable pub capture : List ProcEntry → Option (List Process)
capture [] = some []
capture (e ∷ es) = elim e.user [
  | none ↦ none
  | some owner ↦ elim (capture es) [
    | none ↦ none
    | some ps ↦ some (record { pid = e.tid; owner = owner; cmd = e.command } ∷ ps)
  ]
]

-- `find_if(…, find_crit) != end`: some process of the list has this pid.
unfoldable pub has_pid : ℕ → List Process → Bool
has_pid k ps = any (λ p. p.pid == k) ps

-- The processes of the first list whose pid the second one lacks: the body of both loops.
unfoldable pub missing : List Process → List Process → List Process
missing ps others = keep (λ p. not (has_pid p.pid others)) ps

unfoldable pub diff : Lister → List Process → Lister
diff l detected = record {
  last = detected;
  dead = missing l.last detected;
  fresh = missing detected l.last;
}

-- `none` is the crash inside the capture.
unfoldable pub detect : Lister → List ProcEntry → Option (Lister × Status)
detect l entries = elim (capture entries) [
  | none ↦ none
  | some detected ↦ some (diff l detected, status_ok)
]

-- The getters return the list as it is, and leave it in place.
unfoldable pub get_last : Lister → List Process
get_last l = l.last

unfoldable pub get_dead : Lister → List Process × Lister
get_dead l = (l.dead, l)

unfoldable pub get_new : Lister → List Process × Lister
get_new l = (l.fresh, l)
