-- ===== src/Lister/Tests.antt =====
-- The theorems on detections at concrete lists.
use efimon.Prelude.{ℕ, ◌≡◌, refl, List, [], ◌∷◌, none, codes}
use efimon.Lister.{Process, Lister, ProcEntry, has_pid}
use efimon.Lister.Diff.{run, run-in_sync}

abbrev proc : ℕ → Process
proc k = record { pid = k; owner = codes "root"; cmd = codes "sh" }

abbrev before : Lister
before = record { last = proc 1 ∷ proc 2 ∷ []; dead = []; fresh = [] }

abbrev history : List (List Process)
history = (proc 2 ∷ proc 3 ∷ []) ∷ [] ∷ (proc 1 ∷ []) ∷ []

run-in_sync_example :
    (run (λ j. has_pid j before.last) before history).0 1
    ≡ has_pid 1 (run (λ j. has_pid j before.last) before history).1.last
run-in_sync_example = run-in_sync (λ j. has_pid j before.last) before history 1 (λ j. refl)

abbrev orphan : ProcEntry
orphan = record { tid = 7; user = none; command = codes "x" }
