-- ===== src/Lister/Diff.antt =====
-- The new and the dead processes as differences of the pid sets of two detections.
use efimon.Prelude.{
  ◌↔◌, ℕ, ◌≡◌, refl, ap, Bool, true, false, not, ◌&&◌, ◌||◌, none, some, List, [], ◌∷◌, ◌==◌,
  ==_iff, any, arith,
}
use efimon.Lister.{Process, Lister, ProcEntry, capture, has_pid, missing, diff, detect}

has_pid-same :
    (p : Process) (k : ℕ) (ps : List Process)
    → (p.pid == k) ≡ true
    → has_pid p.pid ps ≡ has_pid k ps
has_pid-same p k ps h = ap (λ j. has_pid j ps) ((==_iff p.pid k).0 h)

-- `missing` is the difference of the pid sets.
pub has_pid-missing :
    (k : ℕ) (ps others : List Process)
    → has_pid k (missing ps others) ≡ (has_pid k ps && not (has_pid k others))
unfolding missing has_pid
has_pid-missing k [] others = refl
has_pid-missing k (p ∷ ps) others =
    ground (arith, has_pid-missing k ps others, has_pid-same p k others)

-- After a detection, a pid is new exactly when it was detected now and not the last time, and it is
-- dead exactly when it was detected the last time and not now.
pub diff-exact :
    (l : Lister) (detected : List Process) (k : ℕ)
    → (has_pid k (diff l detected).fresh ≡ (has_pid k detected && not (has_pid k l.last)))
      × (has_pid k (diff l detected).dead ≡ (has_pid k l.last && not (has_pid k detected)))
      × (has_pid k (diff l detected).last ≡ has_pid k detected)
unfolding diff
diff-exact l detected k =
    (has_pid-missing k detected l.last, has_pid-missing k l.last detected, refl)

-- A client that keeps a set of pids, and applies the reports of one detection to it.
abbrev pub follow : (ℕ → Bool) → Lister → ℕ → Bool
follow s l k = (s k && not (has_pid k l.dead)) || has_pid k l.fresh

-- The client and the lister over a history of captures.
pub run : (ℕ → Bool) → Lister → List (List Process) → (ℕ → Bool) × Lister
run s l [] = (s, l)
run s l (d ∷ ds) = run (follow s (diff l d)) (diff l d) ds

follow-diff :
    (s : ℕ → Bool) (l : Lister) (d : List Process) (k : ℕ)
    → s k ≡ has_pid k l.last
    → follow s (diff l d) k ≡ has_pid k (diff l d).last
follow-diff s l d k h = ground (arith, diff-exact l d k)

-- A client that starts with the pids of the lister and applies every report knows, after any
-- history of detections, exactly the pids of the last one.
pub run-in_sync :
    (s : ℕ → Bool) (l : Lister) (ds : List (List Process)) (k : ℕ)
    → ((j : ℕ) → s j ≡ has_pid j l.last)
    → (run s l ds).0 k ≡ has_pid k (run s l ds).1.last
unfolding run
run-in_sync s l [] k h = h k
run-in_sync s l (d ∷ ds) k h =
    run-in_sync (follow s (diff l d)) (diff l d) ds k (λ j. follow-diff s l d j (h j))

abbrev pub has_no_user : ProcEntry → Bool
has_no_user e = elim e.user [ none ↦ true | some u ↦ false ]

capture-none : (es : List ProcEntry) → (capture es ≡ none) ↔ (any has_no_user es ≡ true)
unfolding capture
capture-none [] = ground arith
capture-none (e ∷ es) = ground (arith, capture-none es)

-- A detection crashes exactly when some process belongs to a user that `getpwuid` does not know.
pub detect-crash_iff :
    (l : Lister) (es : List ProcEntry) → (detect l es ≡ none) ↔ (any has_no_user es ≡ true)
unfolding detect
detect-crash_iff l es = ground (arith, capture-none es)
