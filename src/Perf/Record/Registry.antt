-- ===== src/Perf/Record/Registry.antt =====
-- `active_pids_` as a set: no operation of any observer puts a pid on it twice.
use efimon.Prelude.{
  ℕ, ◌≡◌, refl, ap, ◌⊎◌, inl, inr, Bool, false, not, ◌&&◌, ◌||◌, List, [], ◌∷◌, ◌++◌, arith, ◌==◌,
  if◌then◌else◌, Bool-cases,
}
use efimon.Status.{Status}
use efimon.Observer.{ObserverScope, process, system}
use efimon.Outcome.{returns, Outcome-cases}
use efimon.Perf.Record.{
  RecordReadings, Recorder, World, is_active, forget, dispose_temporary_folder, enlist, construct,
  construct_alive, claim, release, set_pid, destroy, check_alive, set_pid_field, fresh_recorder,
}

-- No pid stands on the list twice.
abbrev pub IsUnique : List ℕ → Type 0
IsUnique [] = Unit {0}
IsUnique (p ∷ ps) = (is_active p ps ≡ false) × IsUnique ps

pub is_active-append :
    (p q : ℕ) (ps : List ℕ) → is_active p (ps ++ (q ∷ [])) ≡ (is_active p ps || (q == p))
unfolding is_active
is_active-append p q [] = ground arith
is_active-append p q (x ∷ ps) = ground (arith, is_active-append p q ps)

append-IsUnique :
    (q : ℕ) (ps : List ℕ) → IsUnique ps → is_active q ps ≡ false → IsUnique (ps ++ (q ∷ []))
unfolding is_active
append-IsUnique q [] u h = (refl, tt)
append-IsUnique q (x ∷ ps) u h =
    (ground (arith, is_active-append x q ps), append-IsUnique q ps u.1 (ground arith))

is_active-same : (p q : ℕ) (ps : List ℕ) → p ≡ q → is_active p ps ≡ is_active q ps
is_active-same p q ps e = ap (λ j. is_active j ps) e

pub is_active-forget :
    (p q : ℕ) (ps : List ℕ)
    → IsUnique ps
    → is_active p (forget q ps) ≡ (is_active p ps && not (q == p))
unfolding is_active forget
is_active-forget p q [] u = refl
is_active-forget p q (x ∷ ps) u = ground (arith, is_active-forget p q ps u.1, is_active-same p x ps)

forget-IsUnique : (q : ℕ) (ps : List ℕ) → IsUnique ps → IsUnique (forget q ps)
unfolding forget is_active
forget-IsUnique q [] u = tt
forget-IsUnique q (x ∷ ps) u = ground (arith, forget-IsUnique q ps u.1, is_active-forget x q ps u.1)

pub dispose-active : (r : Recorder) (w : World) → (dispose_temporary_folder r w).active ≡ w.active
unfolding dispose_temporary_folder
dispose-active r w = ground arith

pub enlist-active : (r : Recorder) (w : World) → (enlist r w).1.active ≡ w.active ++ (r.pid ∷ [])
unfolding enlist
enlist-active r w = ground arith

enlist-pid : (r : Recorder) (w : World) → (enlist r w).0.pid ≡ r.pid
unfolding enlist
enlist-pid r w = ground arith

claim-IsUnique : (r : Recorder) (w : World) → IsUnique w.active → IsUnique (claim r w).1.active
unfolding claim
claim-IsUnique r w u = elim (Bool-cases (is_active r.pid w.active)) [
  | inl e ↦ rw (e, claim) u
  | inr e ↦ rw (e, claim) (rw (enlist-active r w) (append-IsUnique r.pid w.active u e))
]

pub release-active :
    (old : ℕ) (r : Recorder) (w w' : World)
    → release old r w ≡ returns w'
    → w'.active ≡ (if old == 0 then w.active else forget old w.active)
unfolding release
release-active old r w w' e =
    ground (arith, dispose-active r (record w { active = forget old w.active }))

release-IsUnique :
    (old : ℕ) (r : Recorder) (w w' : World)
    → IsUnique w.active
    → release old r w ≡ returns w'
    → IsUnique w'.active
release-IsUnique old r w w' u e = rw (release-active old r w w' e) (elim (Bool-cases (old == 0)) [
  | inl h ↦ rw h u
  | inr h ↦ rw h (forget-IsUnique old w.active u)
])

pub fresh-pid :
    (m : RecordReadings) (p i f : ℕ) (k : Bool) (alive : ℕ → Bool)
    → let (r, up) = check_alive alive (fresh_recorder m p i f k) in (r.pid ≡ p) × (up ≡ alive p)
unfolding fresh_recorder check_alive
fresh-pid m p i f k alive = ground arith

construct_alive-active :
    (r r' : Recorder) (w w' : World)
    → construct_alive r w ≡ returns (r', w')
    → (is_active r.pid w.active ≡ false) × (w'.active ≡ w.active ++ (r.pid ∷ []))
unfolding construct_alive
construct_alive-active r r' w w' e = ground (arith, enlist-active r w)

pub construct-active :
    (alive : ℕ → Bool) (m : RecordReadings) (p i f : ℕ) (keep_it : Bool) (w w' : World)
    (r : Recorder)
    → construct alive m p process i f keep_it w ≡ returns (r, w')
    → ((p ≡ 0) × (w'.active ≡ w.active))
      ⊎ ((is_active p w.active ≡ false) × (w'.active ≡ w.active ++ (p ∷ [])))
unfolding construct
construct-active alive m p i f keep_it w w' r e =
    let r0 : Recorder = (check_alive alive (fresh_recorder m p i f keep_it)).0 in
    let (named, checked) = fresh-pid m p i f keep_it alive in
    ground (arith, construct_alive-active r0 r w w')

construct-IsUnique :
    (alive : ℕ → Bool) (m : RecordReadings) (p : ℕ) (scope : ObserverScope) (i f : ℕ)
    (keep_it : Bool) (w w' : World) (r : Recorder)
    → IsUnique w.active
    → construct alive m p scope i f keep_it w ≡ returns (r, w')
    → IsUnique w'.active
unfolding construct
construct-IsUnique alive m p system i f keep_it w w' r u e = cc
construct-IsUnique alive m p process i f keep_it w w' r u e =
    elim (construct-active alive m p i f keep_it w w' r e) [
      | inl (_, h) ↦ rw h u
      | inr (n, h) ↦ rw h (append-IsUnique p w.active u n)
    ]

-- The observer with its new pid, after the check that the process is alive.
abbrev pub renamed : ℕ → Recorder → (ℕ → Bool) → Recorder
renamed p r alive = (check_alive alive (set_pid_field r p)).0

-- A pid change that returns either failed the check and left the list, or released the old pid and
-- claimed the new one.
pub renamed-pid :
    (p : ℕ) (r : Recorder) (alive : ℕ → Bool)
    → ((renamed p r alive).pid ≡ p) × ((check_alive alive (set_pid_field r p)).1 ≡ alive p)
unfolding check_alive set_pid_field
renamed-pid p r alive = ground arith

set_pid-cases :
    (alive : ℕ → Bool) (p : ℕ) (r r' : Recorder) (w w' : World) (st : Status)
    → set_pid alive p r w ≡ returns (r', w', st)
    → (w' ≡ w)
      ⊎ ((v : World) × (release r.pid (renamed p r alive) w ≡ returns v)
          × (w' ≡ (claim (renamed p r alive) v).1))
unfolding set_pid
set_pid-cases alive p r r' w w' st e = elim (Outcome-cases (release r.pid (renamed p r alive) w)) [
  | inl (v, h) ↦ elim (Bool-cases (check_alive alive (set_pid_field r p)).1) [
    | inl up ↦ inr (v, h, ground arith)
    | inr up ↦ inl (ground arith)
  ]
  | inr (inl (x, h)) ↦ inl (ground arith)
  | inr (inr (inl h)) ↦ inl (ground arith)
  | inr (inr (inr h)) ↦ inl (ground arith)
]

set_pid-IsUnique :
    (alive : ℕ → Bool) (p : ℕ) (r r' : Recorder) (w w' : World) (st : Status)
    → IsUnique w.active
    → set_pid alive p r w ≡ returns (r', w', st)
    → IsUnique w'.active
set_pid-IsUnique alive p r r' w w' st u e = elim (set_pid-cases alive p r r' w w' st e) [
  | inl h ↦ rw h u
  | inr (v, h, k) ↦
      rw k
        (claim-IsUnique (renamed p r alive) v (release-IsUnique r.pid (renamed p r alive) w v u h))
]

-- The observers that exist, with the shared state.
pub record System : Type 0 where
  pub world : World
  pub live : List Recorder

-- One call on one of the observers; a call that does not return ends the history.
pub data Step (alive : ℕ → Bool) (s : System) (t : System) : Type 0 where
  makes :
      (m : RecordReadings) (p : ℕ) (scope : ObserverScope) (i f : ℕ) (keep_it : Bool) (r : Recorder)
      → construct alive m p scope i f keep_it s.world ≡ returns (r, t.world)
      → t.live ≡ r ∷ s.live
      → Step alive s t
  moves :
      (p : ℕ) (before after : List Recorder) (r r' : Recorder) (st : Status)
      → s.live ≡ before ++ (r ∷ after)
      → set_pid alive p r s.world ≡ returns (r', t.world, st)
      → t.live ≡ before ++ (r' ∷ after)
      → Step alive s t
  ends :
      (before after : List Recorder) (r : Recorder)
      → s.live ≡ before ++ (r ∷ after)
      → t.world ≡ destroy r s.world
      → t.live ≡ before ++ after
      → Step alive s t

-- Processes come and go between the calls, so each call has its own view of what is alive.
pub data Reach (s : System) : System → Type 0 where
  here : Reach s s
  next : {t u : System} (alive : ℕ → Bool) → Reach s t → Step alive t u → Reach s u

Step-IsUnique :
    (alive : ℕ → Bool) (s t : System)
    → Step alive s t
    → IsUnique s.world.active
    → IsUnique t.world.active
unfolding destroy
Step-IsUnique alive s t (makes m p scope i f k r e l) u =
    construct-IsUnique alive m p scope i f k s.world t.world r u e
Step-IsUnique alive s t (moves p b a r r' st l e l') u =
    set_pid-IsUnique alive p r r' s.world t.world st u e
Step-IsUnique alive s t (ends b a r l e l') u = rw (e, dispose-active r s.world) u

-- After any history of constructions, pid changes and destructions of any number of observers, no
-- pid is on the list of tracked pids twice, if none was at the start.
pub Reach-IsUnique : {s t : System} → Reach s t → IsUnique s.world.active → IsUnique t.world.active
Reach-IsUnique here u = u
Reach-IsUnique (next {t = m} {u = v} alive r st) u = Step-IsUnique alive m v st (Reach-IsUnique r u)
