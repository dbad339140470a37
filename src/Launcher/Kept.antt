-- ===== src/Launcher/Kept.antt =====
-- The requests of the launcher in src/tools/efimon-launcher.cpp over a peer with an invariant.
use efimon.Prelude.{
  ◌≡◌, refl, subst, Bool, true, false, not, ◌||◌, Option, none, some, List, [], ◌∷◌, ◌++◌, ◌==◌,
  Text,
}
use efimon.Outcome.{Outcome, returns}
use efimon.Status.{code_number, stopped}
use efimon.Daemon.Server.{Json}
use efimon.Daemon.Keyed.{Keeps, >>=-Keeps, if-Keeps}
use efimon.Launcher.Json.{Writer}
use efimon.Launcher.Monitor.{
  AppData, start_process, start_monitor, check_monitor, report_process, report_system,
  system_payload, poll_payload, read_code, watch,
}

module _ {J D : Type 0} (api : Json J) (w : Writer J) (ask : Text → D → Option (D × Text))
    (P : D → Type 0)
    (keep : (t : Text) (d d' : D) (r : Text) → ask t d ≡ some (d', r) → P d → P d') where
  -- The invariant of the peer that a request leaves.
  abbrev pub PeerKeeps : {A : Type 0} → D × A → Type 0
  PeerKeeps r = P r.0

  reply-Keeps :
      {A : Type 0}
      → (o : Option (D × Text)) (f : D → Text → Outcome (Option (D × A)))
      → ((d : D) (r : Text) → o ≡ some (d, r) → Keeps PeerKeeps (f d r))
      → Keeps PeerKeeps (elim o [ none ↦ returns none | some (d, r) ↦ f d r ])
  reply-Keeps none f k = tt
  reply-Keeps (some (d, r)) f k = k d r refl

  start_process-Keeps :
      (payload : J) (rest : Text) (lines : List Text) (d : D)
      → P d
      → Keeps PeerKeeps (start_process api w ask payload rest lines d)
  unfolding start_process
  start_process-Keeps payload rest lines d k = reply-Keeps (ask (w.write payload) d) _ (λ d' r e.
      >>=-Keeps PeerKeeps (report_process api w (w.parse_stream (rest ++ r)).0)
        (λ more. returns (some (d', lines ++ more))) (λ more h. keep _ d d' r e k))

  pub start_monitor-Keeps :
      (app : AppData) (d : D) → P d → Keeps PeerKeeps (start_monitor api w ask app d)
  unfolding start_monitor
  start_monitor-Keeps app d k = if-Keeps PeerKeeps (not app.socket) _ _ k (
      reply-Keeps (ask (w.write (system_payload api w app)) d) _ (λ d' r e.
        >>=-Keeps PeerKeeps (report_system api w (w.parse_stream r).0) _
          (λ lines h. start_process-Keeps _ _ lines d' (keep _ d d' r e k))))

  check_monitor-Keeps :
      (app : AppData) (d : D) → P d → Keeps PeerKeeps (check_monitor api w ask app d)
  unfolding check_monitor
  check_monitor-Keeps app d k = reply-Keeps (ask (w.write (poll_payload api w app)) d) _ (λ d' r e.
      >>=-Keeps PeerKeeps (read_code api w (w.parse_stream r).0) (λ st. returns (some (d', st)))
        (λ st h. keep _ d d' r e k))

  found-Keeps :
      {A B : Type 0}
      → (r : Option (D × A)) (f : D → A → Outcome (Option (D × B))) → Keeps PeerKeeps (returns r)
      → ((d : D) (x : A) → P d → Keeps PeerKeeps (f d x))
      → Keeps PeerKeeps (elim r [ none ↦ returns none | some (d, x) ↦ f d x ])
  found-Keeps none f k l = tt
  found-Keeps (some (d, x)) f k l = l d x k

  cases-Keeps :
      {A : Type 0}
      → (b : Bool) (x y : Outcome (Option (D × A))) → Keeps PeerKeeps x
      → Keeps PeerKeeps y
      → Keeps PeerKeeps (elim b [ true ↦ x | false ↦ y ])
  cases-Keeps true x y k l = k
  cases-Keeps false x y k l = l

  pub watch-Keeps :
      (rounds : List (Bool × Bool)) (app : AppData) (d : D)
      → P d
      → Keeps PeerKeeps (watch api w ask rounds app d)
  unfolding watch
  watch-Keeps [] app d k = k
  watch-Keeps (flags ∷ rounds) app d k = if-Keeps PeerKeeps (flags.0 || flags.1) _ _ k (
      >>=-Keeps PeerKeeps (check_monitor api w ask app d) _ (λ r e.
        found-Keeps r _ (subst (Keeps PeerKeeps) e (check_monitor-Keeps app d k)) (λ d' st k'.
          cases-Keeps (st.code == code_number stopped) _ _ k' (watch-Keeps rounds app d' k'))))
