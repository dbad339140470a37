-- ===== src/Launcher/Remote/Session.antt =====
-- What a whole session of the launcher leaves in the daemon.
use efimon.Prelude.{
  ℕ, ◌≡◌, refl, sym, ap, subst, ◌∙◌, ◌≢◌, inl, inr, Bool, true, Option, none, some, List, arith,
  Option-cases, Text,
}
use efimon.Outcome.{Outcome, returns, throws, escapes, faults, ◌>>=◌, >>=-returns}
use efimon.Daemon.Thread.{Act}
use efimon.Daemon.Analyser.{Analyser, stop_worker, check_worker}
use efimon.Daemon.Server.{Json, Config, Server, Turn, serve, complete, stopped_with}
use efimon.Launcher.Json.{Writer, IsJson}
use efimon.Launcher.Monitor.{
  AppData, Watch, watching, completed, flagged, stop_payload, stop_monitor, start_monitor, watch,
  supervise,
}
use efimon.Launcher.Remote.{Peer, parse_text, deliver, daemon_ask}
use efimon.Status.{not_found}
use efimon.Daemon.Workers.{IsKeyed, stop_worker-check}
use efimon.Daemon.Keyed.{Keeps, serve-IsKeyed}
use efimon.Launcher.Kept.{PeerKeeps, start_monitor-Keeps, watch-Keeps}
use efimon.Launcher.Remote.Requests.{IsSized, stop_monitor-stop_worker, serve-stop}

-- The analyser of the daemon that a request leaves.
abbrev analyser_or : Analyser → Outcome (Option (Peer × List Text)) → Analyser
analyser_or a (returns (some (some s, lines))) = s.analyser
analyser_or a (returns (some (none, lines))) = a
analyser_or a (returns none) = a
analyser_or a (throws t) = a
analyser_or a escapes = a
analyser_or a faults = a

-- The parts of `supervise` after each of its requests.
abbrev keep_watch : Watch → Option (Peer × List Text) → Outcome (Option (Peer × Watch))
keep_watch v s = elim s [ none ↦ returns none | some (d, more) ↦ returns (some (d, v)) ]

abbrev after_watch :
    (Peer → Outcome (Option (Peer × List Text)))
    → Option (Peer × Watch)
    → Outcome (Option (Peer × Watch))
after_watch stop r = elim r [
  | none ↦ returns none
  | some (d, watching) ↦ returns (some (d, watching))
  | some (d, completed) ↦ stop d >>= keep_watch completed
  | some (d, flagged t) ↦ stop d >>= keep_watch (flagged t)
]

abbrev after_start :
    (Peer → Outcome (Option (Peer × Watch)))
    → (Peer → Outcome (Option (Peer × List Text)))
    → Option (Peer × List Text)
    → Outcome (Option (Peer × Watch))
after_start loop stop r = elim r [
  | none ↦ returns none
  | some (d, lines) ↦ loop d >>= after_watch stop
]

abbrev watch_or : Watch → Outcome (Option (Peer × Watch)) → Watch
watch_or v (returns (some (d, o))) = o
watch_or v (returns none) = v
watch_or v (throws t) = v
watch_or v escapes = v
watch_or v faults = v

keep_watch-returns :
    (v : Watch) (s : Option (Peer × List Text)) (s' : Server) (o : Watch)
    → keep_watch v s ≡ returns (some (some s', o))
    → (lines : List Text) × (s ≡ some (some s', lines))
keep_watch-returns v none s' o e = absurd (ground arith)
keep_watch-returns v (some (d, more)) s' o e = (more, ground arith)

-- No process has two workers in the daemon.
abbrev pub IsKeyedPeer : Peer → Type 0
IsKeyedPeer none = Unit
IsKeyedPeer (some s) = IsKeyed s.analyser.workers

-- A poll of the process finds no worker, and no process has two.
abbrev pub IsReleased : ℕ → Server → Type 0
IsReleased pid s = ((check_worker pid s.analyser).code ≡ not_found) × IsKeyed s.analyser.workers

abbrev AfterPeer : Option (Peer × Text) → Type 0
AfterPeer none = Unit
AfterPeer (some (d, r)) = IsKeyedPeer d

abbrev IsKeyedTurn : Option Turn → Type 0
IsKeyedTurn none = Unit
IsKeyedTurn (some (d, reply)) = IsKeyedPeer d

deliver-IsKeyedPeer :
    {J : Type 0}
    → (api : Json J) (w : Writer J) (o : Option Turn) → IsKeyedTurn o
    → AfterPeer (deliver api w o)
unfolding deliver
deliver-IsKeyedPeer api w none k = tt
deliver-IsKeyedPeer api w (some (d, reply)) k = k

module _ {J : Type 0} (api : Json J) (w : Writer J) (law : IsJson api w) (c : Config) where
  ask-waits :
      (acts : List Act) (app : AppData) (s : Server)
      → IsSized app
      → stop_worker acts app.pid s.analyser ≡ none
      → daemon_ask api w c acts (w.write (stop_payload api w app)) (some s) ≡ none
  unfolding daemon_ask deliver complete stopped_with
  ask-waits acts app s z e = rw (daemon_ask, serve-stop api w law c acts app s z, e) refl

  -- A peer that does not answer leaves the request without a result.
  stop_waits-absurd :
      (acts : List Act) (app : AppData) (d : Peer) (s' : Server) (lines : List Text)
      → app.socket ≡ true
      → daemon_ask api w c acts (w.write (stop_payload api w app)) d ≡ none
      → stop_monitor api w (daemon_ask api w c acts) app d ≡ returns (some (some s', lines))
      → ⊥
  unfolding stop_monitor
  stop_waits-absurd acts app d s' lines on q e =
      let r : stop_monitor api w (daemon_ask api w c acts) app d ≡ returns none =
        rw (on, stop_monitor, q) refl in
      ground arith

  answered-IsKeyedPeer :
      (acts : List Act) (text : Text) (s : Server) (o : Outcome (Option Turn))
      → IsKeyed s.analyser.workers
      → serve api (parse_text api w) c acts text s ≡ o
      → AfterPeer (elim o [
        | returns r ↦ deliver api w r
        | throws t ↦ none
        | escapes ↦ none
        | faults ↦ none
      ])
  answered-IsKeyedPeer acts text s (returns none) k e = deliver-IsKeyedPeer api w none tt
  answered-IsKeyedPeer acts text s (returns (some (none, reply))) k e =
      deliver-IsKeyedPeer api w (some (none, reply)) tt
  answered-IsKeyedPeer acts text s (returns (some (some s', reply))) k e =
      deliver-IsKeyedPeer api w (some (some s', reply))
        (serve-IsKeyed api (parse_text api w) c acts text s s' reply k e)
  answered-IsKeyedPeer acts text s (throws t) k e = tt
  answered-IsKeyedPeer acts text s escapes k e = tt
  answered-IsKeyedPeer acts text s faults k e = tt

  -- Whatever it is asked, the daemon that a reply leaves has no process with two workers.
  daemon_ask-IsKeyedPeer :
      (acts : List Act) (text : Text) (d d' : Peer) (r : Text)
      → daemon_ask api w c acts text d ≡ some (d', r)
      → IsKeyedPeer d
      → IsKeyedPeer d'
  unfolding daemon_ask
  daemon_ask-IsKeyedPeer acts text none d' r e k = absurd (ground arith)
  daemon_ask-IsKeyedPeer acts text (some s) d' r e k =
      subst AfterPeer e
        (answered-IsKeyedPeer acts text s (serve api (parse_text api w) c acts text s) k refl)

  -- A request to stop that has a reply leaves a daemon without a worker of the process.
  stop_monitor-IsReleased :
      (acts : List Act) (app : AppData) (d : Peer) (s' : Server) (lines : List Text)
      → IsSized app
      → app.socket ≡ true
      → IsKeyedPeer d
      → stop_monitor api w (daemon_ask api w c acts) app d ≡ returns (some (some s', lines))
      → IsReleased app.pid s'
  unfolding daemon_ask
  stop_monitor-IsReleased acts app none s' lines z on g e =
      absurd (stop_waits-absurd acts app none s' lines on refl e)
  stop_monitor-IsReleased acts app (some s) s' lines z on g e =
      elim (Option-cases (stop_worker acts app.pid s.analyser)) [
        | inl k ↦
            absurd (stop_waits-absurd acts app (some s) s' lines on (ask-waits acts app s z k) e)
        | inr ((a, n), k) ↦
            let same =
              ap (analyser_or a)
                (sym (stop_monitor-stop_worker api w law c acts app s a n z on k) ∙ e) in
            let (gone, others, keyed) =
              stop_worker-check acts app.pid s.analyser s'.analyser n g
                (k ∙ ap (λ b. some (b, n)) same) in
            (gone, keyed)
      ]

  ended-IsReleased :
      (acts : List Act) (app : AppData) (d : Peer) (s' : Server) (v o : Watch)
      → IsSized app
      → app.socket ≡ true
      → IsKeyedPeer d
      → stop_monitor api w (daemon_ask api w c acts) app d >>= keep_watch v
        ≡ returns (some (some s', o))
      → IsReleased app.pid s'
  ended-IsReleased acts app d s' v o z on g e =
      let (s, h, k) =
        >>=-returns (stop_monitor api w (daemon_ask api w c acts) app d) (keep_watch v) _ e in
      let (lines, same) = keep_watch-returns v s s' o k in
      stop_monitor-IsReleased acts app d s' lines z on g (h ∙ ap returns same)

  after_watch-IsReleased :
      (acts : List Act) (app : AppData) (s' : Server) (o : Watch) (r : Option (Peer × Watch))
      → IsSized app
      → app.socket ≡ true
      → o ≢ watching
      → Keeps
          (PeerKeeps api w (daemon_ask api w c acts) IsKeyedPeer (daemon_ask-IsKeyedPeer acts))
          (returns r)
      → after_watch (stop_monitor api w (daemon_ask api w c acts) app) r
        ≡ returns (some (some s', o))
      → IsReleased app.pid s'
  after_watch-IsReleased acts app s' o none z on ne g e = absurd (ground arith)
  after_watch-IsReleased acts app s' o (some (d, watching)) z on ne g e =
      absurd (ne (sym (ap (watch_or o) e)))
  after_watch-IsReleased acts app s' o (some (d, completed)) z on ne g e =
      ended-IsReleased acts app d s' completed o z on g e
  after_watch-IsReleased acts app s' o (some (d, flagged t)) z on ne g e =
      ended-IsReleased acts app d s' (flagged t) o z on g e

  after_start-IsReleased :
      (acts : List Act) (rounds : List (Bool × Bool)) (app : AppData) (s' : Server) (o : Watch)
      (r : Option (Peer × List Text))
      → IsSized app
      → app.socket ≡ true
      → o ≢ watching
      → Keeps
          (PeerKeeps api w (daemon_ask api w c acts) IsKeyedPeer (daemon_ask-IsKeyedPeer acts))
          (returns r)
      → after_start
          (watch api w (daemon_ask api w c acts) rounds app)
          (stop_monitor api w (daemon_ask api w c acts) app)
          r
        ≡ returns (some (some s', o))
      → IsReleased app.pid s'
  after_start-IsReleased acts rounds app s' o none z on ne g e = absurd (ground arith)
  after_start-IsReleased acts rounds app s' o (some (d, lines)) z on ne g e =
      let ask = daemon_ask api w c acts in
      let (r, h, k) =
        >>=-returns (watch api w ask rounds app d) (after_watch (stop_monitor api w ask app)) _ e in
      after_watch-IsReleased acts app s' o r z on ne
        (subst (Keeps (PeerKeeps api w ask IsKeyedPeer (daemon_ask-IsKeyedPeer acts))) h
          (watch-Keeps api w ask IsKeyedPeer (daemon_ask-IsKeyedPeer acts) rounds app d g))
        k

  -- For numbers that fit `unsigned int` and a daemon with at most one worker of each process, whose
  -- threads move only while a request joins them: where a session of the launcher over the socket
  -- ends, on the answer that the monitor has stopped or on a flag, and the daemon is still alive, a
  -- poll of the process finds no worker, and there is still at most one of each process.
  pub supervise-stops :
      (acts : List Act) (rounds : List (Bool × Bool)) (app : AppData) (d : Peer) (s' : Server)
      (o : Watch)
      → IsSized app
      → app.socket ≡ true
      → o ≢ watching
      → IsKeyedPeer d
      → supervise api w (daemon_ask api w c acts) rounds app d ≡ returns (some (some s', o))
      → IsReleased app.pid s'
  unfolding supervise
  supervise-stops acts rounds app d s' o z on ne g e =
      let ask = daemon_ask api w c acts in
      let (r, h, k) =
        >>=-returns (start_monitor api w ask app d)
          (after_start (watch api w ask rounds app) (stop_monitor api w ask app)) _ e in
      after_start-IsReleased acts rounds app s' o r z on ne
        (subst (Keeps (PeerKeeps api w ask IsKeyedPeer (daemon_ask-IsKeyedPeer acts))) h
          (start_monitor-Keeps api w ask IsKeyedPeer (daemon_ask-IsKeyedPeer acts) app d g))
        k
