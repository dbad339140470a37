-- ===== src/Daemon/Keyed.antt =====
-- The map of workers through the daemon's loop in src/tools/efimon-daemon.cpp.
use efimon.Prelude.{
  ℕ, ◌≡◌, refl, sym, subst, inl, inr, Bool, true, false, Option, none, some, List, arith,
  if◌then◌else◌, Option-cases, Text, codes, text_eq,
}
use efimon.Outcome.{Outcome, returns, throws, escapes, faults, ◌>>=◌}
use efimon.Daemon.Thread.{Act}
use efimon.Daemon.Analyser.{Analyser, Notice, start_worker, stop_worker, start_system, stop_system}
use efimon.Daemon.Workers.{IsKeyed, start_worker-check, stop_worker-check}
use efimon.Daemon.Server.{
  Json, Config, Server, Reply, Turn, Served, stopped_with, create_monitoring_file, def_frequency,
  field_or, member_if, serve_system, serve_start, serve_process, serve_poll, serve_else,
  dispatch_poll, dispatch_process, dispatch, early_reply, complete, serve_parsed, serve,
}

-- The result of a call that ends, if there is one, has the property `P`.
abbrev pub Keeps : {A : Type 0} → (A → Type 0) → Outcome (Option A) → Type 0
Keeps P (returns (some x)) = P x
Keeps P (returns none) = Unit
Keeps P (throws t) = Unit
Keeps P escapes = Unit
Keeps P faults = Unit

pub >>=-Keeps :
    {A B : Type 0}
    → (P : B → Type 0) (o : Outcome A) (f : A → Outcome (Option B))
    → ((a : A) → o ≡ returns a → Keeps P (f a))
    → Keeps P (o >>= f)
>>=-Keeps P (returns a) f k = k a refl
>>=-Keeps P (throws t) f k = tt
>>=-Keeps P escapes f k = tt
>>=-Keeps P faults f k = tt

option-Keeps :
    {A B : Type 0}
    → (P : B → Type 0) (o : Option A) (x : Outcome (Option B)) (f : A → Outcome (Option B))
    → Keeps P x
    → ((a : A) → Keeps P (f a))
    → Keeps P (elim o [ none ↦ x | some a ↦ f a ])
option-Keeps P none x f k l = k
option-Keeps P (some a) x f k l = l a

pub if-Keeps :
    {B : Type 0}
    → (P : B → Type 0) (b : Bool) (x y : Outcome (Option B)) → Keeps P x
    → Keeps P y
    → Keeps P (if b then x else y)
if-Keeps P true x y k l = k
if-Keeps P false x y k l = l

-- No process has two workers in the server that a handler or a turn leaves.
abbrev KeyedAfter : Server × Notice × Option Text → Type 0
KeyedAfter r = IsKeyed r.0.analyser.workers

abbrev KeyedTurn : Turn → Type 0
KeyedTurn (none, reply) = Unit
KeyedTurn (some s, reply) = IsKeyed s.analyser.workers

start_system-workers : (delay : ℕ) (a : Analyser) → (start_system delay a).0.workers ≡ a.workers
unfolding start_system
start_system-workers delay a = ground arith

stop_system-workers :
    (acts : List Act) (a a' : Analyser) (n : Notice)
    → stop_system acts a ≡ some (a', n)
    → a'.workers ≡ a.workers
unfolding stop_system
stop_system-workers acts a a' n e = ground arith

stopped_with-Keeps :
    (o : Option (Analyser × Notice)) (s : Server) (name : Option Text)
    → ((a : Analyser) (n : Notice) → o ≡ some (a, n) → IsKeyed a.workers)
    → Keeps KeyedAfter (returns (stopped_with o s name))
unfolding stopped_with
stopped_with-Keeps none s name k = tt
stopped_with-Keeps (some (a, n)) s name k = k a n refl

complete-Keeps :
    (early : Option Reply) (o : Served)
    → Keeps KeyedAfter (returns o)
    → Keeps KeyedTurn (returns (complete early o))
unfolding complete
complete-Keeps early none k = tt
complete-Keeps none (some (s, n, name)) k = k
complete-Keeps (some reply) (some (s, n, name)) k = tt

module _ {J : Type 0} (api : Json J) (parse : Text → Option J) (c : Config) where
  open api use {null, member, as_bool, as_uint, as_text}

  serve_system-Keeps :
      (acts : List Act) (jstate : J) (s : Server)
      → IsKeyed s.analyser.workers
      → Keeps KeyedAfter (serve_system api parse c acts jstate s)
  unfolding serve_system
  serve_system-Keeps acts jstate s k = >>=-Keeps KeyedAfter (as_bool jstate) _ (λ state h.
      elim state
        as (λ b. Keeps KeyedAfter (
          returns (
            if b
            then some (
              record s { analyser = (start_system c.delaytime s.analyser).0 },
              (start_system c.delaytime s.analyser).1,
              none,
            )
            else stopped_with (stop_system acts s.analyser) s none))) [
              | true ↦ subst IsKeyed (sym (start_system-workers c.delaytime s.analyser)) k
              | false ↦
                  stopped_with-Keeps (stop_system acts s.analyser) s none
                    (λ a n e. subst IsKeyed (sym (stop_system-workers acts s.analyser a n e)) k)
            ])

  serve_start-Keeps :
      (name : Text) (pid delay samples : ℕ) (perf : Bool) (freq : ℕ) (s : Server)
      → IsKeyed s.analyser.workers
      → Keeps KeyedAfter (serve_start api parse c name pid delay samples perf freq s)
  unfolding serve_start
  serve_start-Keeps name pid delay samples perf freq s k =
      >>=-Keeps KeyedAfter (start_worker c.setting name pid delay samples perf freq s.analyser) _
        (λ r h.
          (start_worker-check c.setting name pid delay samples perf freq s.analyser (r.0) (r.1) k
            h).1)

  serve_process-Keeps :
      (acts : List Act) (root jstate jpid : J) (s : Server)
      → IsKeyed s.analyser.workers
      → Keeps KeyedAfter (serve_process api parse c acts root jstate jpid s)
  unfolding serve_process
  serve_process-Keeps acts root jstate jpid s k =
      >>=-Keeps KeyedAfter (as_bool jstate) _ (λ state h1.
        >>=-Keeps KeyedAfter (as_uint jpid) _ (λ pid h2.
          >>=-Keeps KeyedAfter (field_or api parse c as_uint c.delaytime "delay" root) _
            (λ delay h3.
              >>=-Keeps KeyedAfter (field_or api parse c as_bool false "perf" root) _ (λ perf h4.
                >>=-Keeps KeyedAfter (field_or api parse c as_uint def_frequency "frequency" root) _
                  (λ freq h5.
                    >>=-Keeps KeyedAfter (field_or api parse c as_uint 0 "samples" root) _
                      (λ samples h6.
                        >>=-Keeps KeyedAfter
                          (field_or api parse c as_text
                            (create_monitoring_file c.outputpath pid s.logcounter).0 "name" root)
                          _
                          (λ name h7.
                            if-Keeps KeyedAfter state _ _
                              (serve_start-Keeps name pid delay samples perf freq
                                record s {
                                  logcounter =
                                      (create_monitoring_file c.outputpath pid s.logcounter).1;
                                }
                                k)
                              (stopped_with-Keeps (stop_worker acts pid s.analyser) _ (some name)
                                (λ a n e. (stop_worker-check acts pid s.analyser a n k e).2)))))))))

  dispatch_poll-Keeps :
      (transaction : Text) (root : J) (s : Server)
      → IsKeyed s.analyser.workers
      → Keeps KeyedAfter (dispatch_poll api parse c transaction root s)
  unfolding dispatch_poll serve_else serve_poll
  dispatch_poll-Keeps transaction root s k =
      >>=-Keeps KeyedAfter (member_if api parse c (text_eq (codes "poll") transaction) "pid" root) _
        (λ p h.
          option-Keeps KeyedAfter p _ _ k
            (λ jpid. >>=-Keeps KeyedAfter (as_uint jpid) _ (λ pid e. k)))

  dispatch_process-Keeps :
      (acts : List Act) (transaction : Text) (root : J) (s : Server)
      → IsKeyed s.analyser.workers
      → Keeps KeyedAfter (dispatch_process api parse c acts transaction root s)
  unfolding dispatch_process
  dispatch_process-Keeps acts transaction root s k =
      >>=-Keeps KeyedAfter
        (member_if api parse c (text_eq (codes "process") transaction) "state" root) _
        (λ st h.
          option-Keeps KeyedAfter st _ _ (dispatch_poll-Keeps transaction root s k) (λ jstate.
            >>=-Keeps KeyedAfter (member root (codes "pid")) _ (λ p h'.
              option-Keeps KeyedAfter p _ _ (dispatch_poll-Keeps transaction root s k)
                (λ jpid. serve_process-Keeps acts root jstate jpid s k))))

  dispatch-Keeps :
      (acts : List Act) (transaction : Text) (root : J) (s : Server)
      → IsKeyed s.analyser.workers
      → Keeps KeyedAfter (dispatch api parse c acts transaction root s)
  unfolding dispatch
  dispatch-Keeps acts transaction root s k =
      >>=-Keeps KeyedAfter
        (member_if api parse c (text_eq (codes "system") transaction) "state" root) _
        (λ st h.
          option-Keeps KeyedAfter st _ _ (dispatch_process-Keeps acts transaction root s k)
            (λ jstate. serve_system-Keeps acts jstate s k))

  serve_parsed-Keeps :
      (acts : List Act) (root : J) (s : Server)
      → IsKeyed s.analyser.workers
      → Keeps KeyedTurn (serve_parsed api parse c acts root s)
  unfolding serve_parsed
  serve_parsed-Keeps acts root s k =
      >>=-Keeps KeyedTurn (member root (codes "transaction")) _ (λ t h.
        >>=-Keeps KeyedTurn (as_text (elim t [ none ↦ null | some j ↦ j ])) _ (λ tr h'.
          >>=-Keeps KeyedTurn (dispatch api parse c acts tr root s) _ (λ o e.
            complete-Keeps (early_reply t) o
              (subst (Keeps KeyedAfter) e (dispatch-Keeps acts tr root s k)))))

  -- A turn of the daemon's loop that ends, whatever the message, leaves at most one worker for each
  -- process where there was at most one before.
  pub serve-IsKeyed :
      (acts : List Act) (text : Text) (s s' : Server) (reply : Reply)
      → IsKeyed s.analyser.workers
      → serve api parse c acts text s ≡ returns (some (some s', reply))
      → IsKeyed s'.analyser.workers
  unfolding serve
  serve-IsKeyed acts text s s' reply k e = elim (Option-cases (parse text)) [
    | inl h ↦ let same : s ≡ s' = ground arith in subst (λ x. IsKeyed x.analyser.workers) same k
    | inr (root, h) ↦
        let e' : serve_parsed api parse c acts root s ≡ returns (some (some s', reply)) =
          ground arith in
        subst (Keeps KeyedTurn) e' (serve_parsed-Keeps acts root s k)
  ]
