-- ===== src/Daemon/Replies.antt =====
-- What the daemon answers to a request.
use efimon.Prelude.{
  ℕ, ◌≡◌, refl, sym, ap, ◌∙◌, ◌↔◌, inl, inr, Option, none, some, List, [], arith, Option-cases,
  Text, codes,
}
use efimon.Outcome.{returns, >>=-returns}
use efimon.Daemon.Thread.{Act}
use efimon.Daemon.Analyser.{check_worker}
use efimon.Daemon.Server.{
  Json, Config, Server, Reply, plain, object, Served, respond, member_if, serve_poll, dispatch_poll,
  dispatch_process, dispatch, early_reply, complete, serve_parsed, serve, serve_else,
}

abbrev pub missing : Reply
missing = plain "{\"result\": \"Cannot find transaction\"}"

complete-ends :
    {J : Type 0}
    → (t : Option J) (o : Served) (reply : Reply) → complete (early_reply t) o ≡ some (none, reply)
    → (t ≡ none) × (reply ≡ missing)
unfolding complete early_reply
complete-ends none none reply e = absurd (ground arith)
complete-ends none (some r) reply e = (refl, ground arith)
complete-ends (some t) none reply e = absurd (ground arith)
complete-ends (some t) (some r) reply e = absurd (ground arith)

module _ {J : Type 0} (api : Json J) (parse : Text → Option J) (c : Config) where
  open api use {null, member, as_bool, as_uint, as_text}

  -- The message is an object without a transaction.
  abbrev pub HasNoTransaction : Text → Type 0
  HasNoTransaction text =
      (root : J) × (parse text ≡ some root) × (member root (codes "transaction") ≡ returns none)

  serve_parsed-ends :
      (acts : List Act) (root : J) (s : Server) (reply : Reply)
      → serve_parsed api parse c acts root s ≡ returns (some (none, reply))
      → (member root (codes "transaction") ≡ returns none) × (reply ≡ missing)
  unfolding serve_parsed
  serve_parsed-ends acts root s reply e =
      let (t, h1, e1) = >>=-returns (member root (codes "transaction")) _ _ e in
      let (tr, h2, e2) = >>=-returns (as_text (elim t [ none ↦ null | some j ↦ j ])) _ _ e1 in
      let (o, h3, e3) = >>=-returns (dispatch api parse c acts tr root s) _ _ e2 in
      let (absent, which) = complete-ends t o reply (ground arith) in
      (h1 ∙ ap returns absent, which)

  -- The empty text is none of the transactions.
  dispatch-empty :
      (acts : List Act) (root : J) (s : Server)
      → dispatch api parse c acts [] root s ≡ serve_else api parse c s
  unfolding dispatch dispatch_process dispatch_poll member_if
  dispatch-empty acts root s = refl

  serve-missing :
      (acts : List Act) (text : Text) (s : Server)
      → as_text null ≡ returns []
      → HasNoTransaction text
      → serve api parse c acts text s ≡ returns (some (none, missing))
  unfolding serve serve_parsed serve_else complete early_reply
  serve-missing acts text s n (root, p, m) =
      let d = dispatch-empty acts root s in rw (p, serve, m, n, d) refl

  -- With a JSON library whose null value is the empty text: a turn of the loop ends the daemon after
  -- a reply exactly where the message is an object without a transaction, and the reply is that the
  -- transaction cannot be found.
  pub serve-ends_iff :
      (acts : List Act) (text : Text) (s : Server) (reply : Reply)
      → as_text null ≡ returns []
      → (serve api parse c acts text s ≡ returns (some (none, reply)))
        ↔ ((reply ≡ missing) × HasNoTransaction text)
  unfolding serve
  serve-ends_iff acts text s reply n = (
    λ e. elim (Option-cases (parse text)) [
      | inl h ↦ absurd (ground arith)
      | inr (root, h) ↦
          let e' : serve_parsed api parse c acts root s ≡ returns (some (none, reply)) =
            ground arith in
          let (m, which) = serve_parsed-ends acts root s reply e' in (which, (root, h, m))
    ],
    λ k. serve-missing acts text s n (k.1) ∙ ap (λ r. returns (some (none, r))) (sym (k.0)),
  )

  dispatch-poll :
      (acts : List Act) (root jpid : J) (s : Server) (pid : ℕ)
      → member root (codes "pid") ≡ returns (some jpid)
      → as_uint jpid ≡ returns pid
      → dispatch api parse c acts (codes "poll") root s
        ≡ returns (some (s, check_worker pid s.analyser, none))
  unfolding dispatch dispatch_process dispatch_poll member_if serve_poll
  dispatch-poll acts root jpid s pid m u = ground arith

  -- A poll of a process sends one reply, what the analyser tells of the process's worker, and
  -- changes nothing.
  pub serve-poll :
      (acts : List Act) (text : Text) (root jt jpid : J) (s : Server) (pid : ℕ)
      → parse text ≡ some root
      → member root (codes "transaction") ≡ returns (some jt)
      → as_text jt ≡ returns (codes "poll")
      → member root (codes "pid") ≡ returns (some jpid)
      → as_uint jpid ≡ returns pid
      → serve api parse c acts text s
        ≡ returns (some (some s, object (respond (check_worker pid s.analyser) none)))
  unfolding serve serve_parsed complete early_reply
  serve-poll acts text root jt jpid s pid p mt at mp u =
      let d = dispatch-poll acts root jpid s pid mp u in ground arith
