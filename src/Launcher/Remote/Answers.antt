-- ===== src/Launcher/Remote/Answers.antt =====
-- What a client finds in the daemon's response.
use efimon.Prelude.{◌^◌, ◌<◌, ◌≡◌, refl, Option, none, some, List, [], ◌∷◌, arith, Text, codes}
use efimon.Status.{Code, code_number}
use efimon.Outcome.{returns}
use efimon.Daemon.Thread.{Act}
use efimon.Daemon.Analyser.{Notice}
use efimon.Daemon.Server.{Json, Config, Server, Response, Reply, object, respond, serve}
use efimon.Launcher.Json.{parsed, Writer, build, IsJson}
use efimon.Launcher.Remote.{parse_text, response_value, reply_text, deliver, daemon_ask}

pub code_number_bound : (c : Code) → code_number c < 2 ^ 32
unfolding code_number
code_number_bound c = ground arith

module _ {J : Type 0} (api : Json J) (w : Writer J) (law : IsJson api w) where
  open w use {of_int, of_text, write, parse_stream}

  abbrev response_fields : Response → List (Text × J)
  response_fields r = (codes "result", of_text []) ∷ elim (r.name) [
    | none ↦ (codes "result", of_text r.result) ∷ (codes "code", of_int r.code) ∷ []
    | some name ↦
        (codes "name", of_text name)
        ∷ (codes "result", of_text r.result)
        ∷ (codes "code", of_int r.code)
        ∷ []
  ]

  response_value-build :
      (n : Notice) (name : Option Text)
      → response_value api w (respond n name) ≡ build api w (response_fields (respond n name))
  unfolding response_value respond
  response_value-build n none = refl
  response_value-build n (some file) = refl

  pub parse_stream-reply :
      (n : Notice) (name : Option Text)
      → parse_stream (reply_text api w (object (respond n name)))
        ≡ (parsed (response_value api w (respond n name)), [])
  unfolding reply_text
  parse_stream-reply n name =
      rw (response_value-build n name, reply_text)
        (law.parse_stream-write (response_fields (respond n name)))

  pub member-result :
      (n : Notice) (name : Option Text)
      → api.member (response_value api w (respond n name)) (codes "result")
        ≡ returns (some (of_text n.what))
  unfolding response_value respond
  member-result n none = law.member-build (response_fields (respond n none)) (codes "result")
  member-result n (some file) =
      law.member-build (response_fields (respond n (some file))) (codes "result")

  pub member-name :
      (n : Notice) (file : Text)
      → api.member (response_value api w (respond n (some file))) (codes "name")
        ≡ returns (some (of_text file))
  unfolding response_value respond
  member-name n file = law.member-build (response_fields (respond n (some file))) (codes "name")

  pub member-code :
      (n : Notice) (name : Option Text)
      → api.member (response_value api w (respond n name)) (codes "code")
        ≡ returns (some (of_int (code_number n.code)))
  unfolding response_value respond
  member-code n none = law.member-build (response_fields (respond n none)) (codes "code")
  member-code n (some file) =
      law.member-build (response_fields (respond n (some file))) (codes "code")

  pub parse_text-write :
      (es : List (Text × J)) → parse_text api w (write (build api w es)) ≡ some (build api w es)
  unfolding parse_text
  parse_text-write es = rw (law.parse_stream-write es, parse_text) refl

module _ {J : Type 0} (api : Json J) (w : Writer J) (c : Config) where
  -- The daemon's answer to a text that it serves with one reply.
  pub daemon_ask-serve :
      (acts : List Act) (text : Text) (s s' : Server) (reply : Reply)
      → serve api (parse_text api w) c acts text s ≡ returns (some (some s', reply))
      → daemon_ask api w c acts text (some s) ≡ some (some s', reply_text api w reply)
  unfolding daemon_ask deliver
  daemon_ask-serve acts text s s' reply e = rw (e, daemon_ask) refl
