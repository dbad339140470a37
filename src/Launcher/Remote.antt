-- ===== src/Launcher/Remote.antt =====
-- The launcher with the daemon at the other end of the socket: the loop of
-- src/tools/efimon-daemon.cpp answers what src/tools/efimon-launcher.cpp asks.
pub mod Answers
pub mod Polls
pub mod Requests
pub mod Starts
pub mod Values
pub mod Paced
pub mod Session
pub mod Tests
use efimon.Prelude.{Option, none, some, List, [], ◌∷◌, Text, codes}
use efimon.Outcome.{Outcome, returns, throws, escapes, faults}
use efimon.Daemon.Thread.{Act}
use efimon.Daemon.Server.{Json, Config, Server, Response, Reply, Turn, plain, object, serve}
use efimon.Launcher.Json.{Parsed, parsed, wrong, Writer, build}

-- `none` is a daemon that has ended by an exception.
abbrev pub Peer : Type 0
Peer = Option Server

module _ {J : Type 0} (api : Json J) (w : Writer J) where
  open w use {of_int, of_text, write, parse_stream}

  -- A new stream for each message.
  unfoldable pub parse_text : Text → Option J
  parse_text text = elim ((parse_stream text).0) [ parsed j ↦ some j | wrong errors ↦ none ]

  -- The object `response`.
  unfoldable pub response_value : Response → J
  response_value r = elim (r.name) [
    | none ↦ build api w (
        (codes "result", of_text [])
        ∷ (codes "result", of_text r.result)
        ∷ (codes "code", of_int r.code)
        ∷ [])
    | some name ↦ build api w (
        (codes "result", of_text [])
        ∷ (codes "name", of_text name)
        ∷ (codes "result", of_text r.result)
        ∷ (codes "code", of_int r.code)
        ∷ [])
  ]

  unfoldable pub reply_text : Reply → Text
  unfolding response_value
  reply_text (plain s) = codes s
  reply_text (object r) = write (response_value r)

  unfoldable pub deliver : Option Turn → Option (Peer × Text)
  unfolding reply_text
  deliver none = none
  deliver (some (d, reply)) = some (d, reply_text reply)

  -- The acts are those of a thread that a request joins.
  unfoldable pub daemon_ask : Config → List Act → Text → Peer → Option (Peer × Text)
  unfolding parse_text deliver
  daemon_ask c acts text none = none
  daemon_ask c acts text (some s) = elim (serve api parse_text c acts text s) [
    | returns o ↦ deliver o
    | throws st ↦ none
    | escapes ↦ none
    | faults ↦ none
  ]
