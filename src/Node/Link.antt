-- ===== src/Node/Link.antt =====
-- node/node.py: `_recv_line`, `resolve`, `register` and `bye`, the TCP side of the node. An
-- exchange is an input: which call fails with an `OSError` (a time out is one), and what each
-- `recv` returns.
use telematica_telemetria.Base.{
  ℕ, Bool, true, false, Option, none, some, List, [], ◌∷◌, ◌++◌, ◌*◌, min, ◌&&◌, if◌then◌else◌,
}
use telematica_telemetria.Base.Text.{Text, Bytes, codes, starts_with, ends_in, strip, join}
use telematica_telemetria.Base.Codec.{encode, decode}
use telematica_telemetria.Node.State.{
  World, tcp_sent, tcp_reply, bye_sent, bye_reply, waited, Exit, returned, raised, waiting,
  type_error, value_error, vars, emit, stop,
}

-- The bytes that `recv` returns, one chunk for each call; `recv` returns none at the end of the
-- stream.
pub data Stream : Type 0 where
  closed : Stream
  timed_out : Stream
  chunk : ℕ → Bytes → Stream → Stream

-- The loop of `_recv_line`; `none` is an `OSError`. A chunk holds at least one byte.
unfoldable pub recv_loop : Bytes → Stream → Option Bytes
recv_loop buf closed = some buf
recv_loop buf timed_out = if ends_in b'\n' buf then some buf else none
recv_loop buf (chunk b s rest) =
    let more = recv_loop (buf ++ b ∷ s) rest in if ends_in b'\n' buf then some buf else more

-- `_recv_line`
unfoldable pub recv_line : Stream → Option Text
unfolding recv_loop
recv_line s = elim (recv_loop [] s) [ none ↦ none | some line ↦ some (strip (decode line)) ]

-- One round of `register`: whether getaddrinfo can encode the server's name (it raises a UnicodeError, which
-- is a ValueError, if not), what it returns (`none` is an `OSError`), whether `connect` and `sendall` succeed, what
-- arrives, and whether a signal arrives before the next test of `running`.
pub record Attempt : Type 0 where
  pub encodable : Bool
  pub dns : Option Text
  pub connects : Bool
  pub sends : Bool
  pub stream : Stream
  pub signal : Bool

-- The message of `register`.
unfoldable pub register_msg : Text → Text → Text
register_msg id location =
    codes "REGISTER|" ++ id ++ codes "|" ++ location ++ codes "|" ++ join b',' vars ++ b'\n' ∷ []

-- The message of `bye`.
unfoldable pub bye_msg : Text → Text
bye_msg id = codes "BYE|" ++ id ++ b'\n' ∷ []

-- What `bye` meets.
pub record Farewell : Type 0 where
  pub connects : Bool
  pub sends : Bool
  pub stream : Stream

module _ {F : Type 0} where
  -- what follows the reply: `True` is the `return` of `register`
  unfoldable pub greet : Option Text → World F → World F × Bool
  greet none w = (w, false)
  greet (some reply) w =
      let heard = emit (tcp_reply reply) w in
      if starts_with (codes "OK|REGISTERED") reply
      then (record heard { node = record heard.node { registered = true; seq = 0 } }, true)
      else (heard, false)

  -- from `connect` on, with the address that `resolve` has stored
  unfoldable pub ask : Attempt → Text → World F → World F × Bool
  unfolding greet
  ask a addr w =
      if a.connects && a.sends
      then greet (recv_line a.stream)
          (emit (tcp_sent addr (encode (register_msg w.id w.location))) w)
      else (w, false)

  -- the `try` of `register`, where the name can be encoded: an `OSError` ends the round
  unfoldable pub attempt : Attempt → World F → World F × Bool
  unfolding ask
  attempt a w = elim a.dns [
    | none ↦ (w, false)
    | some addr ↦ ask a addr (record w { node = record w.node { ip = some addr } })
  ]

  -- `register`, with the wait so far; it waits on when the attempts are used up. The `except OSError` does
  -- not catch the ValueError of a name that cannot be encoded.
  unfoldable pub register : ℕ → List Attempt → World F → World F × Exit
  unfolding stop
  register wait [] w = (w, if w.running then waiting else returned)
  register wait (a ∷ rest) w =
      let (w', done) = attempt a w in
      let again = register (min (wait * 2) 30) rest (stop a.signal (emit (waited wait) w')) in
      let tried = if done then (stop a.signal w', returned) else again in
      if w.running then (if a.encodable then tried else (w, raised value_error)) else (w, returned)

  unfoldable pub part : Option Text → World F → World F
  part none w = w
  part (some reply) w = emit (bye_reply reply) w

  -- `bye`; `connect` raises a `TypeError`, which nothing catches, while `ip` is still None
  unfoldable pub bye : Farewell → World F → World F × Exit
  unfolding part
  bye f w = elim w.ip [
    | none ↦ (w, raised type_error)
    | some addr ↦ (
      if f.connects && f.sends
          then part (recv_line f.stream) (emit (bye_sent addr (encode (bye_msg w.id))) w)
          else w,
      returned,
    )
  ]
