-- ===== src/Node/Telemetry.antt =====
-- node/node.py: `send_telemetry` and `check_nack`, the UDP side of the node.
use telematica_telemetria.Base.{
  ℕ, ◌+◌, Bool, true, false, Option, none, some, List, [], ◌∷◌, ◌++◌, if◌then◌else◌,
}
use telematica_telemetria.Base.Text.{Text, Bytes, codes, starts_with, strip, show_nat}
use telematica_telemetria.Base.Codec.{encode, decode}
use telematica_telemetria.Node.State.{
  FloatOps, World, udp_sent, udp_failed, udp_reply, Exit, returned, raised, os_error, value_error,
  vars, emit,
}
use telematica_telemetria.Node.Simulation.{Draw, measure}

-- What one pass of the loop of `send_telemetry` meets: the random draws, and whether `sendto`
-- succeeds.
pub record Shot (F : Type 0) : Type 0 where
  pub draw : Draw F
  pub goes : Bool

-- A call of `recvfrom`: a datagram, a `ConnectionResetError`, or another `OSError`. When no datagram
-- is left it raises `BlockingIOError`.
pub data Answer : Type 0 where
  reply : Bytes → Answer
  unreachable : Answer
  fails : Answer

-- the message of `send_telemetry`
unfoldable pub telemetry_msg : Text → ℕ → Text → Text → Text
telemetry_msg id seq var value =
    codes "TELEMETRY|"
    ++ id
    ++ codes "|"
    ++ show_nat seq
    ++ codes "|"
    ++ var
    ++ codes "|"
    ++ value
    ++ b'\n' ∷ []

module _ {F : Type 0} where
  -- `sendto`; `True` tells the loop to go on
  unfoldable pub send_datagram : Bool → Text → Text → World F → World F × Bool
  send_datagram true var value w =
      let sent = emit (udp_sent (encode (telemetry_msg w.id w.seq var value))) w in
      (record sent { node = record sent.node { sent = w.sent + 1 } }, true)
  send_datagram false var value w = (emit udp_failed w, false)

  -- the body of the loop for one variable
  unfoldable pub send_one : FloatOps F → Shot F → Text → World F → World F × Option Bool
  unfolding send_datagram
  send_one fl s var w =
      let counted = record w.node { seq = w.seq + 1 } in
      elim (measure fl counted var s.draw) [
        | none ↦ (record w { node = counted }, none)
        | some (n, value) ↦
            (let (w', more) = send_datagram s.goes var value (record w { node = n }) in
              (w', some more))
      ]

  abbrev pub go_on : Option Bool → World F × Exit → World F → World F × Exit
  go_on none rest w = (w, raised value_error)
  go_on (some true) rest w = rest
  go_on (some false) rest w = (w, returned)

  unfoldable pub send_all : FloatOps F → (Text → Shot F) → List Text → World F → World F × Exit
  send_all fl shots [] w = (w, returned)
  send_all fl shots (var ∷ rest) w =
      let (w', more) = send_one fl (shots var) var w in
      let later = send_all fl shots rest w' in go_on more later w'

  unfoldable pub send_telemetry : FloatOps F → (Text → Shot F) → World F → World F × Exit
  unfolding send_all
  send_telemetry fl shots = send_all fl shots vars

  -- one reply in `check_nack`
  unfoldable pub note_reply : Bytes → World F → World F
  note_reply bytes w =
      let text = strip (decode bytes) in
      let heard = emit (udp_reply text) w in
      if starts_with (codes "NACK|104") text
      then record heard { node = record heard.node { nacks = w.nacks + 1; registered = false } }
      else heard

  unfoldable pub check_nack : List Answer → World F → World F × Exit
  unfolding note_reply
  check_nack [] w = (w, returned)
  check_nack (reply bytes ∷ rest) w = check_nack rest (note_reply bytes w)
  check_nack (unreachable ∷ rest) w =
      (record w { node = record w.node { registered = false } }, returned)
  check_nack (fails ∷ rest) w = (w, raised os_error)
