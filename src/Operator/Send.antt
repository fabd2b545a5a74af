-- ===== src/Operator/Send.antt =====
-- operator_client/operator_client.py: `send` and one round of `listen_alerts`, each of them one step
-- under the lock.
use telematica_telemetria.Base.{
  ℕ, zero, suc, Bool, true, false, ◌&&◌, ◌||◌, not, List, [], ◌∷◌, ◌++◌, if◌then◌else◌,
}
use telematica_telemetria.Base.Text.{Text, Bytes, codes, starts_with, text_eq}
use telematica_telemetria.Base.Codec.{encode}
use telematica_telemetria.Base.{length}
use telematica_telemetria.Operator.State.{
  Outcome, got, raised, unfinished, timed_out, broken_pipe, Operator, delivered,
}
use telematica_telemetria.Operator.Receive.{readline}

abbrev pub is_nil : List Text → Bool
is_nil [] = true
is_nil (_ ∷ _) = false

-- `line.startswith(("OK|NODES", "OK|LAST", "OK|ALERTS"))`
unfoldable pub is_multi : Text → Bool
is_multi line =
    starts_with (codes "OK|NODES") line
    || starts_with (codes "OK|LAST") line
    || starts_with (codes "OK|ALERTS") line

-- One line in the loop of `send`, with the lines so far and `multi`: the alert that is printed, or
-- the lines, `multi` and whether the loop ends.
unfoldable pub is_early_alert : Operator → List Text → Text → Bool
is_early_alert op lines line = starts_with (codes "ALERT|") line && op.subscribed && is_nil lines

unfoldable pub still_multi : Bool → List Text → Text → Bool
unfolding is_multi
still_multi multi lines line = if is_nil lines then is_multi line else multi

-- The loop of `send`. Every round takes a line off the stream, so the bytes that are pending bound
-- the rounds.
unfoldable pub collect : ℕ → List Text → Bool → Operator → Outcome (List Text) × Operator
collect zero lines multi op = (unfinished, op)
collect (suc fuel) lines multi op =
    let (r, op') = readline op in
    elim r [
      | got line ↦
          (let multi' = still_multi multi lines line in
            let lines' = lines ++ line ∷ [] in
            let skip = collect fuel lines multi (record op' { alerts = op'.alerts ++ line ∷ [] }) in
            let more = collect fuel lines' multi' op' in
            if is_early_alert op' lines line
            then skip
            else if not multi' || text_eq line (codes "END")
            then (got lines', op')
            else more)
      | raised e ↦ (raised e, op')
      | unfinished ↦ (unfinished, op')
    ]

-- The bytes that are still to be read.
abbrev pub pending : Operator → Bytes
pending op = op.buf ++ delivered op.inbox

-- `send`; `goes` says whether `sendall` succeeds
unfoldable pub send : Bool → Text → Operator → Outcome (List Text) × Operator
unfolding collect
send false cmd op = (raised broken_pipe, op)
send true cmd op =
    let op' = record op { outbox = op.outbox ++ encode (cmd ++ b'\n' ∷ []) ∷ [] } in
    collect (suc (length (pending op'))) [] false op'

-- One round of the loop of `listen_alerts`, and whether the loop goes on: it does after a time out,
-- with what has arrived kept in the buffer.
unfoldable pub listen_once : Operator → Bool × Operator
listen_once op =
    let (r, op') = readline op in
    elim r [
      | got line ↦ (true, record op' { alerts = op'.alerts ++ line ∷ [] })
      | raised timed_out ↦ (true, op')
      | raised _ ↦ (false, op')
      | unfinished ↦ (false, op')
    ]
