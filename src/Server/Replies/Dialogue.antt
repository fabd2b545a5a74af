-- ===== src/Server/Replies/Dialogue.antt =====
-- server/src/protocol.c and operator_client/operator_client.py: a command of the operator, from the bytes
-- of the server's reply to the lines that `send` returns.
use telematica_telemetria.Base.{
  ℕ, ◌≤◌, true, List, [], ◌∷◌, ◌++◌, map, ◌≡◌, ◌≢◌, ◌⊎◌, inl, inr, ap, ◌∙◌, All, length, arith,
}
use telematica_telemetria.Base.Text.{Text, Bytes}
use telematica_telemetria.Base.Codec.{encode}
use telematica_telemetria.Operator.State.{Operator}
use telematica_telemetria.Operator.Receive.{read_text}
use telematica_telemetria.Operator.Send.{pending, send}
use telematica_telemetria.Operator.Framing.{Steady}
use telematica_telemetria.Operator.Collect.{wire, Replied}
use telematica_telemetria.Operator.Reply.{IsAlert, IsReply, send_one_reply}
use telematica_telemetria.Server.State.{Server}
use telematica_telemetria.Server.Reply.{write_reply}
use telematica_telemetria.Server.Framing.{concat}
use telematica_telemetria.Server.Buffer.{write_reply_lem}
use telematica_telemetria.Server.Client.{Incoming, handle_incoming}
use telematica_telemetria.Server.Replies.Clean.{IsClean}
use telematica_telemetria.Server.Replies.Commands.{handle_incoming-Answered}

-- Where no text of the server's state holds a line break, `send` returns what the server writes.
pub send_served :
    (udp_port fd now : ℕ) (l : Incoming) (s : Server) (op : Operator) (cmd : Text)
    (alerts : List Bytes) (rest : Bytes)
    → IsClean s
    → Steady op.inbox
    → (alerts ≢ [] → op.subscribed ≡ true)
    → All IsAlert alerts
    → pending op ≡ wire alerts ++ ((handle_incoming udp_port fd now l s).1.0 ++ rest)
    → (lines : List Bytes) × (rows : List Text) × IsReply lines
      × (concat rows ≡ wire lines)
      × ((handle_incoming udp_port fd now l s).1.0 ≡ write_reply 8192 rows)
      × (((handle_incoming udp_port fd now l s).1.0 ≡ wire lines)
            × Replied
                (record op { outbox = op.outbox ++ encode (cmd ++ b'\n' ∷ []) ∷ [] })
                (map read_text lines)
                (map read_text alerts)
                rest
                (send true cmd op)
          ⊎ (8192 ≤ length (wire lines)))
send_served udp_port fd now l s op cmd alerts rest clean st sub al p =
    let a = handle_incoming-Answered udp_port fd now l s clean in
    (
      a.lines,
      a.rows,
      a.shape,
      a.same,
      a.text,
      elim (write_reply_lem 8192 a.rows (omega arith)).1 [
        | inr over ↦ inr (omega (arith, over, ap length a.same))
        | inl fits ↦
            let all = a.text ∙ fits ∙ a.same in
            inl (
              all,
              send_one_reply op cmd alerts a.lines rest st sub al a.shape
                  (p ∙ ap (λ (t : Bytes). wire alerts ++ (t ++ rest)) all),
            )
      ],
    )
