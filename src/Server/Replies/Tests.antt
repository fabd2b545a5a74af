-- ===== src/Server/Replies/Tests.antt =====
-- server/src/protocol.c and operator_client/operator_client.py: a reply at work.
use telematica_telemetria.Base.{false, List, [], ◌∷◌, ◌≡◌, ◌⊎◌, ◌≤◌, ◌<◌, arith, length}
use telematica_telemetria.Base.Text.{Text, codes}
use telematica_telemetria.Operator.State.{Operator, chunk}
use telematica_telemetria.Server.State.{Server, start_server}
use telematica_telemetria.Server.Client.{line}
use telematica_telemetria.Server.Reply.{write_reply}
use telematica_telemetria.Server.Framing.{concat}
use telematica_telemetria.Server.Buffer.{write_reply_lem}
use telematica_telemetria.Server.Steps.{Timed, datagram, command, run_server}
use telematica_telemetria.Server.Tests.{dbl, at_time}

abbrev two : List Text
two = codes "OK|NODES|1\n" ∷ codes "END\n" ∷ []

write_reply_lem_example :
    (length (write_reply 64 two) < 64)
    × ((write_reply 64 two ≡ concat two) ⊎ (64 ≤ length (concat two)))
write_reply_lem_example = write_reply_lem 64 two (omega arith)

-- a node registers and sends a temperature
abbrev actions : List Timed
actions =
    at_time 2 (command 5 (line (codes "REGISTER|NODE01|Lab|TEMP")))
    ∷ at_time 3 (datagram (codes "TELEMETRY|NODE01|1|TEMP|24\n"))
    ∷ []

-- the operator asks for the nodes, and the answer comes in two packets
abbrev asking : Operator
asking = record {
  buf = [];
  subscribed = false;
  inbox =
      chunk b'O' (codes "K|NODES|1\nNODE|NO")
      ∷ chunk b'D' (codes "E01|Lab|ACTIVE|6|1|0\nEND\n")
      ∷ [];
  outbox = [];
  alerts = [];
}

abbrev server : Server
server = run_server dbl 5000 actions (start_server 0)
