-- ===== src/Server/Reply.antt =====
-- server/src/protocol.c: `append` and `err`, and the lines of the replies.
use telematica_telemetria.Base.{ℕ, ◌-◌, List, [], ◌∷◌, ◌++◌, if◌then◌else◌, leb, length}
use telematica_telemetria.Base.Text.{Text, codes, show_nat}
use telematica_telemetria.Server.Slots.{Slot, Measure, cut, count_nodes}
use telematica_telemetria.Server.Alerts.{Alert}
use telematica_telemetria.Server.State.{Server}

-- The buffer of a reply: the bytes that are counted in `used`, and those of an `append` that did not fit
-- and left the beginning of its line behind them.
pub record Out : Type 0 where
  pub used : Text
  pub tail : Text

abbrev pub empty_out : Out
empty_out = record { used = []; tail = [] }

-- `append`
unfoldable pub append : ℕ → Text → Out → Out
append cap line out =
    if leb (cap - length out.used) (length line)
    then record { used = out.used; tail = cut (cap - length out.used) line }
    else record { used = out.used ++ line; tail = [] }

unfoldable pub append_all : ℕ → List Text → Out → Out
unfolding append
append_all cap [] out = out
append_all cap (line ∷ lines) out = append_all cap lines (append cap line out)

-- the string in the buffer
abbrev pub written : Out → Text
written out = out.used ++ out.tail

-- the string behind a series of `append`
unfoldable pub write_reply : ℕ → List Text → Text
unfolding append_all
write_reply cap lines = written (append_all cap lines empty_out)

-- `err`
unfoldable pub err : ℕ → ℕ → Text → Text
err cap code text = cut cap (codes "ERR|" ++ (show_nat code ++ (codes "|" ++ (text ++ b'\n' ∷ []))))

-- `(long)(now - at)`
unfoldable pub show_age : ℕ → ℕ → Text
show_age now at = if leb at now then show_nat (now - at) else b'-' ∷ show_nat (at - now)

abbrev pub show_state : Slot → Text
show_state n = if n.active then codes "ACTIVE" else codes "INACTIVE"

-- fields, each behind a bar
abbrev pub bars : List Text → Text
bars [] = []
bars (f ∷ fields) = b'|' ∷ (f ++ bars fields)

-- a line of several fields
abbrev pub row : Text → List Text → Text
row word fields = word ++ (bars fields ++ b'\n' ∷ [])

abbrev pub end_line : Text
end_line = codes "END\n"

unfoldable pub node_row : ℕ → Slot → Text
unfolding show_age
node_row now n = row (codes "NODE") (
    n.id
    ∷ n.location
    ∷ show_state n
    ∷ show_age now n.last_seen
    ∷ show_nat n.counts.received
    ∷ show_nat n.counts.lost
    ∷ [])

unfoldable pub node_rows : ℕ → List Slot → List Text
unfolding node_row
node_rows now [] = []
node_rows now (n ∷ slots) =
    let rest = node_rows now slots in if n.used then node_row now n ∷ rest else rest

-- the lines of LIST_NODES
unfoldable pub list_lines : ℕ → List Slot → List Text
unfolding node_rows
list_lines now slots =
    row (codes "OK") (codes "NODES" ∷ show_nat (count_nodes slots).0 ∷ [])
    ∷ (node_rows now slots ++ end_line ∷ [])

-- the line of GET_STATUS
unfoldable pub status_line : ℕ → Slot → Text
unfolding show_age
status_line now n = row (codes "OK") (
    codes "STATUS"
    ∷ n.id
    ∷ show_state n
    ∷ n.location
    ∷ show_age now n.last_seen
    ∷ show_nat n.counts.received
    ∷ show_nat n.counts.lost
    ∷ show_nat n.alerts
    ∷ [])

unfoldable pub measure_rows : ℕ → Text → List Measure → List Text
unfolding show_age
measure_rows now id [] = []
measure_rows now id (m ∷ vars) =
    row (codes "MEASURE") (id ∷ m.name ∷ m.value ∷ show_age now m.at ∷ [])
    ∷ measure_rows now id vars

-- the lines of GET_LAST
unfoldable pub last_lines : ℕ → Slot → List Text
unfolding measure_rows
last_lines now n =
    row (codes "OK") (codes "LAST" ∷ n.id ∷ show_nat (length n.vars) ∷ [])
    ∷ (measure_rows now n.id n.vars ++ end_line ∷ [])

unfoldable pub alert_rows : ℕ → List Alert → List Text
unfolding show_age
alert_rows now [] = []
alert_rows now (a ∷ alerts) =
    row (codes "ALERT") (a.node_id ∷ a.type ∷ a.value ∷ show_age now a.at ∷ [])
    ∷ alert_rows now alerts

-- the lines of GET_ALERTS
unfoldable pub alert_lines : ℕ → List Alert → List Text
unfolding alert_rows
alert_lines now alerts =
    row (codes "OK") (codes "ALERTS" ∷ show_nat (length alerts) ∷ [])
    ∷ (alert_rows now alerts ++ end_line ∷ [])

abbrev pub pair : Text → Text → Text
pair name value = name ++ (b'=' ∷ value)

abbrev pub pairs : List Text → Text
pairs [] = []
pairs (p ∷ []) = p
pairs (p ∷ q ∷ rest) = p ++ (b';' ∷ pairs (q ∷ rest))

-- the line of SYSTEM_STATUS
unfoldable pub system_line : ℕ → Server → Text
unfolding show_age
system_line now s =
    let (total, active) = count_nodes s.slots in
    row (codes "OK") (
      codes "SYSTEM"
      ∷ pairs (
          pair (codes "uptime") (show_age now s.stats.started_at)
          ∷ pair (codes "nodes") (show_nat total)
          ∷ pair (codes "active") (show_nat active)
          ∷ pair (codes "operators") (show_nat s.stats.operators_connected)
          ∷ pair (codes "udp_received") (show_nat s.stats.udp_received)
          ∷ pair (codes "udp_lost") (show_nat s.stats.udp_lost)
          ∷ pair (codes "udp_rejected") (show_nat s.stats.udp_rejected)
          ∷ pair (codes "udp_invalid") (show_nat s.stats.udp_invalid)
          ∷ pair (codes "tcp_commands") (show_nat s.stats.tcp_commands)
          ∷ pair (codes "alerts") (show_nat s.stats.alerts_total)
          ∷ [])
      ∷ [])
