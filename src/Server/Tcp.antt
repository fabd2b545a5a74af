-- ===== src/Server/Tcp.antt =====
-- server/src/protocol.c: `tlp_handle_tcp`. The clock is read once for a call.
use telematica_telemetria.Base.{
  ℕ, Bool, true, false, not, ◌&&◌, ◌||◌, none, some, List, [], ◌∷◌, length, leb, ◌==◌,
  if◌then◌else◌,
}
use telematica_telemetria.Base.Text.{Text, Bytes, codes, text_eq, show_nat}
use telematica_telemetria.Server.Slots.{Slot, find_node, at_node, register_node, loc_len, cut}
use telematica_telemetria.Server.Alerts.{snapshot, subscribe}
use telematica_telemetria.Server.State.{Server, inc64}
use telematica_telemetria.Server.Strings.{until_nul, trim_crlf, tlp_split, tlp_valid_id, strtol}
use telematica_telemetria.Server.Reply.{
  write_reply, err, row, list_lines, status_line, last_lines, alert_lines, system_line,
}
use telematica_telemetria.Server.Udp.{max_fields, fits}

-- The state behind a command, its reply, and whether the connection is to be closed.
abbrev pub Handled : Type 0
Handled = Server × (Text × Bool)

-- `g_udp_port`, the descriptor of the connection, the size of the buffer and the time
module _ (udp_port fd cap now : ℕ) where
  abbrev pub refuse : ℕ → Text → Server → Handled
  refuse code text s = (s, (err cap code text, false))

  abbrev pub answer : Text → Server → Handled
  answer line s = (s, (cut cap line, false))

  -- REGISTER; the field behind the location is logged only
  unfoldable pub do_register : Text → Text → Server → Handled
  do_register id loc s =
      if tlp_valid_id id && fits loc_len loc
      then elim (register_node now id loc s.slots) [
        | none ↦ refuse 106 (codes "SERVER_FULL") s
        | some slots ↦
            answer (row (codes "OK") (codes "REGISTERED" ∷ id ∷ show_nat udp_port ∷ []))
              (record s { slots = slots })
      ]
      else refuse 103 (codes "BAD_PARAM") s

  abbrev pub leave : Slot → Slot
  leave n = record n { active = false; inactive_alerted = true }

  -- BYE
  unfoldable pub do_bye : Text → Server → Handled
  do_bye id s = elim (find_node id s.slots) [
    | none ↦ refuse 102 (codes "UNKNOWN_NODE") s
    | some _ ↦ answer (codes "OK|BYE\n") (record s { slots = at_node id leave s.slots })
  ]

  -- GET_STATUS and GET_LAST; `true` is the first
  unfoldable pub do_get : Bool → Text → Server → Handled
  do_get is_status id s =
      if tlp_valid_id id
      then elim (find_node id s.slots) [
        | none ↦ refuse 102 (codes "UNKNOWN_NODE") s
        | some n ↦ (
          s,
          (write_reply cap (if is_status then status_line now n ∷ [] else last_lines now n), false),
        )
      ]
      else refuse 103 (codes "BAD_PARAM") s

  unfoldable pub send_alerts : ℕ → Server → Handled
  send_alerts max s = (s, (write_reply cap (alert_lines now (snapshot max s.ring)), false))

  -- GET_ALERTS
  unfoldable pub do_alerts : List Text → Server → Handled
  unfolding send_alerts
  do_alerts [] s = send_alerts 20 s
  do_alerts (limit ∷ more) s =
      let n = strtol limit in
      if not (length n.rest == 0) || n.negative || n.size == 0 || not (leb n.size 100)
      then refuse 103 (codes "BAD_PARAM") s
      else send_alerts n.size s

  unfoldable pub with_one : (Text → Server → Handled) → List Text → Server → Handled
  with_one command [] s = refuse 100 (codes "BAD_FORMAT") s
  with_one command (id ∷ more) s = command id s

  unfoldable pub with_two : (Text → Text → Server → Handled) → List Text → Server → Handled
  with_two command (a ∷ b ∷ more) s = command a b s
  with_two command _ s = refuse 100 (codes "BAD_FORMAT") s

  -- the commands, by the first field
  unfoldable pub dispatch : Text → List Text → Server → Handled
  unfolding do_register do_bye do_get do_alerts with_one with_two
  dispatch cmd args s =
      if text_eq cmd (codes "PING")
      then answer (codes "OK|PONG\n") s
      else if text_eq cmd (codes "QUIT")
      then (s, (cut cap (codes "OK|BYE\n"), true))
      else if text_eq cmd (codes "REGISTER")
      then with_two do_register args s
      else if text_eq cmd (codes "BYE")
      then with_one do_bye args s
      else if text_eq cmd (codes "LIST_NODES")
      then (s, (write_reply cap (list_lines now s.slots), false))
      else if text_eq cmd (codes "GET_STATUS")
      then with_one (do_get true) args s
      else if text_eq cmd (codes "GET_LAST")
      then with_one (do_get false) args s
      else if text_eq cmd (codes "GET_ALERTS")
      then do_alerts args s
      else if text_eq cmd (codes "SYSTEM_STATUS")
      then answer (system_line now s) s
      else if text_eq cmd (codes "SUBSCRIBE_ALERTS")
      then answer (codes "OK|SUBSCRIBED\n") (record s { subscribers = subscribe fd s.subscribers })
      else refuse 101 (codes "UNKNOWN_COMMAND") s

  -- the fields of a line that is not empty; `tcp_commands` counts it
  unfoldable pub run_fields : List Text → Server → Handled
  unfolding dispatch
  run_fields [] s = refuse 100 (codes "BAD_FORMAT") s
  run_fields (cmd ∷ args) s =
      dispatch cmd args
        (record s { stats = record s.stats { tcp_commands = inc64 s.stats.tcp_commands } })

  -- `tlp_handle_tcp`, of the bytes of a line
  unfoldable pub handle_tcp : Bytes → Server → Handled
  unfolding run_fields
  handle_tcp line s =
      let text = trim_crlf (until_nul line) in
      if length text == 0
      then refuse 100 (codes "BAD_FORMAT") s
      else run_fields (tlp_split max_fields text) s
