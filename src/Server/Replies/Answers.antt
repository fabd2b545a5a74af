-- ===== src/Server/Replies/Answers.antt =====
-- server/src/protocol.c and operator_client/operator_client.py: the reply to each command is a reply to
-- the operator.
use mathlib.Core.Path.{subst}
use telematica_telemetria.Base.{
  map, ℕ, Bool, true, false, not, ◌&&◌, ◌||◌, List, [], ◌∷◌, ◌++◌, ◌≡◌, ◌≢◌, refl, arith, leb,
  length, sym, if◌then◌else◌, if_either, Bool-cases, Option-cases, inl, inr, All, All-append,
  append_assoc, ◌==◌,
}
use telematica_telemetria.Base.Text.{Text, OneLine, codes, show_nat, starts_with}
use telematica_telemetria.Operator.Send.{is_multi}
use telematica_telemetria.Server.Slots.{Slot, find_node, register_node, loc_len, cut, count_nodes}
use telematica_telemetria.Server.Alerts.{snapshot}
use telematica_telemetria.Server.State.{Server}
use telematica_telemetria.Server.Strings.{tlp_valid_id, all_id_chars, is_id_char, strtol}
use telematica_telemetria.Server.Udp.{fits}
use telematica_telemetria.Server.Reply.{
  err, bars, list_lines, status_line, last_lines, alert_lines, system_line, show_age, show_state,
  pair, pairs, write_reply, alert_rows, measure_rows, node_rows,
}
use telematica_telemetria.Server.Tcp.{
  Handled, do_register, do_bye, do_get, send_alerts, do_alerts, refuse,
}
use telematica_telemetria.Server.Buffer.{write_reply_one}
use telematica_telemetria.Server.Replies.{Answered, single-Answered, long-Answered}
use telematica_telemetria.Server.Replies.Clean.{
  IsClean, IsCleanSlot, show_nat-OneLine, show_age-OneLine, show_state-OneLine, pairs-OneLine,
  pair-OneLine, find_node-IsCleanSlot, node_rows-IsBody, measure_rows-IsBody, alert_rows-IsBody,
  snapshot-IsCleanAlert, line_of-OneLine,
}

pub err-Answered : (code : ℕ) (text : Text) → OneLine text → Answered (err 8192 code text)
unfolding err starts_with is_multi
err-Answered code text h =
    let rest = show_nat code ++ (b'|' ∷ text) in
    let ol =
      All-append (λ c. c ≢ b'\n') (show_nat code) (b'|' ∷ text) (show_nat-OneLine code)
        (ground arith, h) in
    subst (λ (t : Text). Answered (cut 8192 (codes "ERR|" ++ t)))
      (append_assoc (show_nat code) (b'|' ∷ text) (b'\n' ∷ []))
      (single-Answered (codes "ERR|") rest (omega arith)
        (All-append (λ c. c ≢ b'\n') (codes "ERR|") rest (ground arith) ol) (λ t. refl) (λ t. refl))

id_chars-OneLine : (s : Text) → all_id_chars s ≡ true → OneLine s
unfolding all_id_chars is_id_char
id_chars-OneLine [] h = tt
id_chars-OneLine (c ∷ s) h = (ground arith, id_chars-OneLine s (ground arith))

valid-OneLine : (id : Text) → tlp_valid_id id ≡ true → OneLine id
unfolding tlp_valid_id
valid-OneLine id h = id_chars-OneLine id (ground arith)

counts-OneLine :
    (counts : List (Text × ℕ))
    → All (λ c. OneLine c.0) counts
    → All OneLine (map (λ c. pair c.0 (show_nat c.1)) counts)
counts-OneLine [] h = tt
counts-OneLine (c ∷ counts) h =
    (pair-OneLine c.0 (show_nat c.1) h.0 (show_nat-OneLine c.1), counts-OneLine counts h.1)

module _ (udp_port fd now : ℕ) where
  -- a refusal, and an answer of one line
  refuse-Answered :
      (code : ℕ) (text : Text) (s : Server)
      → OneLine text
      → Answered (refuse udp_port fd 8192 now code text s).1.0
  refuse-Answered code text s h = err-Answered code text h

  pub do_register-Answered :
      (id loc : Text) (s : Server) → Answered (do_register udp_port fd 8192 now id loc s).1.0
  unfolding do_register starts_with is_multi
  do_register-Answered id loc s = elim (Bool-cases (tlp_valid_id id && fits loc_len loc)) [
    | inr bad ↦ rw bad (err-Answered 103 (codes "BAD_PARAM") (ground arith))
    | inl ok ↦ elim (Option-cases (register_node now id loc s.slots)) [
      | inl full ↦
          rw (ok, full, do_register) (err-Answered 106 (codes "SERVER_FULL") (ground arith))
      | inr (slots, e) ↦
          let fields = id ∷ show_nat udp_port ∷ [] in
          rw (ok, e, do_register)
            (single-Answered (codes "OK|REGISTERED") (bars fields) (omega arith)
              (line_of-OneLine (codes "OK|REGISTERED") fields (ground arith)
                (valid-OneLine id (ground arith), (show_nat-OneLine udp_port, tt)))
              (λ t. refl) (λ t. refl))
    ]
  ]

  pub do_bye-Answered : (id : Text) (s : Server) → Answered (do_bye udp_port fd 8192 now id s).1.0
  unfolding do_bye starts_with is_multi
  do_bye-Answered id s = elim (Option-cases (find_node id s.slots)) [
    | inl e ↦ rw (e, do_bye) (err-Answered 102 (codes "UNKNOWN_NODE") (ground arith))
    | inr (n, e) ↦
        rw (e, do_bye)
          (single-Answered (codes "OK|BYE") [] (omega arith) (ground arith) (λ t. refl) (λ t. refl))
  ]

  status-Answered :
      (n : Slot) → IsCleanSlot n → Answered (write_reply 8192 (status_line now n ∷ []))
  unfolding status_line starts_with is_multi
  status-Answered n h =
      let fields =
        n.id
        ∷ show_state n
        ∷ n.location
        ∷ show_age now n.last_seen
        ∷ show_nat n.counts.received
        ∷ show_nat n.counts.lost
        ∷ show_nat n.alerts
        ∷ [] in
      let clean : All OneLine fields = (
        h.id,
        (
          show_state-OneLine n,
          (
            h.location,
            (
              show_age-OneLine now n.last_seen,
              (
                show_nat-OneLine n.counts.received,
                (show_nat-OneLine n.counts.lost, (show_nat-OneLine n.alerts, tt)),
              ),
            ),
          ),
        ),
      ) in
      subst Answered (sym (write_reply_one 8192 (status_line now n) (omega arith))) (
        single-Answered (codes "OK|STATUS") (bars fields) (omega arith)
          (line_of-OneLine (codes "OK|STATUS") fields (ground arith) clean) (λ t. refl) (λ t. refl))

  last-Answered : (n : Slot) → IsCleanSlot n → Answered (write_reply 8192 (last_lines now n))
  unfolding last_lines starts_with is_multi
  last-Answered n h =
      let fields = n.id ∷ show_nat (length n.vars) ∷ [] in
      long-Answered (codes "OK|LAST") (bars fields) (measure_rows now n.id n.vars) (omega arith)
        (line_of-OneLine (codes "OK|LAST") fields (ground arith)
          (h.id, (show_nat-OneLine (length n.vars), tt)))
        (λ t. refl) (λ t. refl) (measure_rows-IsBody now n.id n.vars h.id h.vars)

  pub do_get-Answered :
      (is_status : Bool) (id : Text) (s : Server)
      → IsClean s
      → Answered (do_get udp_port fd 8192 now is_status id s).1.0
  unfolding do_get
  do_get-Answered b id s h = elim (Bool-cases (tlp_valid_id id)) [
    | inr bad ↦ rw bad (err-Answered 103 (codes "BAD_PARAM") (ground arith))
    | inl ok ↦ elim (Option-cases (find_node id s.slots)) [
      | inl none_there ↦
          rw (ok, none_there, do_get) (err-Answered 102 (codes "UNKNOWN_NODE") (ground arith))
      | inr (n, e) ↦
          let clean = find_node-IsCleanSlot id s.slots n h.slots e in
          rw (ok, e, do_get)
            (elim b
              as (λ b.
                Answered
                  (write_reply 8192 (if b then status_line now n ∷ [] else last_lines now n))) [
                    | true ↦ status-Answered n clean
                    | false ↦ last-Answered n clean
                  ])
    ]
  ]

  alerts-Answered :
      (max : ℕ) (s : Server) → IsClean s → Answered (send_alerts udp_port fd 8192 now max s).1.0
  unfolding send_alerts alert_lines starts_with is_multi
  alerts-Answered max s h =
      let alerts = snapshot max s.ring in
      let fields = show_nat (length alerts) ∷ [] in
      long-Answered (codes "OK|ALERTS") (bars fields) (alert_rows now alerts) (omega arith)
        (line_of-OneLine (codes "OK|ALERTS") fields (ground arith)
          (show_nat-OneLine (length alerts), tt))
        (λ t. refl) (λ t. refl)
        (alert_rows-IsBody now alerts (snapshot-IsCleanAlert max s.ring h.cells))

  pub do_alerts-Answered :
      (args : List Text) (s : Server)
      → IsClean s
      → Answered (do_alerts udp_port fd 8192 now args s).1.0
  unfolding do_alerts
  do_alerts-Answered [] s h = alerts-Answered 20 s h
  do_alerts-Answered (limit ∷ more) s h =
      let n = strtol limit in
      if_either (λ (r : Handled). Answered r.1.0)
        (not (length n.rest == 0) || n.negative || n.size == 0 || not (leb n.size 100))
        (err-Answered 103 (codes "BAD_PARAM") (ground arith)) (alerts-Answered n.size s h)

  pub list-Answered :
      (s : Server) → IsClean s → Answered (write_reply 8192 (list_lines now s.slots))
  unfolding list_lines starts_with is_multi
  list-Answered s h =
      let fields = show_nat (count_nodes s.slots).0 ∷ [] in
      long-Answered (codes "OK|NODES") (bars fields) (node_rows now s.slots) (omega arith)
        (line_of-OneLine (codes "OK|NODES") fields (ground arith)
          (show_nat-OneLine (count_nodes s.slots).0, tt))
        (λ t. refl) (λ t. refl) (node_rows-IsBody now s.slots h.slots)

  pub system-Answered : (s : Server) → Answered (cut 8192 (system_line now s))
  unfolding system_line starts_with is_multi
  system-Answered s =
      let counts : List (Text × ℕ) =
        (codes "nodes", (count_nodes s.slots).0)
        ∷ (codes "active", (count_nodes s.slots).1)
        ∷ (codes "operators", s.stats.operators_connected)
        ∷ (codes "udp_received", s.stats.udp_received)
        ∷ (codes "udp_lost", s.stats.udp_lost)
        ∷ (codes "udp_rejected", s.stats.udp_rejected)
        ∷ (codes "udp_invalid", s.stats.udp_invalid)
        ∷ (codes "tcp_commands", s.stats.tcp_commands)
        ∷ (codes "alerts", s.stats.alerts_total)
        ∷ [] in
      let ps : List Text =
        pair (codes "uptime") (show_age now s.stats.started_at)
        ∷ map (λ (c : Text × ℕ). pair c.0 (show_nat c.1)) counts in
      let clean : All OneLine ps = (
        pair-OneLine (codes "uptime") (show_age now s.stats.started_at) (ground arith)
            (show_age-OneLine now s.stats.started_at),
        counts-OneLine counts (ground arith),
      ) in
      single-Answered (codes "OK|SYSTEM") (bars (pairs ps ∷ [])) (omega arith)
        (line_of-OneLine (codes "OK|SYSTEM") (pairs ps ∷ []) (ground arith)
          (pairs-OneLine ps clean, tt))
        (λ t. refl) (λ t. refl)
