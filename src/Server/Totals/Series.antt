-- ===== src/Server/Totals/Series.antt =====
-- server/src: the commands, the rounds of the watchdog and the runs leave the totals the sums of the
-- counters.
use telematica_telemetria.Base.{
  ℕ, zero, suc, ◌+◌, ◌%◌, ◌^◌, Bool, true, false, ◌&&◌, some, List, [], ◌∷◌, ◌≡◌, refl, arith,
  get_elem?, set, Bool-cases, Option-cases, inl, inr, ap, sym, replicate, get_elem?-set_self,
  get_elem?-lt,
}
use telematica_telemetria.Base.Text.{Text, Bytes, codes}
use telematica_telemetria.Server.Strings.{Doubles, tlp_valid_id}
use telematica_telemetria.Server.Slots.{
  Slot, find_node, loc_len, register_node, max_nodes, empty_slot,
}
use telematica_telemetria.Server.State.{Server, start_server}
use telematica_telemetria.Server.Tcp.{do_register, do_bye, handle_tcp, leave}
use telematica_telemetria.Server.Udp.{fits}
use telematica_telemetria.Server.Client.{Incoming, line, too_long, handle_incoming}
use telematica_telemetria.Server.Watchdog.{is_silent, retire, watch_slot, watch_from, watch}
use telematica_telemetria.Server.Dispatch.{handle_tcp-keeps, Any, All-Any}
use telematica_telemetria.Server.Watch.Round.{found_there, silent_used}
use telematica_telemetria.Server.Totals.Actions.{handle_udp-Balanced}
use telematica_telemetria.Server.Steps.{
  Action, datagram, command, tick, opened, closed, Timed, open_client, close_client, act,
  run_server,
}
use telematica_telemetria.Server.Totals.{
  total, received, lost, alerts, Balanced, total-at_node_same, total-set, add_alert-Balanced,
  slots-Balanced, stats-Balanced, register_node-SameTotals,
}

module _ (udp_port fd cap now : ℕ) where
  do_register-Balanced :
      (id loc : Text) (s : Server)
      → Balanced s
      → Balanced (do_register udp_port fd cap now id loc s).0
  unfolding do_register
  do_register-Balanced id loc s h = elim (Bool-cases (tlp_valid_id id && fits loc_len loc)) [
    | inr bad ↦ rw bad h
    | inl ok ↦ elim (Option-cases (register_node now id loc s.slots)) [
      | inl full ↦ rw (ok, full, do_register) h
      | inr (slots, e) ↦
          rw (ok, e, do_register)
            (slots-Balanced slots s (register_node-SameTotals now id loc s.slots slots e) h)
    ]
  ]

  do_bye-Balanced :
      (id : Text) (s : Server) → Balanced s → Balanced (do_bye udp_port fd cap now id s).0
  unfolding do_bye
  do_bye-Balanced id s h = elim (Option-cases (find_node id s.slots)) [
    | inl e ↦ rw (e, do_bye) h
    | inr (n, e) ↦
        let same = λ (f : Slot → ℕ) (k : (n : Slot) → f (leave udp_port fd cap now n) ≡ f n).
          total-at_node_same f (leave udp_port fd cap now) id s.slots (λ n. (refl, refl)) k in
        rw (e, do_bye)
          (slots-Balanced _ s
            (same received (λ n. refl), same lost (λ n. refl), same alerts (λ n. refl)) h)
  ]

  handle_tcp-Balanced :
      (l : Bytes) (s : Server) → Balanced s → Balanced (handle_tcp udp_port fd cap now l s).0
  handle_tcp-Balanced l s h =
      handle_tcp-keeps Balanced Any udp_port fd cap now
        (λ id loc s _ _. do_register-Balanced id loc s) (λ id s _. do_bye-Balanced id s)
        (λ s h. record {
          all_received = h.all_received;
          all_lost = h.all_lost;
          all_alerts = h.all_alerts;
        })
        (λ s. stats-Balanced _ s refl refl refl) l s (All-Any _) h

handle_incoming-Balanced :
    (udp_port fd now : ℕ) (l : Incoming) (s : Server)
    → Balanced s
    → Balanced (handle_incoming udp_port fd now l s).0
unfolding handle_incoming
handle_incoming-Balanced udp_port fd now (line l) s h =
    handle_tcp-Balanced udp_port fd 8192 now l s h
handle_incoming-Balanced udp_port fd now too_long s h = h

module _ (fails : ℕ → Bool) (now : ℕ) where
  -- the node of a slot is found, so that its alert is counted twice
  retire-Balanced :
      (i : ℕ) (n : Slot) (s : Server)
      → get_elem? s.slots i ≡ some n
      → n.used ≡ true
      → Balanced s
      → Balanced (retire fails now i n s)
  unfolding retire
  retire-Balanced i n s e u h =
      let quiet = record n { active = false; inactive_alerted = true } in
      let same = λ (f : Slot → ℕ) (k : f quiet ≡ f n). total-set f i n quiet s.slots e refl k in
      let marked =
        slots-Balanced (set s.slots i quiet) s
          (same received refl, same lost refl, same alerts refl) h in
      let at = get_elem?-set_self s.slots i quiet (get_elem?-lt s.slots i n e) in
      let (m, found) = found_there (set s.slots i quiet) i quiet at u in
      elim (Bool-cases n.inactive_alerted) [
        | inl b ↦ rw b marked
        | inr b ↦
            rw b (add_alert-Balanced fails now n.id (codes "NODE_INACTIVE") _ m _ found marked)
      ]

  watch_slot-Balanced : (i : ℕ) (s : Server) → Balanced s → Balanced (watch_slot fails now i s)
  unfolding watch_slot
  watch_slot-Balanced i s h = elim (Option-cases (get_elem? s.slots i)) [
    | inl e ↦ rw (e, watch_slot) h
    | inr (n, e) ↦ elim (Bool-cases (is_silent now n)) [
      | inl q ↦ rw (e, watch_slot, q) (retire-Balanced i n s e (silent_used now n q) h)
      | inr q ↦ rw (e, watch_slot, q) h
    ]
  ]

  watch_from-Balanced :
      (i count : ℕ) (s : Server) → Balanced s → Balanced (watch_from fails now i count s)
  unfolding watch_from
  watch_from-Balanced i zero s h = h
  watch_from-Balanced i (suc count) s h =
      watch_from-Balanced (i + 1) count (watch_slot fails now i s) (watch_slot-Balanced i s h)

  watch-Balanced : (s : Server) → Balanced s → Balanced (watch fails now s)
  unfolding watch
  watch-Balanced s h = watch_from-Balanced 0 max_nodes s h

total-replicate : (f : Slot → ℕ) (n : ℕ) → total f (replicate n empty_slot) ≡ 0
total-replicate f zero = refl
total-replicate f (suc n) = omega (arith, total-replicate f n)

start_server-Balanced : (now : ℕ) → Balanced (start_server now)
unfolding start_server
start_server-Balanced now = record {
  all_received = ap (λ t. t % 2 ^ 64) (sym (total-replicate received max_nodes));
  all_lost = ap (λ t. t % 2 ^ 64) (sym (total-replicate lost max_nodes));
  all_alerts = ap (λ t. t % 2 ^ 64) (sym (total-replicate alerts max_nodes));
}

module _ {F : Type 0} (dbl : Doubles F) (udp_port : ℕ) where
  act-Balanced :
      (a : Action) (now : ℕ) (fails : ℕ → Bool) (s : Server)
      → Balanced s
      → Balanced (act dbl udp_port a now fails s)
  unfolding act open_client close_client
  act-Balanced (datagram bytes) now fails s h = handle_udp-Balanced dbl fails now bytes s h
  act-Balanced (command fd l) now fails s h = handle_incoming-Balanced udp_port fd now l s h
  act-Balanced tick now fails s h = watch-Balanced fails now s h
  act-Balanced opened now fails s h = stats-Balanced _ s refl refl refl h
  act-Balanced (closed fd) now fails s h = record {
    all_received = h.all_received;
    all_lost = h.all_lost;
    all_alerts = h.all_alerts;
  }

  run_server-keeps :
      (actions : List Timed) (s : Server)
      → Balanced s
      → Balanced (run_server dbl udp_port actions s)
  unfolding run_server
  run_server-keeps [] s h = h
  run_server-keeps (t ∷ actions) s h =
      run_server-keeps actions _ (act-Balanced t.action t.now t.fails s h)

  -- Behind every series of actions from the start of the server, the totals of received and of lost
  -- datagrams and of alerts are the sums, modulo 2 ^ 64, of the counters of the nodes of the table.
  pub run_server-Balanced :
      (actions : List Timed) (now : ℕ)
      → Balanced (run_server dbl udp_port actions (start_server now))
  run_server-Balanced actions now =
      run_server-keeps actions (start_server now) (start_server-Balanced now)
