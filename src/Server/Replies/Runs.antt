-- ===== src/Server/Replies/Runs.antt =====
-- server/src: no text of the state holds a line break, over a run of the server.
use telematica_telemetria.Base.{
  ℕ, zero, suc, ◌+◌, ◌-◌, Bool, true, false, ◌&&◌, some, List, [], ◌∷◌, ◌≡◌, refl, arith, if_either,
  Bool-cases, Option-cases, inl, inr, All, All-set, All-get_elem?, All-replicate, get_elem?, set,
}
use telematica_telemetria.Base.Text.{Text, Bytes, OneLine, codes, show_nat, contains}
use telematica_telemetria.Base.Text.Parts.{Lacks-of_contains}
use telematica_telemetria.Server.Strings.{Doubles, tlp_valid_id}
use telematica_telemetria.Server.Slots.{
  Slot, find_node, at_node, renew, new_slot, register_node, take_free, loc_len, id_len, empty_slot,
  max_nodes,
}
use telematica_telemetria.Server.Alerts.{no_alert}
use telematica_telemetria.Server.State.{Server, start_server}
use telematica_telemetria.Server.Udp.{max_fields, fits}
use telematica_telemetria.Server.Watchdog.{is_silent, retire, watch_slot, watch_from, watch}
use telematica_telemetria.Server.Tcp.{do_register, do_bye, leave, handle_tcp}
use telematica_telemetria.Server.Client.{Incoming, line, too_long, handle_incoming}
use telematica_telemetria.Server.Steps.{
  Action, datagram, command, tick, opened, closed, Timed, open_client, close_client, act,
  run_server,
}
use telematica_telemetria.Server.Dispatch.{handle_tcp-keeps}
use telematica_telemetria.Server.Sane.{All-at_node, All-take_free}
use telematica_telemetria.Server.Replies.Clean.{
  IsCleanSlot, IsCleanAlert, IsClean, show_nat-OneLine,
}
use telematica_telemetria.Server.Replies.Kept.{tlp_split-OneLine, cut-OneLine, add_alert-IsClean}
use telematica_telemetria.Server.Replies.Datagrams.{IsText, handle_udp-IsClean}

-- the commands of a connection
register_node-IsCleanSlot :
    (now : ℕ) (id loc : Text) (slots slots' : List Slot)
    → OneLine id
    → OneLine loc
    → All IsCleanSlot slots
    → register_node now id loc slots ≡ some slots'
    → All IsCleanSlot slots'
unfolding register_node renew new_slot
register_node-IsCleanSlot now id loc slots slots' oi ol h e =
    let renewed : (n : Slot) → IsCleanSlot n → IsCleanSlot (renew now loc n) =
      λ n k. record { id = k.id; location = cut-OneLine loc_len loc ol; vars = k.vars } in
    elim (Option-cases (find_node id slots)) [
      | inr (n, there) ↦
          let same : at_node id (renew now loc) slots ≡ slots' = ground (arith, there) in
          rw (← same) (All-at_node IsCleanSlot id (renew now loc) slots renewed h)
      | inl new ↦
          let slot = renew now loc (new_slot now id) in
          let found : take_free slot slots ≡ some slots' = ground (arith, new) in
          All-take_free IsCleanSlot slot slots slots'
            (renewed (new_slot now id)
              (record { id = cut-OneLine id_len id oi; location = tt; vars = tt }))
            h found
    ]

module _ (udp_port fd cap now : ℕ) where
  do_register-IsClean :
      (id loc : Text) (s : Server)
      → OneLine id
      → OneLine loc
      → IsClean s
      → IsClean (do_register udp_port fd cap now id loc s).0
  unfolding do_register
  do_register-IsClean id loc s oi ol h = elim (Bool-cases (tlp_valid_id id && fits loc_len loc)) [
    | inr bad ↦ rw bad h
    | inl ok ↦ elim (Option-cases (register_node now id loc s.slots)) [
      | inl full ↦ rw (ok, full, do_register) h
      | inr (slots, e) ↦
          rw (ok, e, do_register)
            (record {
              slots = register_node-IsCleanSlot now id loc s.slots slots oi ol h.slots e;
              cells = h.cells;
            })
    ]
  ]

  do_bye-IsClean :
      (id : Text) (s : Server)
      → OneLine id
      → IsClean s
      → IsClean (do_bye udp_port fd cap now id s).0
  unfolding do_bye
  do_bye-IsClean id s oi h = elim (Option-cases (find_node id s.slots)) [
    | inl e ↦ rw (e, do_bye) h
    | inr (n, e) ↦
        rw (e, do_bye)
          (record {
            slots =
                All-at_node IsCleanSlot id (leave udp_port fd cap now) s.slots
                  (λ n k. record { id = k.id; location = k.location; vars = k.vars }) h.slots;
            cells = h.cells;
          })
  ]

  handle_tcp-IsClean :
      (l : Bytes) (s : Server)
      → IsText l
      → IsClean s
      → IsClean (handle_tcp udp_port fd cap now l s).0
  handle_tcp-IsClean l s k h =
      handle_tcp-keeps IsClean OneLine udp_port fd cap now do_register-IsClean do_bye-IsClean
        (λ s h. record { slots = h.slots; cells = h.cells })
        (λ s h. record { slots = h.slots; cells = h.cells }) l s (tlp_split-OneLine max_fields _ k)
        h

-- the watchdog
module _ (fails : ℕ → Bool) (now : ℕ) where
  retire-IsClean :
      (i : ℕ) (n : Slot) (s : Server) → IsCleanSlot n → IsClean s → IsClean (retire fails now i n s)
  unfolding retire contains
  retire-IsClean i n s k h =
      let marked = record s {
        slots = set s.slots i (record n { active = false; inactive_alerted = true });
      } in
      let clean : IsClean marked = record {
        slots =
            All-set IsCleanSlot s.slots i _
              (record { id = k.id; location = k.location; vars = k.vars }) h.slots;
        cells = h.cells;
      } in
      if_either IsClean n.inactive_alerted clean (
        add_alert-IsClean fails now n.id (codes "NODE_INACTIVE") _ marked k.id
          (Lacks-of_contains b'\n' (codes "NODE_INACTIVE") refl)
          (cut-OneLine 16 (show_nat (now - n.last_seen)) (show_nat-OneLine (now - n.last_seen)))
          clean)

  watch_slot-IsClean : (i : ℕ) (s : Server) → IsClean s → IsClean (watch_slot fails now i s)
  unfolding watch_slot
  watch_slot-IsClean i s h = elim (Option-cases (get_elem? s.slots i)) [
    | inl e ↦ rw (e, watch_slot) h
    | inr (n, e) ↦
        rw (e, watch_slot)
          (if_either IsClean (is_silent now n)
            (retire-IsClean i n s (All-get_elem? IsCleanSlot s.slots i n e h.slots) h) h)
  ]

  watch_from-IsClean :
      (i count : ℕ) (s : Server) → IsClean s → IsClean (watch_from fails now i count s)
  unfolding watch_from
  watch_from-IsClean i zero s h = h
  watch_from-IsClean i (suc count) s h =
      watch_from-IsClean (i + 1) count (watch_slot fails now i s) (watch_slot-IsClean i s h)

-- an action whose bytes are text
abbrev pub IsTextAction : Action → Type 0
IsTextAction (datagram bytes) = IsText bytes
IsTextAction (command fd (line l)) = IsText l
IsTextAction (command fd too_long) = Unit
IsTextAction tick = Unit
IsTextAction opened = Unit
IsTextAction (closed fd) = Unit

handle_incoming-IsClean :
    (udp_port fd now : ℕ) (l : Incoming) (s : Server)
    → IsTextAction (command fd l)
    → IsClean s
    → IsClean (handle_incoming udp_port fd now l s).0
unfolding handle_incoming
handle_incoming-IsClean udp_port fd now (line l) s k h =
    handle_tcp-IsClean udp_port fd 8192 now l s k h
handle_incoming-IsClean udp_port fd now too_long s k h = h

module _ {F : Type 0} (dbl : Doubles F) (udp_port : ℕ) where
  act-IsClean :
      (a : Action) (now : ℕ) (fails : ℕ → Bool) (s : Server)
      → IsTextAction a
      → IsClean s
      → IsClean (act dbl udp_port a now fails s)
  unfolding act open_client close_client watch
  act-IsClean (datagram bytes) now fails s k h = handle_udp-IsClean dbl fails now bytes s k h
  act-IsClean (command fd l) now fails s k h = handle_incoming-IsClean udp_port fd now l s k h
  act-IsClean tick now fails s k h = watch_from-IsClean fails now 0 max_nodes s h
  act-IsClean opened now fails s k h = record { slots = h.slots; cells = h.cells }
  act-IsClean (closed fd) now fails s k h = record { slots = h.slots; cells = h.cells }

  run_server-keeps :
      (actions : List Timed) (s : Server)
      → All (λ (t : Timed). IsTextAction t.action) actions
      → IsClean s
      → IsClean (run_server dbl udp_port actions s)
  unfolding run_server
  run_server-keeps [] s k h = h
  run_server-keeps (t ∷ actions) s k h =
      run_server-keeps actions _ k.1 (act-IsClean t.action t.now t.fails s k.0 h)

  pub run_server-IsClean :
      (actions : List Timed) (now : ℕ)
      → All (λ (t : Timed). IsTextAction t.action) actions
      → IsClean (run_server dbl udp_port actions (start_server now))
  unfolding start_server
  run_server-IsClean actions now k = run_server-keeps actions (start_server now) k (record {
    slots = All-replicate IsCleanSlot 64 empty_slot (record { id = tt; location = tt; vars = tt });
    cells =
        All-replicate IsCleanAlert 256 no_alert (record { node_id = tt; type = tt; value = tt });
  })
