-- ===== src/Server/Commands.antt =====
-- server/src: the commands of a connection and the invariant of the state.
use telematica_telemetria.Base.{
  ℕ, ◌<◌, true, ◌&&◌, some, List, ◌≡◌, refl, arith, length, Bool-cases, Option-cases, inl, inr,
}
use telematica_telemetria.Base.Text.{Text, Bytes}
use telematica_telemetria.Server.Strings.{tlp_valid_id}
use telematica_telemetria.Server.Slots.{
  Slot, find_node, at_node, renew, new_slot, register_node, take_free, loc_len, id_len,
}
use telematica_telemetria.Server.State.{Server}
use telematica_telemetria.Server.Udp.{fits}
use telematica_telemetria.Server.Tcp.{do_register, do_bye, handle_tcp, leave}
use telematica_telemetria.Server.Client.{Incoming, line, too_long, handle_incoming}
use telematica_telemetria.Server.Table.{renew-Keeps, cut_all}
use telematica_telemetria.Server.Sane.{IsSane, at_node-IsSane, take_free-IsSane}
use telematica_telemetria.Server.Subscribers.{subscribe-AreSane}
use telematica_telemetria.Server.Dispatch.{handle_tcp-keeps, Any, All-Any}
use telematica_telemetria.Server.Invariant.{Inv, stats-Inv}

valid_short : (id : Text) → tlp_valid_id id ≡ true → length id < 32
unfolding tlp_valid_id
valid_short id h = ground arith

slots-Inv :
    (slots : List Slot) (s : Server) → IsSane slots → Inv s → Inv (record s { slots = slots })
slots-Inv slots s h i = record { table = h; recent = i.recent; ring = i.ring; subs = i.subs }

register_node-IsSane :
    (now : ℕ) (id loc : Text) (slots slots' : List Slot)
    → tlp_valid_id id ≡ true
    → IsSane slots
    → register_node now id loc slots ≡ some slots'
    → IsSane slots'
unfolding register_node renew new_slot
register_node-IsSane now id loc slots slots' v h e = elim (Option-cases (find_node id slots)) [
  | inr (n, there) ↦
      let same : at_node id (renew now loc) slots ≡ slots' = ground (arith, there) in
      rw (← same) (
        at_node-IsSane id (renew now loc) slots (renew-Keeps now loc)
          (λ n g. record { valid = g.valid; vars = g.vars; marked = λ _. refl }) h)
  | inl new ↦
      let slot = renew now loc (new_slot now id) in
      let short : slot.id ≡ id = cut_all id_len id (valid_short id v) in
      let found : take_free slot slots ≡ some slots' = ground (arith, new) in
      take_free-IsSane slot slots slots' refl (rw short new)
        (record { valid = λ _. (rw short v); vars = omega arith; marked = λ _. refl }) found h
]

module _ (udp_port fd cap now : ℕ) where
  do_register-Inv :
      (id loc : Text) (s : Server) → Inv s → Inv (do_register udp_port fd cap now id loc s).0
  unfolding do_register
  do_register-Inv id loc s h = elim (Bool-cases (tlp_valid_id id && fits loc_len loc)) [
    | inr bad ↦ rw bad h
    | inl ok ↦ elim (Option-cases (register_node now id loc s.slots)) [
      | inl full ↦ rw (ok, full, do_register) h
      | inr (slots, e) ↦
          rw (ok, e, do_register)
            (slots-Inv slots s
              (register_node-IsSane now id loc s.slots slots (ground arith) h.table e) h)
    ]
  ]

  do_bye-Inv : (id : Text) (s : Server) → Inv s → Inv (do_bye udp_port fd cap now id s).0
  unfolding do_bye
  do_bye-Inv id s h = elim (Option-cases (find_node id s.slots)) [
    | inl e ↦ rw (e, do_bye) h
    | inr (n, e) ↦
        rw (e, do_bye)
          (slots-Inv _ s
            (at_node-IsSane id (leave udp_port fd cap now) s.slots (λ n. (refl, refl))
              (λ n g. record { valid = g.valid; vars = g.vars; marked = λ _. refl }) h.table)
            h)
  ]

  pub handle_tcp-Inv : (l : Bytes) (s : Server) → Inv s → Inv (handle_tcp udp_port fd cap now l s).0
  handle_tcp-Inv l s h =
      handle_tcp-keeps Inv Any udp_port fd cap now (λ id loc s _ _. do_register-Inv id loc s)
        (λ id s _. do_bye-Inv id s)
        (λ s h. record {
          table = h.table;
          recent = h.recent;
          ring = h.ring;
          subs = subscribe-AreSane fd s.subscribers h.subs;
        })
        (λ s. stats-Inv _ s) l s (All-Any _) h

pub handle_incoming-Inv :
    (udp_port fd now : ℕ) (l : Incoming) (s : Server)
    → Inv s
    → Inv (handle_incoming udp_port fd now l s).0
unfolding handle_incoming
handle_incoming-Inv udp_port fd now (line l) s h = handle_tcp-Inv udp_port fd 8192 now l s h
handle_incoming-Inv udp_port fd now too_long s h = h
