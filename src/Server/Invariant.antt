-- ===== src/Server/Invariant.antt =====
-- server/src: what is true of the server's state behind every action.
use telematica_telemetria.Base.{
  ℕ, Bool, true, false, some, List, [], ◌∷◌, ◌≡◌, refl, arith, length, take, leb, Bool-cases,
  Option-cases, inl, inr, length-append,
}
use telematica_telemetria.Base.Text.{Text, Bytes}
use telematica_telemetria.Server.Strings.{Doubles}
use telematica_telemetria.Server.Sequence.{count_seq}
use telematica_telemetria.Server.Slots.{
  cut, var_len, val_len, Slot, Measure, find_node, overwrite, set_measure,
}
use telematica_telemetria.Server.Alerts.{Alert}
use telematica_telemetria.Server.State.{Server, Stats, count_alert, add_alert, stored_alert}
use telematica_telemetria.Server.Udp.{
  Telemetry, check_thresholds, note_datagram, store_datagram, handle_udp, read_telemetry, alarm,
}
use telematica_telemetria.Server.Recent.{Holds, put-Holds}
use telematica_telemetria.Server.Table.{Keeps}
use telematica_telemetria.Server.Sane.{IsGood, IsSane, at_node-IsSane}
use telematica_telemetria.Server.Subscribers.{AreSane, broadcast-AreSane}

-- The table is sane, the ring holds a list of alerts, and no connection is subscribed twice.
pub record Inv (s : Server) : Type 0 where
  pub table : IsSane s.slots
  pub recent : List Alert
  pub ring : Holds s.ring recent
  pub subs : AreSane s.subscribers

count_alert-IsGood : (n : Slot) → IsGood n → IsGood (count_alert n)
count_alert-IsGood n h = record { valid = h.valid; vars = h.vars; marked = h.marked }

length-overwrite :
    (now : ℕ) (var value : Text) (vars vars' : List Measure)
    → overwrite now var value vars ≡ some vars'
    → length vars' ≡ length vars
unfolding overwrite
length-overwrite now var value [] vars' e = cc
length-overwrite now var value (m ∷ vars) vars' e =
    elim (Option-cases (overwrite now var value vars)) [
      | inl o ↦ ground arith
      | inr (rest, o) ↦ ground (arith, length-overwrite now var value vars rest o)
    ]

set_measure-IsGood :
    (now : ℕ) (var value : Text) (n : Slot) → IsGood n → IsGood (set_measure now var value n)
unfolding set_measure
set_measure-IsGood now var value n h = elim (Option-cases (overwrite now var value n.vars)) [
  | inr (vars, e) ↦
      rw (e, set_measure)
        (record {
          valid = h.valid;
          vars = omega (arith, h.vars, length-overwrite now var value n.vars vars e);
          marked = h.marked;
        })
  | inl e ↦ elim (Bool-cases (leb 8 (length n.vars))) [
    | inl full ↦ rw (e, set_measure, full) h
    | inr room ↦
        rw (e, set_measure, room)
          (record {
            valid = h.valid;
            vars = ground (
              arith,
              length-append n.vars
                  (record { name = cut var_len var; value = cut val_len value; at = now } ∷ []),
            );
            marked = h.marked;
          })
  ]
]

set_measure-Keeps : (now : ℕ) (var value : Text) → Keeps (set_measure now var value)
unfolding set_measure
set_measure-Keeps now var value n = ground arith

-- the invariant does not speak of the totals
pub stats-Inv : (st : Stats) (s : Server) → Inv s → Inv (record s { stats = st })
stats-Inv st s h = record { table = h.table; recent = h.recent; ring = h.ring; subs = h.subs }

module _ (fails : ℕ → Bool) (now : ℕ) where
  pub add_alert-Inv :
      (id type value : Text) (s : Server) → Inv s → Inv (add_alert fails now id type value s)
  unfolding add_alert
  add_alert-Inv id type value s h = record {
    table = at_node-IsSane id count_alert s.slots (λ n. (refl, refl)) count_alert-IsGood h.table;
    recent = take 256 (stored_alert now id type value ∷ h.recent);
    ring = put-Holds (stored_alert now id type value) s.ring h.recent h.ring;
    subs = broadcast-AreSane fails s.subscribers h.subs;
  }

  module _ {F : Type 0} (dbl : Doubles F) where
    note_datagram-IsGood :
        (t : Telemetry) (n : Slot) → IsGood n → IsGood (note_datagram dbl fails now t n)
    unfolding note_datagram
    note_datagram-IsGood t n h =
        set_measure-IsGood now t.var t.value _
          (record { valid = h.valid; vars = h.vars; marked = λ _. refl })

    pub note_datagram-Keeps : (t : Telemetry) → Keeps (note_datagram dbl fails now t)
    unfolding note_datagram
    note_datagram-Keeps t n = set_measure-Keeps now t.var t.value (record n {
      counts = count_seq t.seq n.counts;
      last_seen = now;
      active = true;
      inactive_alerted = false;
    })

    check_thresholds-Inv :
        (id var value : Text) (s : Server)
        → Inv s
        → Inv (check_thresholds dbl fails now id var value s)
    unfolding check_thresholds
    check_thresholds-Inv id var value s h = elim (Option-cases (alarm dbl var value)) [
      | inl e ↦ rw (e, check_thresholds) h
      | inr (type, e) ↦ rw (e, check_thresholds) (add_alert-Inv id type value s h)
    ]

    store_datagram-Inv :
        (t : Telemetry) (n : Slot) (s : Server) → Inv s → Inv (store_datagram dbl fails now t n s)
    unfolding store_datagram
    store_datagram-Inv t n s h = check_thresholds-Inv t.id t.var t.value _ (record {
      table =
          at_node-IsSane t.id (note_datagram dbl fails now t) s.slots (note_datagram-Keeps t)
            (note_datagram-IsGood t) h.table;
      recent = h.recent;
      ring = h.ring;
      subs = h.subs;
    })

    pub handle_udp-Inv :
        (bytes : Bytes) (s : Server) → Inv s → Inv (handle_udp dbl fails now bytes s).0
    unfolding handle_udp
    handle_udp-Inv bytes s h = elim (Option-cases (read_telemetry dbl bytes)) [
      | inl e ↦ rw (e, handle_udp) (stats-Inv _ s h)
      | inr (t, e) ↦ elim (Option-cases (find_node t.id s.slots)) [
        | inl f ↦ rw (e, f, handle_udp) (stats-Inv _ s h)
        | inr (n, f) ↦ rw (e, f, handle_udp) (store_datagram-Inv t n s h)
      ]
    ]
