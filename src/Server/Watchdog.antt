-- ===== src/Server/Watchdog.antt =====
-- server/src/watchdog.c: one round of `watchdog_loop`, at the time `now`.
use telematica_telemetria.Base.{
  ℕ, zero, suc, ◌+◌, ◌-◌, Bool, true, false, ◌&&◌, none, some, ltb, if◌then◌else◌, get_elem?, set,
}
use telematica_telemetria.Base.Text.{codes, show_nat}
use telematica_telemetria.Server.Slots.{Slot, max_nodes, cut}
use telematica_telemetria.Server.State.{Server, add_alert}

abbrev pub inactive_after : ℕ
inactive_after = 15

-- the two tests in front of the changes
unfoldable pub is_silent : ℕ → Slot → Bool
is_silent now n = n.used && n.active && ltb inactive_after (now - n.last_seen)

module _ (fails : ℕ → Bool) (now : ℕ) where
  -- what a silent node gets: it is no longer active, and the alert if none was given
  unfoldable pub retire : ℕ → Slot → Server → Server
  retire i n s =
      let marked = record s {
        slots = set s.slots i (record n { active = false; inactive_alerted = true });
      } in
      if n.inactive_alerted
      then marked
      else add_alert fails now n.id (codes "NODE_INACTIVE") (cut 16 (show_nat (now - n.last_seen)))
          marked

  -- the body of the loop for the slot `i`
  unfoldable pub watch_slot : ℕ → Server → Server
  unfolding is_silent retire
  watch_slot i s = elim (get_elem? s.slots i) [
    | none ↦ s
    | some n ↦ if is_silent now n then retire i n s else s
  ]

  -- `count` slots from the slot `i` on
  unfoldable pub watch_from : ℕ → ℕ → Server → Server
  unfolding watch_slot
  watch_from i zero s = s
  watch_from i (suc count) s = watch_from (i + 1) count (watch_slot i s)

  unfoldable pub watch : Server → Server
  unfolding watch_from
  watch s = watch_from 0 max_nodes s
