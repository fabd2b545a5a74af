-- ===== src/Server/Watch.antt =====
-- server/src/watchdog.c: what a round of the watchdog does to the nodes and to the alerts.
pub mod Round
use telematica_telemetria.Base.{
  All-get_elem?, ℕ, zero, suc, ◌+◌, ◌-◌, ◌%◌, ◌^◌, ◌<◌, ◌≤◌, Bool, true, false, not, ◌&&◌, Option,
  none, some, List, [], ◌∷◌, ◌≡◌, refl, arith, length, ltb, if◌then◌else◌, get_elem?, set,
  Bool-cases, Option-cases, inl, inr, ap, sym, ◌∙◌,
}
use telematica_telemetria.Base.Text.{Text, codes, show_nat}
use telematica_telemetria.Server.Slots.{Slot, cut, at_node, max_nodes}
use telematica_telemetria.Server.State.{Server, add_alert, count_alert, inc64}
use telematica_telemetria.Server.Watchdog.{is_silent, retire, watch_slot, watch_from, watch}
use telematica_telemetria.Server.Table.{length-at_node}
use telematica_telemetria.Server.Sane.{IsGood, IsSane, set-IsSane}
use telematica_telemetria.Server.Invariant.{Inv, add_alert-Inv}

-- The active nodes that have been silent for too long.
abbrev pub silent_count : ℕ → List Slot → ℕ
silent_count now [] = 0
silent_count now (n ∷ slots) = (if is_silent now n then 1 else 0) + silent_count now slots

retired : Slot → Slot
retired n = record n { active = false; inactive_alerted = true }

silent-retired : (now : ℕ) (n : Slot) → is_silent now (retired n) ≡ false
unfolding is_silent retired
silent-retired now n = ground arith

silent_count-set :
    (now i : ℕ) (n : Slot) (slots : List Slot)
    → get_elem? slots i ≡ some n
    → is_silent now n ≡ true
    → silent_count now (set slots i (retired n)) + 1 ≡ silent_count now slots
silent_count-set now i n [] e h = cc
silent_count-set now zero n (m ∷ slots) e h = ground (arith, silent-retired now n)
silent_count-set now (suc i) n (m ∷ slots) e h = omega (arith, silent_count-set now i n slots e h)

silent_count-at_node :
    (now : ℕ) (id : Text) (slots : List Slot)
    → silent_count now (at_node id count_alert slots) ≡ silent_count now slots
unfolding at_node is_silent
silent_count-at_node now id [] = refl
silent_count-at_node now id (n ∷ slots) = ground (arith, silent_count-at_node now id slots)

pub not_yet : (now : ℕ) (n : Slot) → is_silent now n ≡ true → IsGood n → n.inactive_alerted ≡ false
unfolding is_silent
not_yet now n q g =
    let used : n.used ≡ true = ground arith in
    let active : n.active ≡ true = ground arith in g.marked used ∙ ap not active

module _ (fails : ℕ → Bool) (now : ℕ) where
  retire-Inv :
      (i : ℕ) (n : Slot) (s : Server)
      → get_elem? s.slots i ≡ some n
      → Inv s
      → Inv (retire fails now i n s)
  unfolding retire
  retire-Inv i n s e h =
      let g = All-get_elem? IsGood s.slots i n e h.table.good in
      let marked : Inv (record s {
        slots = set s.slots i (record n { active = false; inactive_alerted = true });
      }) =
        record {
          table =
              set-IsSane s.slots i n (record n { active = false; inactive_alerted = true }) e
                (refl, refl) (record { valid = g.valid; vars = g.vars; marked = λ _. refl })
                h.table;
          recent = h.recent;
          ring = h.ring;
          subs = h.subs;
        } in
      elim (Bool-cases n.inactive_alerted) [
        | inl b ↦ rw b marked
        | inr b ↦ rw b (add_alert-Inv fails now n.id (codes "NODE_INACTIVE") _ _ marked)
      ]

  pub watch_slot-Inv : (i : ℕ) (s : Server) → Inv s → Inv (watch_slot fails now i s)
  unfolding watch_slot
  watch_slot-Inv i s h = elim (Option-cases (get_elem? s.slots i)) [
    | inl e ↦ rw (e, watch_slot) h
    | inr (n, e) ↦ elim (Bool-cases (is_silent now n)) [
      | inl q ↦ rw (e, watch_slot, q) (retire-Inv i n s e h)
      | inr q ↦ rw (e, watch_slot, q) h
    ]
  ]

  pub watch_from-Inv : (i count : ℕ) (s : Server) → Inv s → Inv (watch_from fails now i count s)
  unfolding watch_from
  watch_from-Inv i zero s h = h
  watch_from-Inv i (suc count) s h =
      watch_from-Inv (i + 1) count (watch_slot fails now i s) (watch_slot-Inv i s h)

  pub watch-Inv : (s : Server) → Inv s → Inv (watch fails now s)
  unfolding watch
  watch-Inv s h = watch_from-Inv 0 max_nodes s h

  -- the alerts so far and those that are due
  abbrev due : Server → ℕ
  due s = (s.stats.alerts_total + silent_count now s.slots) % 2 ^ 64

  due-retire :
      (i : ℕ) (n : Slot) (s : Server)
      → get_elem? s.slots i ≡ some n
      → is_silent now n ≡ true
      → n.inactive_alerted ≡ false
      → due (retire fails now i n s) ≡ due s
  unfolding retire add_alert retired
  due-retire i n s e q b = rw b (
      omega (
        arith,
        silent_count-at_node now n.id
            (set s.slots i (record n { active = false; inactive_alerted = true })),
        silent_count-set now i n s.slots e q,
      ))

  due-watch_slot : (i : ℕ) (s : Server) → Inv s → due (watch_slot fails now i s) ≡ due s
  unfolding watch_slot
  due-watch_slot i s h = elim (Option-cases (get_elem? s.slots i)) [
    | inl e ↦ rw (e, watch_slot) refl
    | inr (n, e) ↦ elim (Bool-cases (is_silent now n)) [
      | inl q ↦
          rw (e, watch_slot, q)
            (due-retire i n s e q
              (not_yet now n q (All-get_elem? IsGood s.slots i n e h.table.good)))
      | inr q ↦ rw (e, watch_slot, q) refl
    ]
  ]

  pub due-watch_from :
      (i count : ℕ) (s : Server) → Inv s → due (watch_from fails now i count s) ≡ due s
  unfolding watch_from
  due-watch_from i zero s h = refl
  due-watch_from i (suc count) s h =
      due-watch_from (i + 1) count (watch_slot fails now i s) (watch_slot-Inv i s h)
      ∙ due-watch_slot i s h
