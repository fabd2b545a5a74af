-- ===== src/Server/Totals/Actions.antt =====
-- server/src: every action of a run leaves the totals the sums of the counters.
use telematica_telemetria.Base.{
  ℕ, ◌+◌, ◌%◌, ◌^◌, Bool, true, false, ◌&&◌, some, ◌≡◌, refl, arith, ltb, if◌then◌else◌,
  Option-cases, inl, inr, ap, sym, ◌∙◌,
}
use telematica_telemetria.Base.Text.{Text, Bytes}
use telematica_telemetria.Base.Text.Parts.{text_eq_refl}
use telematica_telemetria.Server.Strings.{Doubles}
use telematica_telemetria.Server.Sequence.{Seen, count_seq}
use telematica_telemetria.Server.Slots.{Slot, find_node, at_node, set_measure}
use telematica_telemetria.Server.State.{Server, inc64}
use telematica_telemetria.Server.Udp.{
  Telemetry, check_thresholds, note_datagram, note_totals, store_datagram, handle_udp,
  read_telemetry, alarm,
}
use telematica_telemetria.Server.Table.{find_node-at_node}
use telematica_telemetria.Server.Invariant.{note_datagram-Keeps}
use telematica_telemetria.Server.Totals.{
  total, received, lost, alerts, Balanced, total-at_node, total-at_node_same, balanced_step,
  add_alert-Balanced, stats-Balanced,
}

set_measure_counts :
    (now : ℕ) (var value : Text) (n : Slot)
    → ((set_measure now var value n).counts ≡ n.counts)
      × ((set_measure now var value n).alerts ≡ n.alerts)
unfolding set_measure
set_measure_counts now var value n = ground arith

lost_step :
    (skipped : Bool) (a b before after all gap : ℕ)
    → after + a ≡ before + b
    → b ≡ (if skipped then (a + gap) % 2 ^ 64 else a)
    → all ≡ before % 2 ^ 64
    → (if skipped then (all + gap) % 2 ^ 64 else all) ≡ after % 2 ^ 64
lost_step true a b before after all gap sum e h =
    balanced_step a b before after all gap sum (omega arith) h
lost_step false a b before after all gap sum e h = omega arith

module _ {F : Type 0} (dbl : Doubles F) (fails : ℕ → Bool) (now : ℕ) where
  note_counts :
      (t : Telemetry) (n : Slot)
      → ((note_datagram dbl fails now t n).counts ≡ count_seq t.seq n.counts)
        × ((note_datagram dbl fails now t n).alerts ≡ n.alerts)
  unfolding note_datagram
  note_counts t n = set_measure_counts now t.var t.value (record n {
    counts = count_seq t.seq n.counts;
    last_seen = now;
    active = true;
    inactive_alerted = false;
  })

  abbrev noted : Telemetry → Slot → Server → Server
  noted t n s = record s {
    slots = at_node t.id (note_datagram dbl fails now t) s.slots;
    stats = note_totals dbl fails now t.seq n.counts s.stats;
  }

  noted-Balanced :
      (t : Telemetry) (n : Slot) (s : Server)
      → find_node t.id s.slots ≡ some n
      → Balanced s
      → Balanced (noted t n s)
  unfolding note_totals count_seq
  noted-Balanced t n s found h =
      let f = note_datagram dbl fails now t in
      let sum = λ (c : Slot → ℕ).
        total-at_node c f t.id n s.slots (note_datagram-Keeps fails now dbl t) found in
      let counts = note_counts t n in
      let got : (f n).counts.received ≡ inc64 n.counts.received =
        ap (λ (c : Seen). c.received) counts.0 in
      let same =
        total-at_node_same alerts f t.id s.slots (note_datagram-Keeps fails now dbl t)
          (λ m. (note_counts t m).1) in
      record {
        all_received =
            balanced_step n.counts.received (f n).counts.received (total received s.slots) _ _ 1
              (sum received) (omega (arith, got)) h.all_received;
        all_lost =
            lost_step (ltb (n.counts.last_seq + 1) t.seq && ltb 0 n.counts.last_seq) n.counts.lost
              (f n).counts.lost (total lost s.slots) _ _ _ (sum lost)
              (ap (λ (c : Seen). c.lost) counts.0) h.all_lost;
        all_alerts = h.all_alerts ∙ ap (λ t. t % 2 ^ 64) (sym same);
      }

  store_datagram-Balanced :
      (t : Telemetry) (n : Slot) (s : Server)
      → find_node t.id s.slots ≡ some n
      → Balanced s
      → Balanced (store_datagram dbl fails now t n s)
  unfolding store_datagram check_thresholds note_totals
  store_datagram-Balanced t n s found h =
      let f = note_datagram dbl fails now t in
      let there : find_node t.id (at_node t.id f s.slots) ≡ some (f n) = ground (
        arith,
        find_node-at_node t.id t.id f s.slots (note_datagram-Keeps fails now dbl t),
        text_eq_refl t.id,
        found,
      ) in
      elim (Option-cases (alarm dbl t.var t.value)) [
        | inl e ↦ rw (e, check_thresholds) (noted-Balanced t n s found h)
        | inr (type, e) ↦
            rw (e, check_thresholds)
              (add_alert-Balanced fails now t.id type t.value (f n) _ there
                (noted-Balanced t n s found h))
      ]

  pub handle_udp-Balanced :
      (bytes : Bytes) (s : Server) → Balanced s → Balanced (handle_udp dbl fails now bytes s).0
  unfolding handle_udp
  handle_udp-Balanced bytes s h = elim (Option-cases (read_telemetry dbl bytes)) [
    | inl e ↦ rw (e, handle_udp) (stats-Balanced _ s refl refl refl h)
    | inr (t, e) ↦ elim (Option-cases (find_node t.id s.slots)) [
      | inl f ↦ rw (e, f, handle_udp) (stats-Balanced _ s refl refl refl h)
      | inr (n, f) ↦ rw (e, f, handle_udp) (store_datagram-Balanced t n s f h)
    ]
  ]
