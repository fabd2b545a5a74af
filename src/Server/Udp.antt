-- ===== src/Server/Udp.antt =====
-- server/src/protocol.c: `check_thresholds` and `tlp_handle_udp`. The clock is read once for a call.
use telematica_telemetria.Base.{
  ℕ, ◌+◌, ◌-◌, ◌%◌, ◌^◌, Bool, true, false, not, ◌&&◌, ◌||◌, Option, none, some, List, [], ◌∷◌,
  length, leb, ltb, ◌==◌, if◌then◌else◌,
}
use telematica_telemetria.Base.Text.{Text, Bytes, codes, text_eq}
use telematica_telemetria.Server.Sequence.{Seen, count_seq}
use telematica_telemetria.Server.Slots.{Slot, find_node, at_node, set_measure, var_len, val_len}
use telematica_telemetria.Server.State.{Server, Stats, add_alert, inc64}
use telematica_telemetria.Server.Strings.{
  until_nul, trim_crlf, tlp_split, tlp_valid_id, Number, strtol, Doubles, parse_double,
}

abbrev pub max_line : ℕ
max_line = 512

abbrev pub max_fields : ℕ
max_fields = 8

-- What a datagram says.
pub record Telemetry : Type 0 where
  pub id : Text
  pub seq : ℕ
  pub var : Text
  pub value : Text

-- `strlen(s) == 0 || strlen(s) >= n`, turned round
abbrev pub fits : ℕ → Text → Bool
fits n s = not (length s == 0) && not (leb n (length s))

-- `*end != '\0' || seq < 0`, turned round
abbrev pub is_seq : Number → Bool
is_seq n = length n.rest == 0 && (not n.negative || n.size == 0)

module _ {F : Type 0} (dbl : Doubles F) where
  -- a STATUS has one of three values, any other variable a number
  unfoldable pub is_value : Text → Text → Bool
  is_value var value =
      if text_eq var (codes "STATUS")
      then text_eq value (codes "OK")
        || text_eq value (codes "WARN")
        || text_eq value (codes "FAULT")
      else elim (parse_double dbl value) [ none ↦ false | some _ ↦ true ]

  -- the checks of the five fields
  unfoldable pub read_fields : List Text → Option Telemetry
  unfolding is_value
  read_fields (word ∷ id ∷ num ∷ var ∷ value ∷ []) =
      let n = strtol num in
      if text_eq word (codes "TELEMETRY")
        && tlp_valid_id id
        && fits var_len var
        && fits val_len value
        && is_seq n
        && is_value var value
      then some (record { id = id; seq = n.size; var = var; value = value })
      else none
  read_fields _ = none

  -- the datagram up to the lock; `none` is counted as invalid
  unfoldable pub read_telemetry : Bytes → Option Telemetry
  unfolding read_fields
  read_telemetry datagram =
      if length datagram == 0 || leb max_line (length datagram)
      then none
      else read_fields (tlp_split max_fields (trim_crlf (until_nul datagram)))

  -- the type of the alert that `check_thresholds` raises
  unfoldable pub alarm : Text → Text → Option Text
  alarm var value =
      let high = λ (limit : ℕ) (type : Text). elim (parse_double dbl value) as (λ _. Option Text) [
        | none ↦ none
        | some v ↦ if dbl.ops.lt (dbl.ops.hundredths limit) v then some type else none
      ] in
      let low = elim (parse_double dbl value) as (λ _. Option Text) [
        | none ↦ none
        | some v ↦ if dbl.ops.lt v dbl.minus_ten then some (codes "TEMP_LOW") else none
      ] in
      if text_eq var (codes "TEMP")
      then elim (high 4000 (codes "TEMP_HIGH")) [ some type ↦ some type | none ↦ low ]
      else if text_eq var (codes "HUM")
      then high 8500 (codes "HUM_HIGH")
      else if text_eq var (codes "ENERGY")
      then high 500000 (codes "ENERGY_HIGH")
      else if text_eq var (codes "VIB")
      then high 800 (codes "VIB_HIGH")
      else if text_eq var (codes "STATUS")
      then (if text_eq value (codes "FAULT") then some (codes "STATUS_FAULT") else none)
      else none

  module _ (fails : ℕ → Bool) (now : ℕ) where
    -- `check_thresholds`
    unfoldable pub check_thresholds : Text → Text → Text → Server → Server
    unfolding alarm
    check_thresholds id var value s = elim (alarm var value) [
      | none ↦ s
      | some type ↦ add_alert fails now id type value s
    ]

    -- the changes to the node and to the totals
    unfoldable pub note_datagram : Telemetry → Slot → Slot
    note_datagram t n = set_measure now t.var t.value (record n {
      counts = count_seq t.seq n.counts;
      last_seen = now;
      active = true;
      inactive_alerted = false;
    })

    -- the sum `last_seq + 1` is that of `count_seq`
    unfoldable pub note_totals : ℕ → Seen → Stats → Stats
    note_totals seq c st =
        let gap = seq - c.last_seq - 1 in
        record st {
          udp_received = inc64 st.udp_received;
          udp_lost =
              if ltb (c.last_seq + 1) seq && ltb 0 c.last_seq
              then (st.udp_lost + gap) % 2 ^ 64
              else st.udp_lost;
        }

    -- under the lock, with the node that was found
    unfoldable pub store_datagram : Telemetry → Slot → Server → Server
    unfolding check_thresholds note_datagram note_totals
    store_datagram t n s = check_thresholds t.id t.var t.value (record s {
      slots = at_node t.id (note_datagram t) s.slots;
      stats = note_totals t.seq n.counts s.stats;
    })

    -- `tlp_handle_udp`, with the reply to the sender
    unfoldable pub handle_udp : Bytes → Server → Server × Text
    unfolding store_datagram
    handle_udp datagram s = elim (read_telemetry datagram) [
      | none ↦ (record s { stats = record s.stats { udp_invalid = inc64 s.stats.udp_invalid } }, [])
      | some t ↦ elim (find_node t.id s.slots) [
        | none ↦ (
          record s { stats = record s.stats { udp_rejected = inc64 s.stats.udp_rejected } },
          codes "NACK|104|NOT_REGISTERED\n",
        )
        | some n ↦ (store_datagram t n s, [])
      ]
    ]
