-- ===== src/Server/Replies/Datagrams.antt =====
-- server/src/protocol.c: a datagram puts no line break into the state.
use mathlib.Core.Path.{subst}
use telematica_telemetria.Base.{
  IfSome, ℕ, Bool, Option, none, some, if_either, Option-cases, inl, inr, length, leb, ◌||◌, ◌==◌,
}
use telematica_telemetria.Base.Text.{Text, Bytes, OneLine}
use telematica_telemetria.Server.Strings.{Doubles, until_nul, trim_crlf}
use telematica_telemetria.Server.Slots.{Slot, find_node}
use telematica_telemetria.Server.State.{Server, add_alert}
use telematica_telemetria.Server.Udp.{
  Telemetry, max_fields, max_line, read_telemetry, alarm, check_thresholds, note_datagram,
  store_datagram, handle_udp,
}
use telematica_telemetria.Server.Sane.{All-at_node}
use telematica_telemetria.Server.Replies.Clean.{IsCleanSlot, IsClean}
use telematica_telemetria.Server.Replies.Kept.{
  IsCleanTelemetry, tlp_split-OneLine, set_measure-IsCleanSlot, add_alert-IsClean,
  read_fields-OneLine, alarm-OneLine,
}

-- what the server reads of a datagram or a line of a connection is one line of text
abbrev pub IsText : Bytes → Type 0
IsText bytes = OneLine (trim_crlf (until_nul bytes))

module _ {F : Type 0} (dbl : Doubles F) (fails : ℕ → Bool) (now : ℕ) where
  read_telemetry-OneLine :
      (bytes : Bytes) → IsText bytes → IfSome IsCleanTelemetry (read_telemetry dbl bytes)
  unfolding read_telemetry
  read_telemetry-OneLine bytes h =
      if_either (IfSome IsCleanTelemetry) (length bytes == 0 || leb max_line (length bytes)) tt
        (read_fields-OneLine dbl _ (tlp_split-OneLine max_fields _ h))

  check_thresholds-IsClean :
      (id var value : Text) (s : Server)
      → OneLine id
      → OneLine value
      → IsClean s
      → IsClean (check_thresholds dbl fails now id var value s)
  unfolding check_thresholds
  check_thresholds-IsClean id var value s oi ov h =
      go (alarm dbl var value) (alarm-OneLine dbl var value)
    where
      go :
          (o : Option Text)
          → IfSome OneLine o
          → IsClean (elim o [ none ↦ s | some type ↦ add_alert fails now id type value s ])
      go none k = h
      go (some type) k = add_alert-IsClean fails now id type value s oi k ov h

  store_datagram-IsClean :
      (t : Telemetry) (n : Slot) (s : Server)
      → IsCleanTelemetry t
      → IsClean s
      → IsClean (store_datagram dbl fails now t n s)
  unfolding store_datagram note_datagram
  store_datagram-IsClean t n s k h =
      check_thresholds-IsClean t.id t.var t.value _ k.0 k.1.1 (record {
        slots =
            All-at_node IsCleanSlot t.id (note_datagram dbl fails now t) s.slots
              (λ n c.
                set_measure-IsCleanSlot now t.var t.value _ k.1.0 k.1.1
                  (record { id = c.id; location = c.location; vars = c.vars }))
              h.slots;
        cells = h.cells;
      })

  pub handle_udp-IsClean :
      (bytes : Bytes) (s : Server)
      → IsText bytes
      → IsClean s
      → IsClean (handle_udp dbl fails now bytes s).0
  unfolding handle_udp
  handle_udp-IsClean bytes s k h = elim (Option-cases (read_telemetry dbl bytes)) [
    | inl bad ↦ rw (bad, handle_udp) (record { slots = h.slots; cells = h.cells })
    | inr (t, read) ↦ elim (Option-cases (find_node t.id s.slots)) [
      | inl new ↦ rw (read, new, handle_udp) (record { slots = h.slots; cells = h.cells })
      | inr (n, found) ↦
          rw (read, found, handle_udp)
            (store_datagram-IsClean t n s
              (subst (IfSome IsCleanTelemetry) read (read_telemetry-OneLine bytes k)) h)
    ]
  ]
