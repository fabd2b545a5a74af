-- ===== src/Server/Heard.antt =====
-- server/src: what a datagram of a registered node does.
use telematica_telemetria.Base.{ℕ, Bool}
use telematica_telemetria.Base.Text.{Text}
use telematica_telemetria.Server.Strings.{Doubles}
use telematica_telemetria.Server.Slots.{Slot}
use telematica_telemetria.Server.State.{Server}
use telematica_telemetria.Server.Udp.{Telemetry, note_datagram, alarm}
use telematica_telemetria.Server.Noted.{alerted}

module _ {F : Type 0} (dbl : Doubles F) (fails : ℕ → Bool) (now : ℕ) where
  -- the node behind a datagram
  abbrev heard : Telemetry → Slot → Slot
  heard t n = alerted (alarm dbl t.var t.value) (note_datagram dbl fails now t n)
