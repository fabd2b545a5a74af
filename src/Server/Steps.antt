-- ===== src/Server/Steps.antt =====
-- server/src: the server as a whole. The threads take turns at the lock, so that a run is a series of
-- actions, each with its time and with the connections to which an alert cannot be sent.
use telematica_telemetria.Base.{ℕ, ◌+◌, ◌-◌, Bool, List, [], ◌∷◌}
use telematica_telemetria.Base.Text.{Bytes}
use telematica_telemetria.Server.Alerts.{unsubscribe}
use telematica_telemetria.Server.State.{Server, inc64}
use telematica_telemetria.Server.Strings.{Doubles}
use telematica_telemetria.Server.Udp.{handle_udp}
use telematica_telemetria.Server.Watchdog.{watch}
use telematica_telemetria.Server.Client.{Incoming, handle_incoming}

-- A datagram, a line of the connection `fd`, a round of the watchdog, and the two ends of a connection.
pub data Action : Type 0 where
  datagram : Bytes → Action
  command : ℕ → Incoming → Action
  tick : Action
  opened : Action
  closed : ℕ → Action

pub record Timed : Type 0 where
  pub action : Action
  pub now : ℕ
  pub fails : ℕ → Bool

-- the first lock of `client_thread`
unfoldable pub open_client : Server → Server
open_client s = record s {
  stats = record s.stats {
    tcp_connections = inc64 s.stats.tcp_connections;
    operators_connected = s.stats.operators_connected + 1;
  };
}

-- the last lock of `client_thread`, which counts back what it counted
unfoldable pub close_client : ℕ → Server → Server
close_client fd s = record s {
  subscribers = unsubscribe fd s.subscribers;
  stats = record s.stats { operators_connected = s.stats.operators_connected - 1 };
}

module _ {F : Type 0} (dbl : Doubles F) (udp_port : ℕ) where
  unfoldable pub act : Action → ℕ → (ℕ → Bool) → Server → Server
  unfolding open_client close_client
  act (datagram bytes) now fails s = (handle_udp dbl fails now bytes s).0
  act (command fd l) now fails s = (handle_incoming udp_port fd now l s).0
  act tick now fails s = watch fails now s
  act opened now fails s = open_client s
  act (closed fd) now fails s = close_client fd s

  unfoldable pub run_server : List Timed → Server → Server
  unfolding act
  run_server [] s = s
  run_server (t ∷ actions) s = run_server actions (act t.action t.now t.fails s)
