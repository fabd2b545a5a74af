-- ===== src/Server/State.antt =====
-- server/src/state.c: the shared state as a whole, and `state_add_alert`. Every function here runs under
-- the lock, so that a call of one is a step.
use telematica_telemetria.Base.{ℕ, ◌+◌, ◌%◌, ◌^◌, Bool, Option, List, [], ◌++◌, map}
use telematica_telemetria.Base.Text.{Text, codes}
use telematica_telemetria.Server.Slots.{Slot, no_nodes, at_node, cut, id_len, var_len, val_len}
use telematica_telemetria.Server.Alerts.{
  Alert, Ring, empty_ring, put_alert, no_subscribers, broadcast,
}

-- `stats_t`
pub record Stats : Type 0 where
  pub started_at : ℕ
  pub udp_received : ℕ
  pub udp_lost : ℕ
  pub udp_rejected : ℕ
  pub udp_invalid : ℕ
  pub tcp_commands : ℕ
  pub tcp_connections : ℕ
  pub alerts_total : ℕ
  pub operators_connected : ℕ

-- The variables of state.c, and the lines that were sent to subscribers, those of the latest alert first.
pub record Server : Type 0 where
  pub slots : List Slot
  pub ring : Ring
  pub subscribers : List (Option ℕ)
  pub stats : Stats
  pub sent : List (ℕ × Text)

-- one more in a `uint64_t`
abbrev pub inc64 : ℕ → ℕ
inc64 n = (n + 1) % 2 ^ 64

-- `state_init`
unfoldable pub start_server : ℕ → Server
start_server now = record {
  slots = no_nodes;
  ring = empty_ring;
  subscribers = no_subscribers;
  stats = record {
    started_at = now;
    udp_received = 0;
    udp_lost = 0;
    udp_rejected = 0;
    udp_invalid = 0;
    tcp_commands = 0;
    tcp_connections = 0;
    alerts_total = 0;
    operators_connected = 0;
  };
  sent = [];
}

abbrev pub count_alert : Slot → Slot
count_alert n = record n { alerts = inc64 n.alerts }

-- the line for the subscribers
unfoldable pub alert_line : Text → Text → Text → Text
alert_line id type value =
    codes "ALERT|" ++ id ++ codes "|" ++ type ++ codes "|" ++ value ++ codes "|0\n"

-- the alert as the ring holds it
unfoldable pub stored_alert : ℕ → Text → Text → Text → Alert
stored_alert now id type value = record {
  node_id = cut id_len id;
  type = cut var_len type;
  value = cut val_len value;
  at = now;
}

-- `state_add_alert`
unfoldable pub add_alert : (ℕ → Bool) → ℕ → Text → Text → Text → Server → Server
unfolding alert_line stored_alert
add_alert fails now id type value s =
    let (left, told) = broadcast fails s.subscribers in
    record {
      slots = at_node id count_alert s.slots;
      ring = put_alert (stored_alert now id type value) s.ring;
      subscribers = left;
      stats = record s.stats { alerts_total = inc64 s.stats.alerts_total };
      sent = map (λ fd. (fd, alert_line id type value)) told ++ s.sent;
    }
