-- ===== src/Server/Http.antt =====
-- server/src/http.c: `build_status_json`. The clock is read once for a call; the strings go into the JSON as
-- they are. The rest of http.c is input and output.
pub mod Size
mod Tests
use telematica_telemetria.Base.{
  ℕ, ◌+◌, ◌-◌, Bool, true, false, Option, none, some, ◌>>=◌, List, [], ◌∷◌, ◌++◌, if◌then◌else◌,
  ltb, length,
}
use telematica_telemetria.Base.Text.{Text, codes, show_nat}
use telematica_telemetria.Server.Slots.{Slot, Measure, cut, count_nodes}
use telematica_telemetria.Server.Alerts.{Alert, snapshot}
use telematica_telemetria.Server.State.{Server, Stats}
use telematica_telemetria.Server.Reply.{show_age}

-- `used`, and what stands in the buffer
pub record Json : Type 0 where
  pub used : ℕ
  pub text : Text

-- `used += (size_t)snprintf(out + used, cap - used, ...)`: what does not fit is cut, and counted all the
-- same. Where `used` is greater than `cap`, the difference wraps and the call writes behind the buffer,
-- which is `none`.
unfoldable pub put : ℕ → Text → Json → Option Json
put cap piece j =
    if ltb cap j.used
    then none
    else some (record { used = j.used + length piece; text = j.text ++ cut (cap - j.used) piece })

unfoldable pub show_bool : Bool → Text
show_bool b = if b then codes "true" else codes "false"

-- the pieces of the answer
unfoldable pub server_json : ℕ → Server → Text
unfolding show_age
server_json now s =
    let (total, active) = count_nodes s.slots in
    codes "{\"server\":{\"uptime_s\":"
    ++ show_age now s.stats.started_at
    ++ codes ",\"nodes\":"
    ++ show_nat total
    ++ codes ",\"active\":"
    ++ show_nat active
    ++ codes ",\"operators\":"
    ++ show_nat s.stats.operators_connected
    ++ codes ",\"udp_received\":"
    ++ show_nat s.stats.udp_received
    ++ codes ",\"udp_lost\":"
    ++ show_nat s.stats.udp_lost
    ++ codes ",\"udp_rejected\":"
    ++ show_nat s.stats.udp_rejected
    ++ codes ",\"udp_invalid\":"
    ++ show_nat s.stats.udp_invalid
    ++ codes ",\"tcp_commands\":"
    ++ show_nat s.stats.tcp_commands
    ++ codes ",\"alerts\":"
    ++ show_nat s.stats.alerts_total
    ++ codes "},\"nodes\":["

unfoldable pub node_json : ℕ → Text → Slot → Text
unfolding show_age show_bool
node_json now comma n =
    comma
    ++ codes "{\"id\":\""
    ++ n.id
    ++ codes "\",\"location\":\""
    ++ n.location
    ++ codes "\",\"active\":"
    ++ show_bool n.active
    ++ codes ",\"last_seen_s\":"
    ++ show_age now n.last_seen
    ++ codes ",\"received\":"
    ++ show_nat n.counts.received
    ++ codes ",\"lost\":"
    ++ show_nat n.counts.lost
    ++ codes ",\"alerts\":"
    ++ show_nat n.alerts
    ++ codes ",\"measures\":["

unfoldable pub measure_json : ℕ → Text → Measure → Text
unfolding show_age
measure_json now comma m =
    comma
    ++ codes "{\"var\":\""
    ++ m.name
    ++ codes "\",\"value\":\""
    ++ m.value
    ++ codes "\",\"age_s\":"
    ++ show_age now m.at
    ++ codes "}"

unfoldable pub alert_json : ℕ → Text → Alert → Text
unfolding show_age
alert_json now comma a =
    comma
    ++ codes "{\"node\":\""
    ++ a.node_id
    ++ codes "\",\"type\":\""
    ++ a.type
    ++ codes "\",\"value\":\""
    ++ a.value
    ++ codes "\",\"age_s\":"
    ++ show_age now a.at
    ++ codes "}"

-- the slots that are used; a slot that is not is passed over, whether or not the buffer is full
unfoldable pub used_slots : List Slot → List Slot
used_slots [] = []
used_slots (n ∷ slots) = let rest = used_slots slots in if n.used then n ∷ rest else rest

module _ (cap now : ℕ) where
  -- a loop that ends early where the buffer is full, with what it prints of one element
  unfoldable pub put_rows :
      {A : Type 0} → (Text → A → Json → Option Json) → Text → List A → Json → Option Json
  put_rows row comma [] j = some j
  put_rows row comma (x ∷ xs) j = elim (ltb j.used cap) [
    | false ↦ some j
    | true ↦ row comma x j >>= put_rows row (codes ",") xs
  ]

  unfoldable pub put_measure : Text → Measure → Json → Option Json
  unfolding put measure_json
  put_measure comma m j = put cap (measure_json now comma m) j

  -- a node with its measures; what closes them is printed without a test
  unfoldable pub put_node : Text → Slot → Json → Option Json
  unfolding put node_json put_rows put_measure
  put_node comma n j = do
    j₁ ← put cap (node_json now comma n) j
    j₂ ← put_rows put_measure [] n.vars j₁
    put cap (codes "]}") j₂

  unfoldable pub put_alert_row : Text → Alert → Json → Option Json
  unfolding put alert_json
  put_alert_row comma a j = put cap (alert_json now comma a) j

  -- what is printed under the lock and behind it
  unfoldable pub print_status : Server → Json → Option Json
  unfolding put server_json put_node put_alert_row put_rows used_slots
  print_status s j = do
    j₀ ← put cap (server_json now s) j
    j₁ ← put_rows put_node [] (used_slots s.slots) j₀
    j₂ ← put cap (codes "],\"alerts\":[") j₁
    j₃ ← put_rows put_alert_row [] (snapshot 20 s.ring) j₂
    put cap (codes "]}") j₃

  -- the length that is returned, and the string that is left
  abbrev pub sent_back : Json → ℕ × Text
  sent_back j = (if ltb j.used cap then j.used else cap - 1, j.text)

  -- `build_status_json`
  unfoldable pub build_status_json : Server → Option (ℕ × Text)
  unfolding print_status
  build_status_json s = do j ← print_status s (record { used = 0; text = [] }); some (sent_back j)
