-- ===== src/Server/Tests.antt =====
-- server/src: the theorems at work on small runs. Doubles are numbers of hundredths here.
use telematica_telemetria.Base.{
  none, Option, ℕ, ◌+◌, ◌-◌, ◌*◌, ◌%◌, ◌^◌, Bool, true, false, some, List, [], ◌∷◌, ◌≡◌, refl,
  arith, length, ltb, get_elem?, map, take, ◌++◌,
}
use telematica_telemetria.Base.Text.{
  Text, Bytes, codes, show_nat, more_digits, text_eq, split, strip,
}
use telematica_telemetria.Base.Codec.{encode, decode}
use telematica_telemetria.Node.State.{FloatOps, World, init}
use telematica_telemetria.Node.Telemetry.{telemetry_msg}
use telematica_telemetria.Server.Strings.{
  Doubles, tlp_valid_id, tlp_split, trim_crlf, until_nul, strtol, parse_double,
}
use telematica_telemetria.Server.Slots.{
  empty_slot, take_free, Slot, find_node, no_nodes, register_node, set_measure, new_slot,
}
use telematica_telemetria.Server.Alerts.{Alert, empty_ring, snapshot}
use telematica_telemetria.Server.State.{Server, start_server, inc64, add_alert}
use telematica_telemetria.Server.Udp.{Telemetry, read_telemetry, handle_udp, is_value}
use telematica_telemetria.Server.Watchdog.{watch}
use telematica_telemetria.Server.Client.{line, handle_incoming}
use telematica_telemetria.Server.Framing.{
  empty_inbox, receive_all, classify, complete, receive_all-split,
}
use mathlib.Core.List.{reverse}
use telematica_telemetria.Server.Steps.{Action, datagram, command, tick, opened, Timed, run_server}
use telematica_telemetria.Server.Recent.{put_all, snapshot_refines}
use telematica_telemetria.Server.Table.{Registers, changed, register_node_refines}
use telematica_telemetria.Server.Invariant.{Inv}
use telematica_telemetria.Server.Runs.{run_server-Inv}
use telematica_telemetria.Server.Totals.{Balanced}
use telematica_telemetria.Server.Totals.Series.{run_server-Balanced}
use telematica_telemetria.Server.Watch.{silent_count}
use telematica_telemetria.Server.Watch.Round.{settle, watch_refines}
use telematica_telemetria.Server.Measures.{find_measure, with_measure, set_measure_refines}
use telematica_telemetria.Server.Noted.{Heard}
use telematica_telemetria.Node.Link.{register_msg, greet}
use telematica_telemetria.Server.Welcome.{register_line, welcome, register_accepted}
use telematica_telemetria.Server.Accepts.{read_telemetry-telemetry_msg}

abbrev pub ops : FloatOps ℕ
ops = record { lt = ltb; add = λ a b. a + b; hundredths = λ n. n; format = λ d x. show_nat x }

abbrev pub read_double : Text → ℕ × (ℕ × Bool)
read_double s = let (n, rest) = more_digits 0 s in (n * 100, (length s - length rest, false))

abbrev pub dbl : Doubles ℕ
dbl = record { ops = ops; strtod = read_double; minus_ten = 0 }

abbrev no_failure : ℕ → Bool
no_failure fd = false

abbrev pub at_time : ℕ → Action → Timed
at_time now a = record { action = a; now = now; fails = no_failure }

-- a node registers, sends a high temperature, and is silent when the watchdog looks
abbrev actions : List Timed
actions =
    at_time 1 opened
    ∷ at_time 1 (command 4 (line (codes "SUBSCRIBE_ALERTS")))
    ∷ at_time 2 (command 5 (line (codes "REGISTER|NODE01|Lab|TEMP")))
    ∷ at_time 3 (datagram (codes "TELEMETRY|NODE01|1|TEMP|41\n"))
    ∷ at_time 20 tick
    ∷ []

-- a server with one node, not heard since the time 2
abbrev node01 : Slot
node01 = record (new_slot 2 (codes "NODE01")) {
  location = codes "Lab";
  active = true;
  last_seen = 2;
}

abbrev one_node : Server
one_node = record (start_server 0) { slots = node01 ∷ [] }

abbrev hot : Bytes
hot = codes "TELEMETRY|NODE01|1|TEMP|41\n"

hot_alert : (handle_udp dbl no_failure 3 hot one_node).0.stats.alerts_total ≡ 1
unfolding handle_udp read_telemetry find_node text_eq more_digits new_slot start_server tlp_split
    trim_crlf until_nul tlp_valid_id strtol parse_double add_alert
hot_alert = refl

run_server-Inv_example : Inv (run_server dbl 5000 actions (start_server 0))
run_server-Inv_example = run_server-Inv dbl 5000 actions 0

run_server-Balanced_example : Balanced (run_server dbl 5000 actions (start_server 0))
run_server-Balanced_example = run_server-Balanced dbl 5000 actions 0

receive_all-split_example :
    (receive_all empty_inbox (codes "PI" ∷ codes "NG\nQU" ∷ codes "IT\n" ∷ [])).0
    ≡ map classify (complete (split b'\n' (codes "PING\nQUIT\n")))
receive_all-split_example = receive_all-split (codes "PI" ∷ codes "NG\nQU" ∷ codes "IT\n" ∷ [])

abbrev alert : Text → Alert
alert type = record { node_id = codes "NODE01"; type = type; value = codes "41"; at = 3 }

abbrev two_alerts : List Alert
two_alerts = alert (codes "TEMP_HIGH") ∷ alert (codes "NODE_INACTIVE") ∷ []

snapshot_refines_example :
    snapshot 20 (put_all two_alerts empty_ring) ≡ take 20 (take 256 (reverse two_alerts))
snapshot_refines_example = snapshot_refines two_alerts 20

register_node_refines_example :
    Registers 2
      (codes "NODE01")
      (codes "Lab")
      no_nodes
      (register_node 2 (codes "NODE01") (codes "Lab") no_nodes)
register_node_refines_example =
    register_node_refines 2 (codes "NODE01") (codes "Lab") no_nodes (omega arith)

abbrev at_end : Server
at_end = run_server dbl 5000 actions (start_server 0)

watch_refines_example :
    ((i : ℕ)
      → get_elem? (watch no_failure 40 at_end).slots i
        ≡ changed (settle 40) (get_elem? at_end.slots i))
    × (silent_count 40 (watch no_failure 40 at_end).slots ≡ 0)
    × ((watch no_failure 40 at_end).stats.alerts_total % 2 ^ 64
        ≡ (at_end.stats.alerts_total + silent_count 40 at_end.slots) % 2 ^ 64)
watch_refines_example = watch_refines no_failure 40 at_end (run_server-Inv dbl 5000 actions 0)

set_measure_refines_example :
    find_measure (codes "TEMP") (set_measure 3 (codes "TEMP") (codes "41") node01).vars
    ≡ with_measure 3 (codes "TEMP") (codes "41") node01 (codes "TEMP")
set_measure_refines_example =
    set_measure_refines 3 (codes "TEMP") (codes "41") (codes "TEMP") node01 (omega arith)
      (omega arith)

abbrev hot_telemetry : Telemetry
hot_telemetry = record { id = codes "NODE01"; seq = 1; var = codes "TEMP"; value = codes "41" }

-- the temperature is above its limit
abbrev hot_type : Option Text
hot_type = some (codes "TEMP_HIGH")

valid_node01 : tlp_valid_id (codes "NODE01") ≡ true
unfolding tlp_valid_id
valid_node01 = refl

hot_value : is_value dbl (codes "TEMP") (codes "41") ≡ true
unfolding is_value text_eq more_digits parse_double
hot_value = refl

read_telemetry-telemetry_msg_example :
    read_telemetry dbl (encode (telemetry_msg (codes "NODE01") 1 (codes "TEMP") (codes "41")))
    ≡ some hot_telemetry
read_telemetry-telemetry_msg_example =
    read_telemetry-telemetry_msg dbl (codes "NODE01") 1 (codes "TEMP") (codes "41") valid_node01
      (omega arith) refl refl (omega arith) (omega arith) hot_value

abbrev here : Text
here = codes "Sin ubicacion"

abbrev taken : List Slot
taken = record (new_slot 2 (codes "NODE01")) { location = here; active = true; last_seen = 2 } ∷ []

abbrev one_free : Server
one_free = record (start_server 0) { slots = empty_slot ∷ [] }

free_taken : register_node 2 (codes "NODE01") here (empty_slot ∷ []) ≡ some taken
unfolding register_node find_node new_slot take_free
free_taken = refl

abbrev new_node : World ℕ
new_node = record { node = init ops (codes "NODE01") here 0 none; trace = [] }

register_accepted_example :
    (encode (register_msg (codes "NODE01") here)
      ≡ register_line (codes "NODE01") here ++ b'\n' ∷ [])
    × (handle_incoming 5000 4 2 (line (register_line (codes "NODE01") here)) one_free ≡ (
      record one_free {
        slots = taken;
        stats = record one_free.stats { tcp_commands = inc64 one_free.stats.tcp_commands };
      },
      (welcome (codes "NODE01") 5000, false),
    ))
    × ((greet (some (strip (decode (welcome (codes "NODE01") 5000)))) new_node).1 ≡ true)
    × ((greet (some (strip (decode (welcome (codes "NODE01") 5000)))) new_node).0.registered ≡ true)
    × ((greet (some (strip (decode (welcome (codes "NODE01") 5000)))) new_node).0.seq ≡ 0)
register_accepted_example =
    register_accepted 5000 4 2 (codes "NODE01") here one_free taken new_node valid_node01
      (ground arith) (omega arith) (omega arith) free_taken
