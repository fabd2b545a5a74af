-- ===== src/Server/Http/Tests.antt =====
-- server/src/http.c: answers in small buffers.
use telematica_telemetria.Base.{none, some, [], ◌∷◌, ◌≡◌, refl, arith, length, true}
use telematica_telemetria.Base.Text.{Text, codes, show_nat}
use telematica_telemetria.Server.Slots.{Slot, new_slot, count_nodes}
use telematica_telemetria.Server.State.{Server, start_server}
use telematica_telemetria.Server.Http.{server_json, node_json, used_slots, build_status_json}
use telematica_telemetria.Server.Alerts.{snapshot}
use telematica_telemetria.Server.Http.Size.{status_text, build_fits}

abbrev node : Text → Slot
node id = record (new_slot 2 id) { location = codes "Lab"; active = true; last_seen = 2 }

abbrev server : Server
server = record (start_server 0) { slots = node (codes "NODE01") ∷ node (codes "NODE02") ∷ [] }

-- the buffer of the source has room for two nodes
fits_two :
    build_status_json 65536 9 server ≡ some (length (status_text 9 server), status_text 9 server)
unfolding start_server new_slot show_nat count_nodes server_json used_slots node_json snapshot
fits_two = build_fits 65536 9 server (omega arith)

-- In a buffer with room for one node and half of the next, the second row is counted past the end, and what
-- closes it is written behind the buffer.
behind_the_buffer : build_status_json 300 9 server ≡ none
unfolding build_status_json start_server new_slot show_nat count_nodes
behind_the_buffer = refl
