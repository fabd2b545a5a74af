-- ===== src/Server/Runs.antt =====
-- server/src: the invariant of the state over a run of the server.
use telematica_telemetria.Base.{
  All-replicate, ℕ, zero, suc, Bool, List, [], ◌∷◌, refl, arith, replicate, length-replicate,
}
use telematica_telemetria.Server.Slots.{empty_slot}
use telematica_telemetria.Server.State.{Server, start_server}
use telematica_telemetria.Server.Strings.{Doubles}
use telematica_telemetria.Server.Recent.{empty-Holds}
use telematica_telemetria.Server.Sane.{IsGood, Distinct}
use telematica_telemetria.Server.Subscribers.{unsubscribe-AreSane}
use telematica_telemetria.Server.Invariant.{Inv, handle_udp-Inv}
use telematica_telemetria.Server.Commands.{handle_incoming-Inv}
use telematica_telemetria.Server.Watch.{watch-Inv}
use telematica_telemetria.Server.Steps.{
  Action, datagram, command, tick, opened, closed, Timed, open_client, close_client, act,
  run_server,
}

Distinct-replicate : (n : ℕ) → Distinct (replicate n empty_slot)
Distinct-replicate zero = tt
Distinct-replicate (suc n) = ((λ u. cc), Distinct-replicate n)

pub start_server-Inv : (now : ℕ) → Inv (start_server now)
unfolding start_server
start_server-Inv now = record {
  table = record {
    size = length-replicate 64 empty_slot;
    good =
        All-replicate IsGood 64 empty_slot
          (record { valid = λ u. cc; vars = omega arith; marked = λ u. cc });
    distinct = Distinct-replicate 64;
  };
  recent = [];
  ring = empty-Holds;
  subs = record { size = refl; once = tt };
}

module _ {F : Type 0} (dbl : Doubles F) (udp_port : ℕ) where
  act-Inv :
      (a : Action) (now : ℕ) (fails : ℕ → Bool) (s : Server)
      → Inv s
      → Inv (act dbl udp_port a now fails s)
  unfolding act open_client close_client
  act-Inv (datagram bytes) now fails s h = handle_udp-Inv fails now dbl bytes s h
  act-Inv (command fd l) now fails s h = handle_incoming-Inv udp_port fd now l s h
  act-Inv tick now fails s h = watch-Inv fails now s h
  act-Inv opened now fails s h = record {
    table = h.table;
    recent = h.recent;
    ring = h.ring;
    subs = h.subs;
  }
  act-Inv (closed fd) now fails s h = record {
    table = h.table;
    recent = h.recent;
    ring = h.ring;
    subs = unsubscribe-AreSane fd s.subscribers h.subs;
  }

  run_server-keeps :
      (actions : List Timed) (s : Server) → Inv s → Inv (run_server dbl udp_port actions s)
  unfolding run_server
  run_server-keeps [] s h = h
  run_server-keeps (t ∷ actions) s h =
      run_server-keeps actions _ (act-Inv t.action t.now t.fails s h)

  -- Behind every series of datagrams, commands, rounds of the watchdog and openings and ends of
  -- connections, from the start of the server: the table has 64 slots, each used one with a valid id that
  -- no other one has, with at most eight variables, and marked as inactive exactly while it is not active;
  -- the cells of the ring behind its head are a list of 256 alerts at most; and no connection stands twice
  -- among the 32 subscribers.
  pub run_server-Inv :
      (actions : List Timed) (now : ℕ) → Inv (run_server dbl udp_port actions (start_server now))
  run_server-Inv actions now = run_server-keeps actions (start_server now) (start_server-Inv now)
