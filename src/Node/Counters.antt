-- ===== src/Node/Counters.antt =====
-- node/node.py: the counters of the summary that `run` logs.
use telematica_telemetria.Base.{
  ℕ, ◌+◌, Bool, true, Option, List, [], ◌∷◌, ◌≡◌, refl, arith, if◌then◌else◌,
}
use telematica_telemetria.Base.Text.{Text, codes, starts_with}
use telematica_telemetria.Node.State.{FloatOps, World, Event, udp_sent, udp_reply, stop, init}
use telematica_telemetria.Node.Link.{Attempt, Farewell, attempt, bye}
use telematica_telemetria.Node.Telemetry.{Shot, send_one, send_datagram, note_reply}
use telematica_telemetria.Node.Run.{Cycle, run}
use telematica_telemetria.Node.Measure.{measure_total}
use telematica_telemetria.Node.Induction.{IsVar, Steps, run_induction}
use telematica_telemetria.Node.Session.{new_world}

-- The datagrams among the events.
abbrev pub datagrams : List Event → ℕ
datagrams [] = 0
datagrams (udp_sent m ∷ t) = datagrams t + 1
datagrams (_ ∷ t) = datagrams t

-- The replies by UDP that begin with NACK|104.
abbrev pub nacks_heard : List Event → ℕ
nacks_heard [] = 0
nacks_heard (udp_reply r ∷ t) =
    if starts_with (codes "NACK|104") r then nacks_heard t + 1 else nacks_heard t
nacks_heard (_ ∷ t) = nacks_heard t

abbrev pub IsCounted : {F : Type 0} → World F → Type 0
IsCounted w = (w.sent ≡ datagrams w.trace) × (w.nacks ≡ nacks_heard w.trace)

module _ {F : Type 0} (fl : FloatOps F) where
  send_datagram-IsCounted :
      (goes : Bool) (var value : Text) (w : World F)
      → IsCounted w
      → IsCounted (send_datagram goes var value w).0
  unfolding send_datagram
  send_datagram-IsCounted goes var value w h = ground arith

  send_one-IsCounted :
      (s : Shot F) (var : Text) (w : World F)
      → IsVar var
      → w.registered ≡ true
      → IsCounted w
      → IsCounted (send_one fl s var w).0
  unfolding send_one
  send_one-IsCounted s var w v r h =
      let (sim', value, e) = measure_total fl (record w.node { seq = w.seq + 1 }) var s.draw v in
      rw (e, send_one) (send_datagram-IsCounted s.goes var value _ h)

  attempt-IsCounted : (a : Attempt) (w : World F) → IsCounted w → IsCounted (attempt a w).0
  unfolding attempt
  attempt-IsCounted a w h = ground arith

  bye-IsCounted : (f : Farewell) (w : World F) → IsCounted w → IsCounted (bye f w).0
  unfolding bye
  bye-IsCounted f w h = ground arith

  IsCounted-steps : Steps fl IsCounted
  unfolding stop note_reply
  IsCounted-steps = record {
    at_stop = λ b w h. h;
    at_wait = λ n w h. h;
    at_attempt = attempt-IsCounted;
    at_send = send_one-IsCounted;
    at_reply = λ b w h. ground arith;
    at_loss = λ w h. h;
    at_socket = λ b w h. h;
    at_bye = bye-IsCounted;
  }

-- In whatever state a run of a new node stops, `sent` is the number of datagrams that `sendto` took,
-- and `nacks` is the number of UDP replies that begin with NACK|104.
pub run-IsCounted :
    {F : Type 0} (fl : FloatOps F) (id location : Text) (rate : F) (forced : Option Text)
    (f : Farewell) (cycles : List (Cycle F))
    → IsCounted (run fl f cycles (new_world fl id location rate forced)).0
unfolding init
run-IsCounted fl id location rate forced f cycles =
    run_induction fl IsCounted (IsCounted-steps fl) f cycles _ (refl, refl)
