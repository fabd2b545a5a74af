-- ===== src/Node/Session.antt =====
-- node/node.py: the order of what a node sends, as a state machine over the events.
use telematica_telemetria.Base.{
  ℕ, ◌+◌, Bool, true, false, Option, none, some, List, [], ◌∷◌, ◌≡◌, refl, Option-cases, inl, inr,
  Bool-cases, ◌∙◌, if_either, ◌&&◌,
}
use telematica_telemetria.Base.Text.{Text, Bytes, codes, starts_with, strip}
use telematica_telemetria.Base.Codec.{encode, decode}
use telematica_telemetria.Node.State.{
  FloatOps, World, Event, tcp_sent, tcp_reply, bye_sent, bye_reply, udp_sent, udp_failed, udp_reply,
  waited, stop, init, Sim,
}
use telematica_telemetria.Node.Link.{
  Attempt, Farewell, greet, ask, attempt, bye, recv_line, part, register_msg, bye_msg,
}
use telematica_telemetria.Node.Telemetry.{Shot, send_datagram, send_one, note_reply, telemetry_msg}
use telematica_telemetria.Node.Run.{Cycle, run}
use telematica_telemetria.Node.Measure.{measure_total}
use telematica_telemetria.Node.Induction.{IsVar, Steps, run_induction}

-- `Conforms id t s`: the events `t` (the latest first) are a session of the node `id`. `s` is the
-- number of the last datagram behind the last accepted REGISTER, and `none` before the first one.
-- An accepted REGISTER begins the numbers again; a datagram has the next number, also where `sendto`
-- failed; nothing else changes the number.
pub data Conforms (id : Text) : List Event → Option ℕ → Type 0 where
  begin : Conforms id [] none
  asked :
      {t : List Event} {s : Option ℕ} (addr location : Text)
      → Conforms id t s
      → Conforms id (tcp_sent addr (encode (register_msg id location)) ∷ t) s
  accepted :
      {t : List Event} {s : Option ℕ} (r : Text)
      → starts_with (codes "OK|REGISTERED") r ≡ true
      → Conforms id t s
      → Conforms id (tcp_reply r ∷ t) (some 0)
  refused :
      {t : List Event} {s : Option ℕ} (r : Text)
      → starts_with (codes "OK|REGISTERED") r ≡ false
      → Conforms id t s
      → Conforms id (tcp_reply r ∷ t) s
  measured :
      {t : List Event} (k : ℕ) (var value : Text)
      → IsVar var
      → Conforms id t (some k)
      → Conforms id (udp_sent (encode (telemetry_msg id (k + 1) var value)) ∷ t) (some (k + 1))
  lost :
      {t : List Event} (k : ℕ)
      → Conforms id t (some k)
      → Conforms id (udp_failed ∷ t) (some (k + 1))
  answered :
      {t : List Event} {s : Option ℕ} (r : Text) → Conforms id t s → Conforms id (udp_reply r ∷ t) s
  paused : {t : List Event} {s : Option ℕ} (n : ℕ) → Conforms id t s → Conforms id (waited n ∷ t) s
  left :
      {t : List Event} {s : Option ℕ} (addr : Text)
      → Conforms id t s
      → Conforms id (bye_sent addr (encode (bye_msg id)) ∷ t) s
  dismissed :
      {t : List Event} {s : Option ℕ} (r : Text) → Conforms id t s → Conforms id (bye_reply r ∷ t) s

-- The events conform, and a registered node holds the number of its last datagram.
pub record InSession {F : Type 0} (id : Text) (w : World F) : Type 0 where
  pub same_id : w.id ≡ id
  pub last : Option ℕ
  pub conforms : Conforms id w.trace last
  pub in_step : w.registered ≡ true → last ≡ some w.seq

module _ {F : Type 0} (id : Text) where
  greet-InSession : (r : Option Text) (w : World F) → InSession id w → InSession id (greet r w).0
  unfolding greet
  greet-InSession none w h = h
  greet-InSession (some r) w h = elim (Bool-cases (starts_with (codes "OK|REGISTERED") r)) [
    | inl e ↦ rw e (record {
      same_id = h.same_id;
      last = some 0;
      conforms = accepted r e h.conforms;
      in_step = λ _. refl;
    })
    | inr e ↦ rw e (record {
      same_id = h.same_id;
      last = h.last;
      conforms = refused r e h.conforms;
      in_step = h.in_step;
    })
  ]

  -- a step that sends nothing and keeps the numbers
  keep :
      {v : World F} (w : World F)
      → v.id ≡ w.id
      → v.trace ≡ w.trace
      → (v.registered ≡ true → (w.registered ≡ true) × (v.seq ≡ w.seq))
      → InSession id w
      → InSession id v
  keep w same_id same_trace same_seq h = record {
    same_id = same_id ∙ h.same_id;
    last = h.last;
    conforms = rw same_trace h.conforms;
    in_step = λ r. rw ((same_seq r).1) (h.in_step (same_seq r).0);
  }

  ask-InSession :
      (a : Attempt) (addr : Text) (w : World F) → InSession id w → InSession id (ask a addr w).0
  unfolding ask
  ask-InSession a addr w h =
      if_either (λ (r : World F × Bool). InSession id r.0) (a.connects && a.sends)
        (greet-InSession (recv_line a.stream) _ (record {
          same_id = h.same_id;
          last = h.last;
          conforms = rw h.same_id (asked addr w.location h.conforms);
          in_step = h.in_step;
        }))
        h

  attempt-InSession : (a : Attempt) (w : World F) → InSession id w → InSession id (attempt a w).0
  unfolding attempt
  attempt-InSession a w h = elim (Option-cases a.dns) [
    | inl e ↦ rw (e, attempt) h
    | inr (addr, e) ↦ rw (e, attempt) (ask-InSession a addr _ (keep w refl refl (λ r. (r, refl)) h))
  ]

  note_reply-InSession : (b : Bytes) (w : World F) → InSession id w → InSession id (note_reply b w)
  unfolding note_reply
  note_reply-InSession b w h =
      if_either (InSession id) (starts_with (codes "NACK|104") (strip (decode b)))
        (record {
          same_id = h.same_id;
          last = h.last;
          conforms = answered _ h.conforms;
          in_step = λ r. cc;
        })
        (record {
          same_id = h.same_id;
          last = h.last;
          conforms = answered _ h.conforms;
          in_step = h.in_step;
        })

  part-InSession : (r : Option Text) (w : World F) → InSession id w → InSession id (part r w)
  unfolding part
  part-InSession none w h = h
  part-InSession (some r) w h = record {
    same_id = h.same_id;
    last = h.last;
    conforms = dismissed r h.conforms;
    in_step = h.in_step;
  }

  bye-InSession : (f : Farewell) (w : World F) → InSession id w → InSession id (bye f w).0
  unfolding bye
  bye-InSession f w h = elim (Option-cases w.ip) [
    | inl e ↦ rw (e, bye) h
    | inr (addr, e) ↦
        rw (e, bye)
          (if_either (InSession id) (f.connects && f.sends)
            (part-InSession (recv_line f.stream) _ (record {
              same_id = h.same_id;
              last = h.last;
              conforms = rw h.same_id (left addr h.conforms);
              in_step = h.in_step;
            }))
            h)
  ]

  send_datagram-InSession :
      (goes : Bool) (var value : Text) (sim' : Sim F) (w : World F)
      → IsVar var
      → Conforms id w.trace (some w.seq)
      → w.id ≡ id
      → InSession id
          (send_datagram goes var value
            (record w { node = record w.node { seq = w.seq + 1; sim = sim' } })).0
  unfolding send_datagram
  send_datagram-InSession true var value sim' w v c e = record {
    same_id = e;
    last = some (w.seq + 1);
    conforms = rw e (measured w.seq var value v c);
    in_step = λ r. refl;
  }
  send_datagram-InSession false var value sim' w v c e = record {
    same_id = e;
    last = some (w.seq + 1);
    conforms = lost w.seq c;
    in_step = λ r. refl;
  }

  send_one-InSession :
      (fl : FloatOps F) (s : Shot F) (var : Text) (w : World F)
      → IsVar var
      → w.registered ≡ true
      → InSession id w
      → InSession id (send_one fl s var w).0
  unfolding send_one
  send_one-InSession fl s var w v r h =
      let (sim', value, e) = measure_total fl (record w.node { seq = w.seq + 1 }) var s.draw v in
      rw (e, send_one)
        (send_datagram-InSession s.goes var value sim' w v (rw (h.in_step r) at h.conforms)
          h.same_id)

module _ {F : Type 0} (fl : FloatOps F) (id : Text) where
  session_steps : Steps fl (InSession id)
  unfolding stop
  session_steps = record {
    at_stop = λ b w. keep id w refl refl (λ r. (r, refl));
    at_wait = λ n w h. record {
      same_id = h.same_id;
      last = h.last;
      conforms = paused n h.conforms;
      in_step = h.in_step;
    };
    at_attempt = attempt-InSession id;
    at_send = send_one-InSession id fl;
    at_reply = note_reply-InSession id;
    at_loss = λ w. keep id w refl refl (λ r. cc);
    at_socket = λ b w. keep id w refl refl (λ r. (r, refl));
    at_bye = bye-InSession id;
  }

-- The world before `run`.
abbrev pub new_world : {F : Type 0} → FloatOps F → Text → Text → F → Option Text → World F
new_world fl id location rate forced = record { node = init fl id location rate forced; trace = [] }

new_world-InSession :
    {F : Type 0} (fl : FloatOps F) (id location : Text) (rate : F) (forced : Option Text)
    → InSession id (new_world fl id location rate forced)
unfolding init
new_world-InSession fl id location rate forced = record {
  same_id = refl;
  last = none;
  conforms = begin;
  in_step = λ r. cc;
}

-- Whatever the network, the signals and the random draws do, all that a new node sends is a session:
-- no datagram leaves before a REGISTER is accepted, the datagrams behind an accepted REGISTER are
-- numbered 1, 2, 3, … with one number for each `sendto`, and each names the node and one of the five
-- variables.
pub run-Conforms :
    {F : Type 0} (fl : FloatOps F) (id location : Text) (rate : F) (forced : Option Text)
    (f : Farewell) (cycles : List (Cycle F))
    → (s : Option ℕ) × Conforms id
        (run fl f cycles (new_world fl id location rate forced)).0.trace
        s
run-Conforms fl id location rate forced f cycles =
    let done =
      run_induction fl (InSession id) (session_steps fl id) f cycles
        (new_world fl id location rate forced) (new_world-InSession fl id location rate forced) in
    (done.last, done.conforms)
