-- ===== src/Node/Range.antt =====
-- node/node.py: the ranges of the simulated variables.
use telematica_telemetria.Base.{
  ℕ, ◌<◌, ◌≤◌, ◌+◌, Bool, true, false, Option, some, List, ◌≡◌, arith, ltb,
}
use telematica_telemetria.Base.Text.{Text, Bytes}
use telematica_telemetria.Node.State.{FloatOps, World, Node, Sim, stop, init}
use telematica_telemetria.Node.Simulation.{Draw, measure, drifted}
use telematica_telemetria.Node.Link.{Attempt, Farewell, attempt, bye}
use telematica_telemetria.Node.Telemetry.{Shot, send_one, send_datagram, note_reply}
use telematica_telemetria.Node.Run.{Cycle, run}
use telematica_telemetria.Node.Measure.{measure_total}
use telematica_telemetria.Node.Induction.{IsVar, Steps, run_induction}
use telematica_telemetria.Node.Session.{new_world}

-- What holds of `<` on floats, a NaN included, and of the literals between 0 and 4500 with two decimals.
pub record FloatLaws {F : Type 0} (fl : FloatOps F) : Type 0 where
  pub lt_asymm : (a b : F) → fl.lt a b ≡ true → fl.lt b a ≡ false
  pub lt_irrefl : (a : F) → fl.lt a a ≡ false
  pub lt_literals :
      (m n : ℕ) → m ≤ 450000 → n ≤ 450000 → fl.lt (fl.hundredths m) (fl.hundredths n) ≡ ltb m n

module _ {F : Type 0} where
  sim-attempt : (a : Attempt) (w : World F) → (attempt a w).0.sim ≡ w.sim
  unfolding attempt
  sim-attempt a w = ground arith

  sim-note_reply : (b : Bytes) (w : World F) → (note_reply b w).sim ≡ w.sim
  unfolding note_reply
  sim-note_reply b w = ground arith

  sim-bye : (f : Farewell) (w : World F) → (bye f w).0.sim ≡ w.sim
  unfolding bye
  sim-bye f w = ground arith

module _ {F : Type 0} (fl : FloatOps F) where
  -- Neither below m/100 nor above n/100.
  abbrev pub Within : ℕ → ℕ → F → Type 0
  Within m n x = (fl.lt x (fl.hundredths m) ≡ false) × (fl.lt (fl.hundredths n) x ≡ false)

  pub record InRange (s : Sim F) : Type 0 where
    pub temp : Within 1500 3500 s.temp
    pub hum : Within 3000 8000 s.hum
    pub energy : Within 30000 450000 s.energy
    pub vib : Within 20 600 s.vib

module _ {F : Type 0} (fl : FloatOps F) (laws : FloatLaws fl) where
  drifted-Within :
      (m n : ℕ) (x d : F)
      → m < n
      → n ≤ 450000
      → Within fl m n (drifted fl (fl.hundredths m) (fl.hundredths n) x d)
  unfolding drifted
  drifted-Within m n x d lt bound = ground (
    arith,
    laws.lt_irrefl (fl.hundredths m),
    laws.lt_irrefl (fl.hundredths n),
    laws.lt_literals m n (omega arith) bound,
    laws.lt_literals n m bound (omega arith),
    laws.lt_asymm (fl.add x d) (fl.hundredths n),
    laws.lt_asymm (fl.hundredths m) (fl.add x d),
    laws.lt_asymm (fl.hundredths m) (fl.hundredths n),
  )

  pub measure-InRange :
      (n n' : Node F) (var value : Text) (d : Draw F)
      → InRange fl n.sim
      → measure fl n var d ≡ some (n', value)
      → InRange fl n'.sim
  unfolding measure
  measure-InRange n n' var value d h e = record {
    temp =
        ground
          (arith, h.temp, drifted-Within 1500 3500 n.sim.temp d.drift (omega arith) (omega arith));
    hum =
        ground
          (arith, h.hum, drifted-Within 3000 8000 n.sim.hum d.drift (omega arith) (omega arith));
    energy = ground (
      arith,
      h.energy,
      drifted-Within 30000 450000 n.sim.energy d.drift (omega arith) (omega arith),
    );
    vib =
        ground (arith, h.vib, drifted-Within 20 600 n.sim.vib d.drift (omega arith) (omega arith));
  }

  send_datagram-InRange :
      (goes : Bool) (var value : Text) (w : World F)
      → InRange fl w.sim
      → InRange fl (send_datagram goes var value w).0.sim
  unfolding send_datagram
  send_datagram-InRange true var value w h = h
  send_datagram-InRange false var value w h = h

  send_one-InRange :
      (s : Shot F) (var : Text) (w : World F)
      → IsVar var
      → w.registered ≡ true
      → InRange fl w.sim
      → InRange fl (send_one fl s var w).0.sim
  unfolding send_one
  send_one-InRange s var w v r h =
      let n = record w.node { seq = w.seq + 1 } in
      let (sim', value, e) = measure_total fl n var s.draw v in
      rw (e, send_one)
        (send_datagram-InRange s.goes var value _
          (measure-InRange n (record n { sim = sim' }) var value s.draw h e))

  range_steps : Steps fl (λ w. InRange fl w.sim)
  unfolding stop
  range_steps = record {
    at_stop = λ b w h. h;
    at_wait = λ n w h. h;
    at_attempt = λ a w h. rw (sim-attempt a w) h;
    at_send = send_one-InRange;
    at_reply = λ b w h. rw (sim-note_reply b w) h;
    at_loss = λ w h. h;
    at_socket = λ b w h. h;
    at_bye = λ f w h. rw (sim-bye f w) h;
  }

  new_sim-InRange :
      (id location : Text) (rate : F) (forced : Option Text)
      → InRange fl (new_world fl id location rate forced).sim
  unfolding init
  new_sim-InRange id location rate forced = record {
    temp = (
      laws.lt_literals 2400 1500 (omega arith) (omega arith),
      laws.lt_literals 3500 2400 (omega arith) (omega arith),
    );
    hum = (
      laws.lt_literals 5500 3000 (omega arith) (omega arith),
      laws.lt_literals 8000 5500 (omega arith) (omega arith),
    );
    energy = (
      laws.lt_literals 120000 30000 (omega arith) (omega arith),
      laws.lt_literals 450000 120000 (omega arith) (omega arith),
    );
    vib = (
      laws.lt_literals 150 20 (omega arith) (omega arith),
      laws.lt_literals 600 150 (omega arith) (omega arith),
    );
  }

  -- Where `<` is asymmetric and irreflexive and orders the literals from 0 to 4500 with two decimals by
  -- value, the simulated
  -- temperature stays between 15 and 35, the humidity between 30 and 80, the energy between 300 and
  -- 4500 and the vibration between 0.2 and 6 wherever a run of a new node stops, whatever is drawn.
  pub run-InRange :
      (id location : Text) (rate : F) (forced : Option Text) (f : Farewell)
      (cycles : List (Cycle F))
      → InRange fl (run fl f cycles (new_world fl id location rate forced)).0.sim
  run-InRange id location rate forced f cycles =
      run_induction fl (λ w. InRange fl w.sim) range_steps f cycles _
        (new_sim-InRange id location rate forced)
