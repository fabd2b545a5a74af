-- ===== src/Node/Run.antt =====
-- node/node.py: `run`, over what the environment does in each round of its loop.
use telematica_telemetria.Base.{Bool, true, false, List, [], ◌∷◌, if◌then◌else◌, not, ◌&&◌}
use telematica_telemetria.Base.Text.{Text}
use telematica_telemetria.Node.State.{
  FloatOps, World, Exit, returned, raised, waiting, value_error, overflow_error, stop,
}
use telematica_telemetria.Node.Link.{Attempt, Farewell, register, bye}
use telematica_telemetria.Node.Telemetry.{Shot, Answer, send_telemetry, check_nack}

-- How `time.sleep(self.interval)` ends: it returns, or it raises a ValueError (the interval is negative or not
-- a number) or an OverflowError (it is too large).
pub data Sleep : Type 0 where
  slept refused too_long : Sleep

-- One round: a signal between the test of `running` and `register`, the attempts to register, the
-- five sends, a signal up to the next test of `running`, the sleep, and the replies that are pending.
pub record Cycle (F : Type 0) : Type 0 where
  pub early : Bool
  pub attempts : List Attempt
  pub shots : Text → Shot F
  pub signal : Bool
  pub sleep : Sleep
  pub answers : List Answer

module _ {F : Type 0} where
  -- what follows a call: an exception or an unfinished wait ends the run as it is
  abbrev pub then_ : World F × Exit → (World F → World F × Exit) → World F × Exit
  then_ r k =
      let (w, e) = r in
      elim e [ returned ↦ k w | raised x ↦ (w, raised x) | waiting ↦ (w, waiting) ]

  -- what follows the sleep
  abbrev pub woken : Sleep → World F × Exit → World F → World F × Exit
  woken slept next w = next
  woken refused next w = (w, raised value_error)
  woken too_long next w = (w, raised overflow_error)

  -- behind the loop
  unfoldable pub finish : Farewell → World F → World F × Exit
  finish f w = bye f (record w { node = record w.node { udp = false } })

  -- `if not self.registered: self.register()`
  unfoldable pub ensure_registered : Cycle F → World F → World F × Exit
  ensure_registered c w =
      if w.registered then (w, returned) else register 1 c.attempts (stop c.early w)

module _ {F : Type 0} (fl : FloatOps F) where
  -- from `send_telemetry` to the end of the round
  unfoldable pub exchange : Cycle F → World F → World F × Exit
  exchange c w =
      then_ (send_telemetry fl c.shots w)
        (λ w'. let v = stop c.signal w' in woken c.sleep (check_nack c.answers v) v)

  unfoldable pub run_loop : Farewell → List (Cycle F) → World F → World F × Exit
  run_loop f [] w = if w.running then (w, waiting) else finish f w
  run_loop f (c ∷ rest) w =
      if w.running
      then then_ (ensure_registered c w) (λ w'.
        if not w.registered && not w'.running
        then finish f w'
        else then_ (exchange c w') (run_loop f rest))
      else finish f w

  -- `run`: it creates the socket, loops, closes the socket and says goodbye
  unfoldable pub run : Farewell → List (Cycle F) → World F → World F × Exit
  unfolding run_loop finish
  run f cycles w = run_loop f cycles (record w { node = record w.node { udp = true } })
