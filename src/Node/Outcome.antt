-- ===== src/Node/Outcome.antt =====
-- node/node.py: how a run can end, and in what state it leaves the node.
use telematica_telemetria.Base.{
  ◌+◌, true, false, ◌&&◌, not, none, List, [], ◌∷◌, ◌≡◌, ◌≢◌, refl, arith, All, if◌then◌else◌,
  if_split,
}
use telematica_telemetria.Base.Text.{Text}
use telematica_telemetria.Base.Codec.{IsScalar}
use telematica_telemetria.Node.State.{FloatOps, World, Exit, stop, vars}
use telematica_telemetria.Node.Link.{Farewell}
use telematica_telemetria.Node.Telemetry.{
  Shot, send_one, send_all, send_telemetry, check_nack, send_datagram,
}
use telematica_telemetria.Node.Measure.{measure_total}
use telematica_telemetria.Node.Induction.{IsVar, vars-IsVar}
use telematica_telemetria.Node.Run.{
  Cycle, woken, then_, finish, ensure_registered, exchange, run_loop, run,
}
use telematica_telemetria.Node.Endings.{
  Inner, Inner-mono, Outcome, Outcome-mono, bad_length, bad_value, check_nack-Inner,
  ensure_registered-Inner, finish-Outcome, go_on-Inner, is_refused, is_too_long,
  stopped_not_running, then-Inner, then-Outcome, unencodable, woken-Inner,
}

module _ {F : Type 0} (fl : FloatOps F) where
  -- a datagram goes on or ends the loop; it raises nothing
  send_one-Inner :
      (s : Shot F) (var : Text) (w : World F)
      → IsVar var
      → w.udp ≡ true
      → ((send_one fl s var w).0.udp ≡ true) × ((send_one fl s var w).1 ≢ none)
  unfolding send_one
  send_one-Inner s var w v h =
      let (sim', value, e) = measure_total fl (record w.node { seq = w.seq + 1 }) var s.draw v in
      rw (e, send_one) (unfold send_datagram in (ground arith, λ p. cc))

  send_all-Inner :
      (shots : Text → Shot F) (names : List Text) (w : World F)
      → All IsVar names
      → w.udp ≡ true
      → Inner false false (send_all fl shots names w).0 (send_all fl shots names w).1
  unfolding send_all
  send_all-Inner shots [] w vs h = h
  send_all-Inner shots (v ∷ names) w vs h =
      let (open_still, no_raise) = send_one-Inner (shots v) v w vs.0 h in
      let w' = (send_one fl (shots v) v w).0 in
      go_on-Inner (send_one fl (shots v) v w).1 (send_all fl shots names w') w' no_raise
        (send_all-Inner shots names w' vs.1 open_still) open_still

  send_telemetry-Inner :
      (shots : Text → Shot F) (w : World F)
      → w.udp ≡ true
      → Inner false false (send_telemetry fl shots w).0 (send_telemetry fl shots w).1
  unfolding send_telemetry
  send_telemetry-Inner shots w = send_all-Inner shots vars w vars-IsVar

  exchange-Inner :
      (c : Cycle F) (w : World F)
      → w.udp ≡ true
      → Inner (is_refused c.sleep) (is_too_long c.sleep) (exchange fl c w).0 (exchange fl c w).1
  unfolding exchange stop
  exchange-Inner c w h =
      let v = is_refused c.sleep in
      let o = is_too_long c.sleep in
      let (w', e) = send_telemetry fl c.shots w in
      let sent =
        Inner-mono false false v o w' e (λ p. absurd (cc)) (λ p. absurd (cc))
          (send_telemetry-Inner c.shots w h) in
      then-Inner v o (send_telemetry fl c.shots w)
        (λ w'. let v = stop c.signal w' in woken c.sleep (check_nack c.answers v) v) sent
        λ e u. woken-Inner c.sleep (check_nack c.answers _) _ (check_nack-Inner c.answers _ u) u

  run_loop-Outcome :
      (f : Farewell) (cycles : List (Cycle F)) (w : World F)
      → w.udp ≡ true
      → Outcome f
          (bad_value cycles)
          (bad_length cycles)
          (run_loop fl f cycles w).0
          (run_loop fl f cycles w).1
  unfolding run_loop
  run_loop-Outcome f [] w h =
      if_split (λ (r : World F × Exit). Outcome f false false r.0 r.1) w.running (λ r. (r, h))
        (finish-Outcome f false false w)
  run_loop-Outcome f (c ∷ rest) w h =
      let v = bad_value (c ∷ rest) in
      let o = bad_length (c ∷ rest) in
      let holds = λ (r : World F × Exit). Outcome f v o r.0 r.1 in
      let (w₁, e₁) = ensure_registered c w in
      let (w₂, e₂) = exchange fl c w₁ in
      let (w₃, e₃) = run_loop fl f rest w₂ in
      let ready =
        Inner-mono (unencodable c.attempts) false v o w₁ e₁ (λ p. ground arith) (λ p. absurd (cc))
          (ensure_registered-Inner c w h) in
      if_split holds w.running
        (λ _.
          then-Outcome f v o (ensure_registered c w)
            (λ u.
              if not w.registered && not u.running
              then finish f u
              else then_ (exchange fl c u) (run_loop fl f rest))
            ready
            λ _ open₁.
              if_split holds (not w.registered && not w₁.running)
                (λ stopped. finish-Outcome f v o w₁ (stopped_not_running w w₁ stopped))
                λ _.
                  then-Outcome f v o (exchange fl c w₁) (run_loop fl f rest)
                    (Inner-mono (is_refused c.sleep) (is_too_long c.sleep) v o w₂ e₂
                      (λ p. ground arith) (λ p. ground arith) (exchange-Inner c w₁ open₁))
                    λ _ open₂.
                      Outcome-mono f (bad_value rest) (bad_length rest) v o w₃ e₃
                        (λ p. ground arith) (λ p. ground arith) (run_loop-Outcome f rest w₂ open₂))
        (finish-Outcome f v o w)

  -- For an id and a place without surrogates, and whatever the environment does, a run ends in one of these
  -- ways. It returns with `running` false, its
  -- socket closed and an address that it had resolved; then BYE with the node's name is the last
  -- message to that address, if `connect` and `sendall` succeed. It raises a TypeError with `running`
  -- false, the socket closed and no address. It raises the OSError of `recvfrom` with the socket open. It
  -- raises a ValueError, with the socket open, only where some round has a name that cannot be encoded or
  -- an interval that `sleep` refuses, and an OverflowError only where an interval is too long. Or it
  -- waits, with `running` true and the socket open.
  pub run-Outcome :
      (f : Farewell) (cycles : List (Cycle F)) (w : World F)
      → All IsScalar w.id
      → All IsScalar w.location
      → Outcome f (bad_value cycles) (bad_length cycles) (run fl f cycles w).0 (run fl f cycles w).1
  unfolding run
  run-Outcome f cycles w hi hl = run_loop-Outcome f cycles _ refl
