-- ===== src/Node/Induction.antt =====
-- node/node.py: a property that every step of a run keeps holds wherever a run stops.
use telematica_telemetria.Base.{
  ℕ, ◌*◌, min, Bool, true, false, Option, none, some, List, [], ◌∷◌, if◌then◌else◌, not, ◌&&◌, ◌≡◌,
  refl, arith, inl, inr, All, ◌⊎◌, if_either, if_split, ◌∙◌,
}
use telematica_telemetria.Base.Text.{Text, Bytes, codes}
use telematica_telemetria.Node.State.{
  FloatOps, World, Exit, returned, raised, waiting, stop, emit, waited, vars,
}
use telematica_telemetria.Node.Simulation.{measure}
use telematica_telemetria.Node.Link.{Attempt, Farewell, attempt, register, bye}
use telematica_telemetria.Node.Telemetry.{
  Shot, Answer, reply, unreachable, fails, send_one, send_all, send_telemetry, note_reply,
  check_nack, go_on,
}
use telematica_telemetria.Node.Run.{
  Cycle, Sleep, slept, refused, too_long, woken, then_, finish, ensure_registered, exchange,
  run_loop, run,
}

-- A name that `send_telemetry` sends.
abbrev pub IsVar : Text → Type 0
IsVar v =
    (v ≡ codes "TEMP")
    ⊎ (v ≡ codes "HUM")
    ⊎ (v ≡ codes "ENERGY")
    ⊎ (v ≡ codes "VIB")
    ⊎ (v ≡ codes "STATUS")

pub vars-IsVar : All IsVar vars
vars-IsVar = (
  inl refl,
  (
    inr (inl refl),
    (inr (inr (inl refl)), (inr (inr (inr (inl refl))), (inr (inr (inr (inr refl))), tt))),
  ),
)

-- A datagram is sent by a registered node only.
pub record Steps {F : Type 0} (fl : FloatOps F) (P : World F → Type 0) : Type 0 where
  pub at_stop : (b : Bool) (w : World F) → P w → P (stop b w)
  pub at_wait : (n : ℕ) (w : World F) → P w → P (emit (waited n) w)
  pub at_attempt : (a : Attempt) (w : World F) → P w → P (attempt a w).0
  pub at_send :
      (s : Shot F) (var : Text) (w : World F)
      → IsVar var
      → w.registered ≡ true
      → P w
      → P (send_one fl s var w).0
  pub at_reply : (b : Bytes) (w : World F) → P w → P (note_reply b w)
  pub at_loss : (w : World F) → P w → P (record w { node = record w.node { registered = false } })
  pub at_socket : (b : Bool) (w : World F) → P w → P (record w { node = record w.node { udp = b } })
  pub at_bye : (f : Farewell) (w : World F) → P w → P (bye f w).0

module _ {F : Type 0} where
  -- An attempt that ends `register` has registered the node, whose numbers begin again.
  pub attempt_done :
      (a : Attempt) (w : World F)
      → (attempt a w).1 ≡ true
      → ((attempt a w).0.registered ≡ true) × ((attempt a w).0.seq ≡ 0)
  unfolding attempt
  attempt_done a w e = ground arith

  -- what `register` gives back: it returned, to a node that is registered or told to stop
  pub register_post :
      (n : ℕ) (tries : List Attempt) (w : World F)
      → (register n tries w).1 ≡ returned
      → not (register n tries w).0.registered && (register n tries w).0.running ≡ false
  unfolding register
  register_post n [] w e = ground arith
  register_post n (a ∷ tries) w e = ground (
    arith,
    attempt_done a w,
    register_post (min (n * 2) 30) tries (stop a.signal (emit (waited n) (attempt a w).0)),
  )

  -- where the loop goes on to send, the node is registered
  ensure_post :
      (c : Cycle F) (w : World F)
      → (ensure_registered c w).1 ≡ returned
      → (not w.registered && not (ensure_registered c w).0.running) ≡ false
      → (ensure_registered c w).0.registered ≡ true
  unfolding ensure_registered
  ensure_post c w e going = ground (arith, register_post 1 c.attempts (stop c.early w))

module _ {F : Type 0} (fl : FloatOps F) where
  pub registered-send_one :
      (s : Shot F) (var : Text) (w : World F) → (send_one fl s var w).0.registered ≡ w.registered
  unfolding send_one measure
  registered-send_one s var w = ground arith

module _ {F : Type 0} (fl : FloatOps F) (P : World F → Type 0) (steps : Steps fl P) where
  -- the world of a result
  abbrev Holds : World F × Exit → Type 0
  Holds r = P r.0

  go_on_either :
      (o : Option Bool) (rest : World F × Exit) (w : World F)
      → P rest.0
      → P w
      → Holds (go_on o rest w)
  go_on_either none rest w hr hw = hw
  go_on_either (some true) rest w hr hw = hr
  go_on_either (some false) rest w hr hw = hw

  register_induction : (n : ℕ) (tries : List Attempt) (w : World F) → P w → P (register n tries w).0
  unfolding register
  register_induction n [] w h = h
  register_induction n (a ∷ tries) w h =
      let step = steps.at_attempt a w h in
      if_either Holds w.running
        (if_either Holds a.encodable
          (if_either Holds (attempt a w).1 (steps.at_stop a.signal _ step) (
            register_induction (min (n * 2) 30) tries
              (stop a.signal (emit (waited n) (attempt a w).0))
              (steps.at_stop a.signal _ (steps.at_wait n _ step))))
          h)
        h

  send_all_induction :
      (shots : Text → Shot F) (names : List Text) (w : World F)
      → All IsVar names
      → w.registered ≡ true
      → P w
      → P (send_all fl shots names w).0
  unfolding send_all
  send_all_induction shots [] w vs r h = h
  send_all_induction shots (v ∷ names) w vs r h =
      let sent = steps.at_send (shots v) v w vs.0 r h in
      let w' = (send_one fl (shots v) v w).0 in
      go_on_either (send_one fl (shots v) v w).1 (send_all fl shots names w') w'
        (send_all_induction shots names w' vs.1 (registered-send_one fl (shots v) v w ∙ r) sent)
        sent

  check_nack_induction : (tries : List Answer) (w : World F) → P w → P (check_nack tries w).0
  unfolding check_nack
  check_nack_induction [] w h = h
  check_nack_induction (reply b ∷ tries) w h =
      check_nack_induction tries (note_reply b w) (steps.at_reply b w h)
  check_nack_induction (unreachable ∷ tries) w h = steps.at_loss w h
  check_nack_induction (fails ∷ tries) w h = h

  then_induction :
      (r : World F × Exit) (k : World F → World F × Exit)
      → Holds r
      → (r.1 ≡ returned → Holds (k r.0))
      → Holds (then_ r k)
  then_induction (w, returned) k h next = next refl
  then_induction (w, raised x) k h next = h
  then_induction (w, waiting) k h next = h

  woken_induction :
      (s : Sleep) (r : World F × Exit) (w : World F) → Holds r → P w → Holds (woken s r w)
  woken_induction slept r w h k = h
  woken_induction refused r w h k = k
  woken_induction too_long r w h k = k

  finish_induction : (f : Farewell) (w : World F) → P w → P (finish f w).0
  unfolding finish
  finish_induction f w h = steps.at_bye f _ (steps.at_socket false w h)

  send_telemetry_induction :
      (shots : Text → Shot F) (w : World F)
      → w.registered ≡ true
      → P w
      → P (send_telemetry fl shots w).0
  unfolding send_telemetry
  send_telemetry_induction shots w = send_all_induction shots vars w vars-IsVar

  exchange_induction :
      (c : Cycle F) (w : World F) → w.registered ≡ true → P w → P (exchange fl c w).0
  unfolding exchange
  exchange_induction c w r h =
      let sent = send_telemetry_induction c.shots w r h in
      let stopped = steps.at_stop c.signal _ sent in
      then_induction (send_telemetry fl c.shots w)
        (λ w'. let v = stop c.signal w' in woken c.sleep (check_nack c.answers v) v) sent
        λ e. woken_induction c.sleep _ _ (check_nack_induction c.answers _ stopped) stopped

  ensure_registered_induction : (c : Cycle F) (w : World F) → P w → P (ensure_registered c w).0
  unfolding ensure_registered
  ensure_registered_induction c w h =
      if_either Holds w.registered h
        (register_induction 1 c.attempts (stop c.early w) (steps.at_stop c.early w h))

  run_loop_induction :
      (f : Farewell) (cycles : List (Cycle F)) (w : World F) → P w → P (run_loop fl f cycles w).0
  unfolding run_loop
  run_loop_induction f [] w h = if_either Holds w.running h (finish_induction f w h)
  run_loop_induction f (c ∷ rest) w h =
      let (w', _) = ensure_registered c w in
      let ready = ensure_registered_induction c w h in
      if_either Holds w.running
        (then_induction (ensure_registered c w)
          (λ v.
            if not w.registered && not v.running
            then finish f v
            else then_ (exchange fl c v) (run_loop fl f rest))
          ready
          λ e.
            if_split Holds (not w.registered && not w'.running) (λ _. finish_induction f w' ready)
              λ going.
                let exchanged = exchange_induction c w' (ensure_post c w e going) ready in
                then_induction (exchange fl c w') (run_loop fl f rest) exchanged
                  λ _. run_loop_induction f rest (exchange fl c w').0 exchanged)
        (finish_induction f w h)

  pub run_induction :
      (f : Farewell) (cycles : List (Cycle F)) (w : World F) → P w → P (run fl f cycles w).0
  unfolding run
  run_induction f cycles w h = run_loop_induction f cycles _ (steps.at_socket true w h)
