-- ===== src/Node/Unresolved.antt =====
-- node/node.py: a node that is stopped before its server's name ever resolves.
use telematica_telemetria.Base.{
  ℕ, ◌*◌, min, true, false, none, List, [], ◌∷◌, ◌++◌, ◌≡◌, ◌⊎◌, inl, inr, refl, arith, All,
  All-append, append_assoc, ap, sym, ◌∙◌,
}
use telematica_telemetria.Node.State.{
  FloatOps, World, Event, returned, raised, type_error, waited, emit, stop,
}
use telematica_telemetria.Node.Link.{Attempt, Farewell, register, attempt, bye}
use telematica_telemetria.Node.Run.{Cycle, run, run_loop, ensure_registered, finish}

-- Name resolution fails with an `OSError`.
abbrev Fails : Attempt → Type 0
Fails a = (a.encodable ≡ true) × (a.dns ≡ none)

-- It does, and no signal arrives before `register` tests `running` again.
abbrev pub Unresolved : Attempt → Type 0
Unresolved a = Fails a × (a.signal ≡ false)

-- The signal arrives in front of the first attempt, or behind attempts that all fail to resolve the name.
abbrev pub Stopped : {F : Type 0} → Cycle F → Type 0
Stopped c =
    (c.early ≡ true)
    ⊎ ((c.early ≡ false)
        × ((bad : List Attempt) × (a : Attempt) × (c.attempts ≡ bad ++ a ∷ [])
            × All Unresolved bad
            × Fails a
            × (a.signal ≡ true)))

abbrev IsWait : Event → Type 0
IsWait (waited n) = Unit
IsWait _ = ⊥

-- Nothing but waits has been added to the events.
abbrev pub OnlyWaits : List Event → List Event → Type 0
OnlyWaits before after = (new : List Event) × (after ≡ new ++ before) × All IsWait new

one_more : (n : ℕ) (s t : List Event) → OnlyWaits (waited n ∷ s) t → OnlyWaits s t
one_more n s t (new, same, waits) = (
  new ++ waited n ∷ [],
  same ∙ sym (append_assoc new (waited n ∷ []) s),
  All-append IsWait new (waited n ∷ []) waits (tt, tt),
)

module _ {F : Type 0} where
  -- what `register` leaves of a node that has no address
  abbrev Lost : World F → World F → Type 0
  Lost w w' =
      (w'.running ≡ false) × (w'.ip ≡ none) × (w'.registered ≡ false) × OnlyWaits w.trace w'.trace

  attempt_unresolved : (a : Attempt) (w : World F) → a.dns ≡ none → attempt a w ≡ (w, false)
  unfolding attempt
  attempt_unresolved a w e = rw (e, attempt)

  register_stopped :
      (n : ℕ) (tries : List Attempt) (w : World F)
      → w.running ≡ false
      → register n tries w ≡ (w, returned)
  unfolding register
  register_stopped n [] w h = ground arith
  register_stopped n (a ∷ tries) w h = ground arith

  -- one attempt that fails
  register-Fails :
      (n : ℕ) (a : Attempt) (rest : List Attempt) (w : World F)
      → Fails a
      → w.running ≡ true
      → register n (a ∷ rest) w ≡ register (min (n * 2) 30) rest (stop a.signal (emit (waited n) w))
  unfolding register
  register-Fails n a rest w h ru = ground (arith, attempt_unresolved a w h.1)

  register-Unresolved :
      (n : ℕ) (bad : List Attempt) (a : Attempt) (w : World F)
      → All Unresolved bad
      → Fails a
      → a.signal ≡ true
      → w.ip ≡ none
      → w.running ≡ true
      → w.registered ≡ false
      → let (w', e) = register n (bad ++ a ∷ []) w in (e ≡ returned) × Lost w w'
  unfolding stop
  register-Unresolved n [] a w h fa es ei ru er =
      let w' = stop a.signal (emit (waited n) w) in
      let stopped : w'.running ≡ false = ground arith in
      rw (register-Fails n a [] w fa ru ∙ register_stopped (min (n * 2) 30) [] w' stopped)
        (refl, (stopped, ei, er, (waited n ∷ [], refl, (tt, tt))))
  register-Unresolved n (b ∷ bad) a w h fa es ei ru er =
      let next = stop b.signal (emit (waited n) w) in
      let going : next.running ≡ true = ground arith in
      let (e, (stopped, noip, unreg, waits)) =
        register-Unresolved (min (n * 2) 30) bad a next h.1 fa es ei going er in
      rw (register-Fails n b (bad ++ a ∷ []) w h.0.0 ru)
        (e, (stopped, noip, unreg, one_more n w.trace _ waits))

  ensure_unregistered :
      (c : Cycle F) (w : World F)
      → w.registered ≡ false
      → ensure_registered c w ≡ register 1 c.attempts (stop c.early w)
  unfolding ensure_registered
  ensure_unregistered c w h = ground arith

  ensure-Lost :
      (c : Cycle F) (w : World F)
      → Stopped c
      → w.ip ≡ none
      → w.running ≡ true
      → w.registered ≡ false
      → ((ensure_registered c w).1 ≡ returned) × Lost w (ensure_registered c w).0
  unfolding stop
  ensure-Lost c w (inl early) ei ru er =
      let stopped : (stop c.early w).running ≡ false = ground arith in
      rw (ensure_unregistered c w er ∙ register_stopped 1 c.attempts (stop c.early w) stopped)
        (refl, (stopped, ei, er, ([], refl, tt)))
  ensure-Lost c w (inr (late, (bad, a, tries, h, fa, es))) ei ru er =
      let going : (stop c.early w).running ≡ true = ground arith in
      rw (ensure_unregistered c w er ∙ ap (λ rounds. register 1 rounds (stop c.early w)) tries)
        (register-Unresolved 1 bad a (stop c.early w) h fa es ei going er)

  -- behind the loop, without an address
  finish_unresolved :
      (f : Farewell) (w : World F)
      → w.ip ≡ none
      → ((finish f w).1 ≡ raised type_error) × ((finish f w).0.trace ≡ w.trace)
  unfolding finish bye
  finish_unresolved f w e = rw e (refl, refl)

  -- a loop that ends in its first round
  run_once :
      (fl : FloatOps F) (f : Farewell) (c : Cycle F) (rest : List (Cycle F)) (w : World F)
      → let w₀ = record w { node = record w.node { udp = true } } in
        w.running ≡ true
        → w.registered ≡ false
        → (ensure_registered c w₀).1 ≡ returned
        → (ensure_registered c w₀).0.running ≡ false
        → run fl f (c ∷ rest) w ≡ finish f (ensure_registered c w₀).0
  unfolding run run_loop
  run_once fl f c rest w ru er e stopped = ground arith

-- A node that runs, is not registered and has no address, and that a signal stops in front of the first
-- attempt or behind attempts that all failed to resolve the server's name: `run` ends in an uncaught
-- TypeError, since `bye` connects to the address None, and nothing has gone out, neither a REGISTER nor a
-- BYE: the node has only waited.
pub run-Unresolved :
    {F : Type 0} (fl : FloatOps F) (f : Farewell) (c : Cycle F) (rest : List (Cycle F))
    (w : World F)
    → Stopped c
    → w.ip ≡ none
    → w.running ≡ true
    → w.registered ≡ false
    → let (w', e) = run fl f (c ∷ rest) w in (e ≡ raised type_error) × OnlyWaits w.trace w'.trace
run-Unresolved fl f c rest w stops ei ru er =
    let w₀ = record w { node = record w.node { udp = true } } in
    let (e, (stopped, noip, unreg, waits)) = ensure-Lost c w₀ stops ei ru er in
    let (ended, same) = finish_unresolved f (ensure_registered c w₀).0 noip in
    rw (run_once fl f c rest w ru er e stopped, same) (ended, waits)
