-- ===== src/Node/Endings.antt =====
-- node/node.py: how the calls of a run can end.
use telematica_telemetria.Base.{
  ℕ, ◌*◌, min, Bool, true, false, ◌&&◌, ◌||◌, not, Option, none, some, List, [], ◌∷◌, ◌≡◌, ◌≢◌,
  refl, arith, if_either, if_split, Option-cases, inl, inr, ◌∙◌,
}
use telematica_telemetria.Base.Text.{Text}
use telematica_telemetria.Base.Codec.{encode}
use telematica_telemetria.Node.State.{
  World, Exit, returned, raised, waiting, os_error, value_error, type_error, overflow_error, Event,
  waited, stop, emit, bye_sent, bye_reply,
}
use telematica_telemetria.Node.Link.{
  Attempt, Farewell, attempt, register, bye, bye_msg, recv_line, part,
}
use telematica_telemetria.Node.Telemetry.{
  Answer, reply, unreachable, fails, note_reply, check_nack, go_on,
}
use telematica_telemetria.Node.Run.{
  Cycle, Sleep, slept, refused, too_long, woken, then_, finish, ensure_registered,
}

-- `BYE` with the node's name went to `addr`, and nothing but the reply came after it.
abbrev pub SaidBye : Text → Text → List Event → Type 0
SaidBye id addr (bye_sent a m ∷ t) = (a ≡ addr) × (m ≡ encode (bye_msg id))
SaidBye id addr (bye_reply r ∷ bye_sent a m ∷ t) = (a ≡ addr) × (m ≡ encode (bye_msg id))
SaidBye id addr _ = ⊥

-- Some attempt cannot encode the server's name.
abbrev pub unencodable : List Attempt → Bool
unencodable [] = false
unencodable (a ∷ tries) = not a.encodable || unencodable tries

abbrev pub is_refused : Sleep → Bool
is_refused refused = true
is_refused _ = false

abbrev pub is_too_long : Sleep → Bool
is_too_long too_long = true
is_too_long _ = false

-- There is a round with such an attempt or an interval that `sleep` refuses, or one with an interval that is
-- too long.
abbrev pub bad_value : {F : Type 0} → List (Cycle F) → Bool
bad_value [] = false
bad_value (c ∷ cycles) = (unencodable c.attempts || is_refused c.sleep) || bad_value cycles

abbrev pub bad_length : {F : Type 0} → List (Cycle F) → Bool
bad_length [] = false
bad_length (c ∷ cycles) = is_too_long c.sleep || bad_length cycles

-- How a run ends. It returns with `running` false and the socket closed, from an address that it
-- had, and with BYE sent if the network lets it. `connect` raises a `TypeError` in `bye` exactly
-- where the node never had an address. An `OSError` of `recvfrom` leaves the socket open, and so do a
-- `ValueError` and an `OverflowError`, for which there is a cause. A run that waits is still running.
abbrev pub Outcome : {F : Type 0} → Farewell → Bool → Bool → World F → Exit → Type 0
Outcome f v o w returned =
    (w.running ≡ false)
    × (w.udp ≡ false)
    × ((addr : Text) × (w.ip ≡ some addr)
        × (f.connects && f.sends ≡ true → SaidBye w.id addr w.trace))
Outcome f v o w (raised type_error) = (w.running ≡ false) × (w.udp ≡ false) × (w.ip ≡ none)
Outcome f v o w (raised os_error) = w.udp ≡ true
Outcome f v o w (raised value_error) = (v ≡ true) × (w.udp ≡ true)
Outcome f v o w (raised overflow_error) = (o ≡ true) × (w.udp ≡ true)
Outcome f v o w waiting = (w.running ≡ true) × (w.udp ≡ true)

-- How the calls in the loop end: the socket stays open, and a TypeError is not raised.
abbrev pub Inner : {F : Type 0} → Bool → Bool → World F → Exit → Type 0
Inner v o w returned = w.udp ≡ true
Inner v o w (raised os_error) = w.udp ≡ true
Inner v o w (raised value_error) = (v ≡ true) × (w.udp ≡ true)
Inner v o w (raised overflow_error) = (o ≡ true) × (w.udp ≡ true)
Inner v o w (raised type_error) = ⊥
Inner v o w waiting = (w.running ≡ true) × (w.udp ≡ true)

pub Inner-mono :
    {F : Type 0} (v o v' o' : Bool) (w : World F) (e : Exit)
    → (v ≡ true → v' ≡ true)
    → (o ≡ true → o' ≡ true)
    → Inner v o w e
    → Inner v' o' w e
Inner-mono v o v' o' w returned hv ho h = h
Inner-mono v o v' o' w (raised os_error) hv ho h = h
Inner-mono v o v' o' w (raised value_error) hv ho h = (hv h.0, h.1)
Inner-mono v o v' o' w (raised overflow_error) hv ho h = (ho h.0, h.1)
Inner-mono v o v' o' w (raised type_error) hv ho h = h
Inner-mono v o v' o' w waiting hv ho h = h

pub Outcome-mono :
    {F : Type 0} (f : Farewell) (v o v' o' : Bool) (w : World F) (e : Exit)
    → (v ≡ true → v' ≡ true)
    → (o ≡ true → o' ≡ true)
    → Outcome f v o w e
    → Outcome f v' o' w e
Outcome-mono f v o v' o' w returned hv ho h = h
Outcome-mono f v o v' o' w (raised os_error) hv ho h = h
Outcome-mono f v o v' o' w (raised value_error) hv ho h = (hv h.0, h.1)
Outcome-mono f v o v' o' w (raised overflow_error) hv ho h = (ho h.0, h.1)
Outcome-mono f v o v' o' w (raised type_error) hv ho h = h
Outcome-mono f v o v' o' w waiting hv ho h = h

or_left : (a b : Bool) → a ≡ true → a || b ≡ true
or_left a b h = ground arith

or_right : (a b : Bool) → b ≡ true → a || b ≡ true
or_right a b h = ground arith

module _ {F : Type 0} where
  udp-attempt : (a : Attempt) (w : World F) → (attempt a w).0.udp ≡ w.udp
  unfolding attempt
  udp-attempt a w = ground arith

  register-Inner :
      (n : ℕ) (tries : List Attempt) (w : World F)
      → w.udp ≡ true
      → Inner (unencodable tries) false (register n tries w).0 (register n tries w).1
  unfolding register
  register-Inner n [] w h =
      if_split (λ (e : Exit). Inner false false w e) w.running (λ r. (r, h)) (λ _. h)
  register-Inner n (a ∷ tries) w h =
      let v = not a.encodable || unencodable tries in
      let holds = λ (r : World F × Exit). Inner v false r.0 r.1 in
      let next = stop a.signal (emit (waited n) (attempt a w).0) in
      let (w', e) = register (min (n * 2) 30) tries next in
      let later =
        Inner-mono (unencodable tries) false v false w' e
          (or_right (not a.encodable) (unencodable tries)) (λ p. p)
          (register-Inner (min (n * 2) 30) tries next (udp-attempt a w ∙ h)) in
      if_either holds w.running
        (if_split holds a.encodable
          (λ _. if_either holds (attempt a w).1 (udp-attempt a w ∙ h) later)
          λ strange. (ground arith, h))
        h

  pub check_nack-Inner :
      (answers : List Answer) (w : World F)
      → w.udp ≡ true
      → Inner false false (check_nack answers w).0 (check_nack answers w).1
  unfolding check_nack
  check_nack-Inner [] w h = h
  check_nack-Inner (reply b ∷ answers) w h =
      check_nack-Inner answers (note_reply b w) (unfold note_reply in ground arith)
  check_nack-Inner (unreachable ∷ answers) w h = h
  check_nack-Inner (fails ∷ answers) w h = h

  pub ensure_registered-Inner :
      (c : Cycle F) (w : World F)
      → w.udp ≡ true
      → Inner (unencodable c.attempts) false (ensure_registered c w).0 (ensure_registered c w).1
  unfolding ensure_registered stop
  ensure_registered-Inner c w h =
      if_either (λ (r : World F × Exit). Inner (unencodable c.attempts) false r.0 r.1) w.registered
        h (register-Inner 1 c.attempts (stop c.early w) h)

  said-Outcome :
      (f : Farewell) (v o : Bool) (r : Option Text) (addr : Text) (w : World F)
      → w.running ≡ false
      → w.udp ≡ false
      → w.ip ≡ some addr
      → Outcome f v o (part r (emit (bye_sent addr (encode (bye_msg w.id))) w)) returned
  unfolding part
  said-Outcome f v o none addr w h u e = (h, u, (addr, e, λ _. (refl, refl)))
  said-Outcome f v o (some r) addr w h u e = (h, u, (addr, e, λ _. (refl, refl)))

  silent-Outcome :
      (f : Farewell) (v o : Bool) (addr : Text) (w : World F)
      → (f.connects && f.sends) ≡ false
      → w.running ≡ false
      → w.udp ≡ false
      → w.ip ≡ some addr
      → Outcome f v o w returned
  silent-Outcome f v o addr w silent h u e = (h, u, (addr, e, λ spoken. absurd (cc)))

  pub finish-Outcome :
      (f : Farewell) (v o : Bool) (w : World F)
      → w.running ≡ false
      → Outcome f v o (finish f w).0 (finish f w).1
  unfolding finish bye
  finish-Outcome f v o w h = elim (Option-cases w.ip) [
    | inl e ↦ rw (e, finish, bye) (h, refl, e)
    | inr (addr, e) ↦
        let w' = record w { node = record w.node { udp = false } } in
        rw (e, finish, bye)
          (if_split (λ (u : World F). Outcome f v o u returned) (f.connects && f.sends)
            {x = part (recv_line f.stream) (emit (bye_sent addr (encode (bye_msg w.id))) w')}
            {y = w'} (λ _. said-Outcome f v o (recv_line f.stream) addr w' h refl e)
            (λ silent. silent-Outcome f v o addr w' silent h refl e))
  ]

  pub then-Outcome :
      (f : Farewell) (v o : Bool) (r : World F × Exit) (k : World F → World F × Exit)
      → Inner v o r.0 r.1
      → (r.1 ≡ returned → r.0.udp ≡ true → Outcome f v o (k r.0).0 (k r.0).1)
      → Outcome f v o (then_ r k).0 (then_ r k).1
  then-Outcome f v o (w, returned) k h next = next refl h
  then-Outcome f v o (w, raised os_error) k h next = h
  then-Outcome f v o (w, raised value_error) k h next = h
  then-Outcome f v o (w, raised overflow_error) k h next = h
  then-Outcome f v o (w, raised type_error) k h next = absurd h
  then-Outcome f v o (w, waiting) k h next = h

  pub then-Inner :
      (v o : Bool) (r : World F × Exit) (k : World F → World F × Exit)
      → Inner v o r.0 r.1
      → (r.1 ≡ returned → r.0.udp ≡ true → Inner v o (k r.0).0 (k r.0).1)
      → Inner v o (then_ r k).0 (then_ r k).1
  then-Inner v o (w, returned) k h next = next refl h
  then-Inner v o (w, raised os_error) k h next = h
  then-Inner v o (w, raised value_error) k h next = h
  then-Inner v o (w, raised overflow_error) k h next = h
  then-Inner v o (w, raised type_error) k h next = h
  then-Inner v o (w, waiting) k h next = h

  pub woken-Inner :
      (s : Sleep) (r : World F × Exit) (w : World F)
      → Inner false false r.0 r.1
      → w.udp ≡ true
      → Inner (is_refused s) (is_too_long s) (woken s r w).0 (woken s r w).1
  woken-Inner slept r w h u = h
  woken-Inner refused r w h u = (refl, u)
  woken-Inner too_long r w h u = (refl, u)

  pub go_on-Inner :
      (o : Option Bool) (rest : World F × Exit) (w : World F)
      → o ≢ none
      → Inner false false rest.0 rest.1
      → w.udp ≡ true
      → Inner false false (go_on o rest w).0 (go_on o rest w).1
  go_on-Inner none rest w raises hr hw = absurd (raises refl)
  go_on-Inner (some true) rest w raises hr hw = hr
  go_on-Inner (some false) rest w raises hr hw = hw

  pub stopped_not_running :
      (w v : World F) → (not w.registered && not v.running) ≡ true → v.running ≡ false
  stopped_not_running w v h = ground arith
