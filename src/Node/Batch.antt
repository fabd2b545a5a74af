-- ===== src/Node/Batch.antt =====
-- node/node.py: what one call of `send_telemetry` and of `check_nack` does.
use telematica_telemetria.Base.{
  ℕ, suc, ◌+◌, Bool, true, false, ◌||◌, some, List, [], ◌∷◌, ◌≡◌, refl, arith, All, if◌then◌else◌,
  sym, ap, ◌∙◌,
}
use mathlib.Core.Path.{subst}
use telematica_telemetria.Base.Text.{Text, Bytes, codes, starts_with, strip}
use telematica_telemetria.Base.Codec.{encode, decode}
use telematica_telemetria.Node.State.{
  FloatOps, World, Event, udp_sent, udp_failed, Exit, returned, vars,
}
use telematica_telemetria.Node.Telemetry.{
  Shot, Answer, reply, unreachable, fails, send_one, send_all, send_telemetry, note_reply,
  check_nack, send_datagram, telemetry_msg,
}
use telematica_telemetria.Node.Measure.{measure_total}
use telematica_telemetria.Node.Induction.{IsVar, vars-IsVar}

-- How many datagrams go out before the first `sendto` that fails.
abbrev pub going : {F : Type 0} → (Text → Shot F) → List Text → ℕ
going shots [] = 0
going shots (v ∷ names) = let more = going shots names in if (shots v).goes then suc more else 0

-- How many numbers that uses up: the failed one too.
abbrev pub numbered : {F : Type 0} → (Text → Shot F) → List Text → ℕ
numbered shots [] = 0
numbered shots (v ∷ names) =
    let more = numbered shots names in if (shots v).goes then suc more else 1

abbrev Either : Bool → Type 0 → Type 0 → Type 0
Either true A B = A
Either false A B = B

-- The events `s` become `t` by one datagram for each name, in the order of the names, numbered behind `k`, each
-- with some value of its variable; the first that `sendto` refuses is the last.
abbrev pub Emits :
    {F : Type 0} → Text → (Text → Shot F) → ℕ → List Text → List Event → List Event → Type 0
Emits id shots k [] s t = t ≡ s
Emits id shots k (v ∷ names) s t =
    Either (shots v).goes
      ((value : Text) × Emits id shots (suc k) names
          (udp_sent (encode (telemetry_msg id (suc k) v value)) ∷ s) t)
      (t ≡ udp_failed ∷ s)

either_intro : {A B : Type 0} (b : Bool) → (b ≡ true → A) → (b ≡ false → B) → Either b A B
either_intro true f g = f refl
either_intro false f g = g refl

Emits-eq :
    {F : Type 0} (shots : Text → Shot F) (names : List Text) {id id' : Text} {k k' : ℕ}
    {s s' : List Event} (t : List Event)
    → id' ≡ id
    → k' ≡ k
    → s' ≡ s
    → Emits id' shots k' names s' t
    → Emits id shots k names s t
Emits-eq shots names t p q r h = rw (← p, ← q, ← r) h

module _ {F : Type 0} (fl : FloatOps F) where
  send_one_counts :
      (s : Shot F) (v : Text) (w : World F)
      → IsVar v
      → ((send_one fl s v w).0.seq ≡ w.seq + 1)
        × ((send_one fl s v w).0.sent ≡ (if s.goes then w.sent + 1 else w.sent))
        × ((send_one fl s v w).1 ≡ some s.goes)
  unfolding send_one
  send_one_counts s v w iv =
      let (sim', value, e) = measure_total fl (record w.node { seq = w.seq + 1 }) v s.draw iv in
      rw (e, send_one) (unfold send_datagram in ground arith)

  send_all_counts :
      (shots : Text → Shot F) (names : List Text) (w : World F)
      → All IsVar names
      → let (w', e) = send_all fl shots names w in
        (w'.seq ≡ w.seq + numbered shots names)
        × (w'.sent ≡ w.sent + going shots names)
        × (e ≡ returned)
  unfolding send_all
  send_all_counts shots [] w vs = (omega arith, omega arith, refl)
  send_all_counts shots (v ∷ names) w vs = ground (
    arith,
    send_one_counts (shots v) v w vs.0,
    send_all_counts shots names (send_one fl (shots v) v w).0 vs.1,
  )

  -- the event of one name
  send_one_event :
      (s : Shot F) (v : Text) (w : World F)
      → IsVar v
      → ((value : Text) × ((send_one fl s v w).0.trace
            ≡ (if s.goes
                then udp_sent (encode (telemetry_msg w.id (suc w.seq) v value))
                else udp_failed)
              ∷ w.trace))
        × ((send_one fl s v w).0.id ≡ w.id)
  unfolding send_one
  send_one_event s v w iv =
      let (sim', value, e) = measure_total fl (record w.node { seq = w.seq + 1 }) v s.draw iv in
      (
        (value, rw (e, send_one) (unfold send_datagram in ground arith)),
        rw (e, send_one) (unfold send_datagram in ground arith),
      )

  send_all_next :
      (shots : Text → Shot F) (v : Text) (names : List Text) (w : World F) (b : Bool)
      → (send_one fl (shots v) v w).1 ≡ some b
      → let w' = (send_one fl (shots v) v w).0 in
        send_all fl shots (v ∷ names) w ≡ (if b then send_all fl shots names w' else (w', returned))
  unfolding send_all
  send_all_next shots v names w true e = rw e refl
  send_all_next shots v names w false e = rw e refl

  send_all-Emits :
      (shots : Text → Shot F) (names : List Text) (w : World F)
      → All IsVar names
      → Emits w.id shots w.seq names w.trace (send_all fl shots names w).0.trace
  unfolding send_all
  send_all-Emits shots [] w vs = refl
  send_all-Emits shots (v ∷ names) w vs =
      let ((value, event), same) = send_one_event (shots v) v w vs.0 in
      let (next, _, goes) = send_one_counts (shots v) v w vs.0 in
      let w' = (send_one fl (shots v) v w).0 in
      let later = send_all-Emits shots names w' vs.1 in
      let msg = udp_sent (encode (telemetry_msg w.id (suc w.seq) v value)) in
      let number : w'.seq ≡ suc w.seq = omega (arith, next) in
      either_intro (shots v).goes
        (λ sent.
          let step = send_all_next shots v names w true (goes ∙ ap some sent) in
          let grown : w'.trace ≡ msg ∷ w.trace =
            event ∙ ap (λ b. (if b then msg else udp_failed) ∷ w.trace) sent in
          let all = (send_all fl shots names w').0.trace in
          let rest = Emits-eq shots names all same number grown later in
          (
            value,
            subst
                (λ (r : World F × Exit).
                  Emits w.id shots (suc w.seq) names (msg ∷ w.trace) r.0.trace)
                (sym step) rest,
          ))
        (λ stays.
          let step = send_all_next shots v names w false (goes ∙ ap some stays) in
          ap (λ (r : World F × Exit). r.0.trace) step
          ∙ event
          ∙ ap (λ b. (if b then msg else udp_failed) ∷ w.trace) stays)

  -- One call of `send_telemetry` sends a datagram for each name of `VARS`, in their order and numbered one
  -- behind the other, up to the first that `sendto` refuses, and nothing else: `sent` grows by the datagrams
  -- that went out, `seq` by one more if one was refused, and the call returns.
  pub send_telemetry_counts :
      (shots : Text → Shot F) (w : World F)
      → let (w', e) = send_telemetry fl shots w in
        Emits w.id shots w.seq vars w.trace w'.trace
        × (w'.seq ≡ w.seq + numbered shots vars)
        × (w'.sent ≡ w.sent + going shots vars)
        × (e ≡ returned)
  unfolding send_telemetry
  send_telemetry_counts shots w =
      let (next, sent, back) = send_all_counts shots vars w vars-IsVar in
      (send_all-Emits shots vars w vars-IsVar, next, sent, back)

-- The reply begins with NACK|104 once it is decoded and stripped.
abbrev pub is_nack : Bytes → Bool
is_nack b = starts_with (codes "NACK|104") (strip (decode b))

-- The NACKs in front of the first exception, and whether an exception says that the server is gone.
abbrev pub nack_count : List Answer → ℕ
nack_count [] = 0
nack_count (reply b ∷ rest) = let more = nack_count rest in if is_nack b then suc more else more
nack_count (unreachable ∷ rest) = 0
nack_count (fails ∷ rest) = 0

abbrev pub is_lost : List Answer → Bool
is_lost [] = false
is_lost (reply b ∷ rest) = is_nack b || is_lost rest
is_lost (unreachable ∷ rest) = true
is_lost (fails ∷ rest) = false

-- `check_nack` counts every pending NACK|104 in front of the first exception, and leaves the node
-- registered exactly if it was and there is neither a NACK|104 nor a port unreachable there; the
-- number of the last datagram stays.
pub check_nack_lem :
    {F : Type 0} (answers : List Answer) (w : World F)
    → let w' = (check_nack answers w).0 in
      (w'.nacks ≡ w.nacks + nack_count answers)
      × (w'.registered ≡ (if is_lost answers then false else w.registered))
      × (w'.seq ≡ w.seq)
unfolding check_nack
check_nack_lem [] w = (omega arith, refl, refl)
check_nack_lem (reply b ∷ rest) w =
    unfold note_reply in ground (arith, check_nack_lem rest (note_reply b w))
check_nack_lem (unreachable ∷ rest) w = (omega arith, refl, refl)
check_nack_lem (fails ∷ rest) w = (omega arith, refl, refl)
