-- ===== src/Node/Backoff.antt =====
-- node/node.py: `register` tries again, with waits of 1, 2, 4, 8, 16 and then 30 seconds.
use telematica_telemetria.Base.{
  ℕ, zero, suc, ◌*◌, ◌^◌, min, Bool, true, false, ◌&&◌, Option, none, some, List, [], ◌∷◌, ◌++◌,
  ◌≡◌, arith, All, length,
}
use native.Mathlib.Nat.{pow-suc}
use telematica_telemetria.Base.Text.{Text, codes, starts_with}
use telematica_telemetria.Node.State.{World, returned, Event, waited, stop, emit}
use telematica_telemetria.Node.Link.{Attempt, attempt, register, recv_line}
use telematica_telemetria.Node.Induction.{attempt_done}

-- The reply welcomes the node.
abbrev pub welcomes : Option Text → Bool
welcomes none = false
welcomes (some r) = starts_with (codes "OK|REGISTERED") r

abbrev resolves : Option Text → Bool
resolves none = false
resolves (some addr) = true

-- The name can be encoded, and name resolution, connection and send succeed, and the reply line is an OK|REGISTERED.
abbrev pub accepts : Attempt → Bool
accepts a =
    a.encodable && (resolves a.dns && (a.connects && a.sends && welcomes (recv_line a.stream)))

-- An attempt that is not accepted, for a name that can be encoded, and no signal arrives.
abbrev pub Refused : Attempt → Type 0
Refused a = (accepts a ≡ false) × (a.signal ≡ false) × (a.encodable ≡ true)

-- The waits among the events, the latest first.
abbrev pub waits : List Event → List ℕ
waits [] = []
waits (waited n ∷ t) = n ∷ waits t
waits (_ ∷ t) = waits t

-- The waits of `n` attempts in front of `acc`, the latest first; the attempt `k` waits 2ᵏ seconds,
-- 30 at most.
abbrev pub backoff : ℕ → ℕ → List ℕ → List ℕ
backoff k zero acc = acc
backoff k (suc n) acc = backoff (suc k) n (min (2 ^ k) 30 ∷ acc)

wait_step : (k : ℕ) → min (min (2 ^ k) 30 * 2) 30 ≡ min (2 ^ suc k) 30
wait_step k = omega (arith, pow-suc 2 k)

module _ {F : Type 0} where
  attempt-accepts : (a : Attempt) (w : World F) → a.encodable ≡ true → (attempt a w).1 ≡ accepts a
  unfolding attempt
  attempt-accepts a w e = ground arith

  waits-attempt : (a : Attempt) (w : World F) → waits (attempt a w).0.trace ≡ waits w.trace
  unfolding attempt
  waits-attempt a w = ground arith

  running-attempt : (a : Attempt) (w : World F) → (attempt a w).0.running ≡ w.running
  unfolding attempt
  running-attempt a w = ground arith

  -- the state of the loop behind one refused attempt
  abbrev refused_world : ℕ → Attempt → World F → World F
  refused_world wait a w = stop a.signal (emit (waited wait) (attempt a w).0)

  register-Refused :
      (wait : ℕ) (a : Attempt) (rest : List Attempt) (w : World F)
      → w.running ≡ true
      → Refused a
      → register wait (a ∷ rest) w ≡ register (min (wait * 2) 30) rest (refused_world wait a w)
  unfolding register
  register-Refused wait a rest w h r = ground (arith, attempt-accepts a w)

  register_accepted :
      (wait : ℕ) (a : Attempt) (rest : List Attempt) (w : World F)
      → w.running ≡ true
      → accepts a ≡ true
      → register wait (a ∷ rest) w ≡ (stop a.signal (attempt a w).0, returned)
  unfolding register
  register_accepted wait a rest w h r = ground (arith, attempt-accepts a w)

  register_retries_from :
      (k : ℕ) (bad : List Attempt) (good : Attempt) (rest : List Attempt) (w : World F)
      → w.running ≡ true
      → All Refused bad
      → accepts good ≡ true
      → let (w', e) = register (min (2 ^ k) 30) (bad ++ good ∷ rest) w in
        (e ≡ returned)
        × (w'.registered ≡ true)
        × (w'.seq ≡ 0)
        × (waits w'.trace ≡ backoff k (length bad) (waits w.trace))
  unfolding stop
  register_retries_from k [] good rest w h bad ok =
      rw (register_accepted _ good rest w h ok)
        (ground (arith, attempt-accepts good w, attempt_done good w, waits-attempt good w))
  register_retries_from k (a ∷ bad) good rest w h (refused, more) ok =
      rw (register-Refused _ a (bad ++ good ∷ rest) w h refused, wait_step, ← waits-attempt a w)
        (register_retries_from (suc k) bad good rest (refused_world (min (2 ^ k) 30) a w)
          (ground (arith, running-attempt a w)) more ok)

-- As long as no signal arrives and the server's name can be encoded, `register` outlasts any number of attempts that fail or are refused:
-- with the first attempt that is accepted it returns, the node is registered, its numbers begin again
-- at 0, and it has waited 2ᵏ seconds, 30 at most, after the attempt number k, counted from 0.
pub register_retries :
    {F : Type 0} (bad : List Attempt) (good : Attempt) (rest : List Attempt) (w : World F)
    → w.running ≡ true
    → All Refused bad
    → accepts good ≡ true
    → let (w', e) = register 1 (bad ++ good ∷ rest) w in
      (e ≡ returned)
      × (w'.registered ≡ true)
      × (w'.seq ≡ 0)
      × (waits w'.trace ≡ backoff 0 (length bad) (waits w.trace))
register_retries bad good rest w = register_retries_from 0 bad good rest w
