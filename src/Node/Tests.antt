-- ===== src/Node/Tests.antt =====
-- node/node.py: concrete runs, with whole numbers of hundredths for the floats.
use telematica_telemetria.Base.{
  ℕ, ◌+◌, true, false, Option, none, some, List, [], ◌∷◌, ◌++◌, ◌≡◌, inr, refl, arith, ltb,
}
use telematica_telemetria.Base.Text.{text_eq, Text, codes, strip, starts_with, ends_in, show_nat}
use telematica_telemetria.Base.Codec.{decode}
use telematica_telemetria.Node.State.{FloatOps, World, vars, returned, raised, type_error, init}
use telematica_telemetria.Node.Simulation.{Draw}
use telematica_telemetria.Node.Link.{
  Stream, closed, timed_out, chunk, Attempt, Farewell, recv_line, register,
}
use telematica_telemetria.Node.Telemetry.{
  Shot, Answer, reply, unreachable, send_telemetry, check_nack,
}
use telematica_telemetria.Node.Run.{Cycle, slept, run}
use telematica_telemetria.Node.Session.{Conforms, new_world, run-Conforms}
use telematica_telemetria.Node.Counters.{IsCounted, run-IsCounted}
use telematica_telemetria.Node.Range.{FloatLaws, InRange, run-InRange}
use telematica_telemetria.Node.Framing.{recv_line_lem}
use telematica_telemetria.Node.Backoff.{waits, register_retries}
use telematica_telemetria.Node.Endings.{Outcome}
use telematica_telemetria.Node.Outcome.{run-Outcome}
use telematica_telemetria.Node.Batch.{Emits, send_telemetry_counts, check_nack_lem}
use telematica_telemetria.Node.Unresolved.{OnlyWaits, run-Unresolved}
use telematica_telemetria.Node.Main.{
  Args, Environment, start, setup, number, given, forced_variable, is_one_of, start-Conforms,
}

abbrev ops : FloatOps ℕ
ops = record { lt = ltb; add = λ a b. a + b; hundredths = λ n. n; format = λ d x. show_nat x }

ops_asymm : (a b : ℕ) → ltb a b ≡ true → ltb b a ≡ false
ops_asymm a b h = ground arith

ops_irrefl : (a : ℕ) → ltb a a ≡ false
ops_irrefl a = ground arith

abbrev ops_laws : FloatLaws ops
ops_laws = record {
  lt_asymm = λ a b h. ops_asymm a b h;
  lt_irrefl = λ a. ops_irrefl a;
  lt_literals = λ m n hm hn. refl;
}

abbrev id1 : Text
id1 = codes "NODE01"

abbrev plant : Text
plant = codes "Planta"

-- a line that arrives in two chunks
abbrev two_chunks : Text → Stream
two_chunks t = chunk b'O' t (chunk b'\n' [] closed)

abbrev no_answer : Attempt
no_answer = record {
  encodable = true;
  dns = some (codes "10.0.0.1");
  connects = true;
  sends = true;
  stream = timed_out;
  signal = false;
}

abbrev no_dns : Attempt
no_dns = record {
  encodable = true;
  dns = none;
  connects = true;
  sends = true;
  stream = closed;
  signal = false;
}

abbrev good : Attempt
good = record no_answer { stream = two_chunks (codes "K|REGISTERED|NODE01") }

abbrev farewell : Farewell
farewell = record { connects = true; sends = true; stream = two_chunks (codes "K|BYE") }

abbrev draw : Draw ℕ
draw = record { chance = 50; drift = 10; spread = 3; pick = 2 }

-- every `sendto` succeeds, but the one for VIB
abbrev shots : Text → Shot ℕ
shots var = record { draw = draw; goes = elim var [ [] ↦ true | c ∷ _ ↦ ltb c b'V' ] }

abbrev nack : Answer
nack = reply (codes "NACK|104|NODE01\n")

abbrev cycles : List (Cycle ℕ)
cycles =
    record {
      early = false;
      attempts = no_answer ∷ good ∷ [];
      shots = shots;
      signal = false;
      sleep = slept;
      answers = nack ∷ [];
    }
    ∷ record {
      early = false;
      attempts = good ∷ [];
      shots = shots;
      signal = true;
      sleep = slept;
      answers = unreachable ∷ [];
    }
    ∷ []

abbrev world : World ℕ
world = new_world ops id1 plant 5 none

abbrev alert_world : World ℕ
alert_world = new_world ops id1 plant 5 (some (codes "HUM"))

run-Conforms_example : (s : Option ℕ) × Conforms id1 (run ops farewell cycles world).0.trace s
run-Conforms_example = run-Conforms ops id1 plant 5 none farewell cycles

run-Outcome_example :
    Outcome farewell false false (run ops farewell cycles world).0 (run ops farewell cycles world).1
unfolding init
run-Outcome_example = run-Outcome ops farewell cycles world (ground arith) (ground arith)

register_retries_example :
    let (w', e) = register 1 (no_answer ∷ no_dns ∷ good ∷ []) world in
    (e ≡ returned) × (w'.registered ≡ true) × (w'.seq ≡ 0) × (waits w'.trace ≡ 2 ∷ 1 ∷ [])
unfolding recv_line init starts_with ends_in strip decode
register_retries_example =
    register_retries (no_answer ∷ no_dns ∷ []) good [] world refl
      ((refl, refl, refl), ((refl, refl, refl), tt)) refl

run-IsCounted_example : IsCounted (run ops farewell cycles alert_world).0
run-IsCounted_example = run-IsCounted ops id1 plant 5 (some (codes "HUM")) farewell cycles

run-InRange_example : InRange ops (run ops farewell cycles alert_world).0.sim
run-InRange_example = run-InRange ops ops_laws id1 plant 5 (some (codes "HUM")) farewell cycles

recv_line_example :
    recv_line (two_chunks (codes "K|BYE")) ≡ some (strip (decode (codes "OK|BYE" ++ b'\n' ∷ [])))
recv_line_example =
    recv_line_lem (two_chunks (codes "K|BYE")) (codes "OK|BYE")
      (omega arith, (omega arith, (omega arith, (omega arith, (omega arith, (omega arith, tt))))))
      refl

send_telemetry_counts_example :
    let (w', e) = send_telemetry ops shots world in
    Emits id1 shots 0 vars [] w'.trace × (w'.seq ≡ 4) × (w'.sent ≡ 3) × (e ≡ returned)
unfolding init
send_telemetry_counts_example = send_telemetry_counts ops shots world

check_nack_example :
    let w' = (check_nack (nack ∷ unreachable ∷ nack ∷ []) world).0 in
    (w'.nacks ≡ 1) × (w'.registered ≡ false) × (w'.seq ≡ 0)
unfolding init starts_with strip decode
check_nack_example = check_nack_lem (nack ∷ unreachable ∷ nack ∷ []) world

abbrev stopped_early : Cycle ℕ
stopped_early = record {
  early = false;
  attempts = no_dns ∷ record no_dns { signal = true } ∷ [];
  shots = shots;
  signal = false;
  sleep = slept;
  answers = [];
}

run-Unresolved_example :
    let (w', e) = run ops farewell (stopped_early ∷ []) world in
    (e ≡ raised type_error) × OnlyWaits world.trace w'.trace
unfolding init
run-Unresolved_example =
    run-Unresolved ops farewell stopped_early [] world
      (inr (
        refl,
        (
          no_dns ∷ [],
          record no_dns { signal = true },
          refl,
          (((refl, refl), refl), tt),
          (refl, refl),
          refl,
        ),
      ))
      refl refl refl

abbrev args : Args
args = record {
  id = none;
  location = some plant;
  interval = none;
  anomaly_rate = none;
  force_alert = some (codes "VIB");
}

abbrev environment : Environment
environment = record {
  node_id = some id1;
  node_location = none;
  interval = none;
  anomaly_rate = none;
  force_alert = some [];
}

abbrev vib_world : World ℕ
vib_world = new_world ops id1 plant 5 (some (codes "VIB"))

start-Conforms_example : (s : Option ℕ) × Conforms id1 (run ops farewell cycles vib_world).0.trace s
unfolding start setup number given forced_variable is_one_of text_eq
start-Conforms_example =
    start-Conforms ops (λ t. some 5) args environment farewell cycles
      (run ops farewell cycles vib_world).0 (run ops farewell cycles vib_world).1 refl
