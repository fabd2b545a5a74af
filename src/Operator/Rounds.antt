-- ===== src/Operator/Rounds.antt =====
-- operator_client/operator_client.py: the number of rounds of the loop of `send`.
use telematica_telemetria.Base.{
  ℕ, zero, suc, ◌<◌, Bool, true, false, not, ◌||◌, List, [], ◌∷◌, ◌++◌, ◌≡◌, ◌≢◌, refl, arith, ap,
  length, length-append, if_either,
}
use telematica_telemetria.Base.Text.{Text, Bytes, codes, text_eq}
use telematica_telemetria.Operator.State.{
  Packet, Outcome, got, raised, unfinished, Operator, delivered,
}
use telematica_telemetria.Operator.Receive.{readline}
use telematica_telemetria.Operator.Send.{is_early_alert, still_multi, collect, pending, send}
use telematica_telemetria.Operator.Lines.{Reads, readline_lossless}

-- what a reading leaves, measured: a line takes at least its line break
Reads-less :
    (o : Outcome Text) (all buf : Bytes) (inbox : List Packet)
    → Reads all o buf inbox
    → (o ≢ unfinished) × ((t : Text) → o ≡ got t → length (buf ++ delivered inbox) < length all)
Reads-less (got t) all buf inbox (raw, h, e, whole) = (
  λ p. cc,
  λ t' p. omega (arith, ap length whole, length-append raw (b'\n' ∷ (buf ++ delivered inbox))),
)
Reads-less (raised e) all buf inbox h = (λ p. cc, λ t' p. cc)
Reads-less unfinished all buf inbox h = absurd h

readline_less :
    (op : Operator)
    → ((readline op).0 ≢ unfinished)
      × ((t : Text)
          → (readline op).0 ≡ got t
          → length (pending (readline op).1) < length (pending op))
readline_less op =
    Reads-less (readline op).0 (pending op) (readline op).1.buf (readline op).1.inbox
      (readline_lossless op)

-- one round of the loop, if the rounds behind it end
collect_round :
    (fuel : ℕ) (lines : List Text) (multi : Bool) (op : Operator) (o : Outcome Text)
    → (readline op).0 ≡ o
    → o ≢ unfinished
    → ((lines' : List Text) (multi' : Bool) (op' : Operator)
        → pending op' ≡ pending (readline op).1
        → (t : Text) → o ≡ got t
        → (collect fuel lines' multi' op').0 ≢ unfinished)
    → (collect (suc fuel) lines multi op).0 ≢ unfinished
unfolding collect
collect_round fuel lines multi op (got t) e ne rest =
    let op' = (readline op).1 in
    let ends = λ (r : Outcome (List Text) × Operator). r.0 ≢ unfinished in
    rw (e, collect)
      (if_either ends (is_early_alert op' lines t)
        (rest lines multi (record op' { alerts = op'.alerts ++ t ∷ [] }) refl t refl)
        (if_either ends (not (still_multi multi lines t) || text_eq t (codes "END")) (λ p. cc)
          (rest (lines ++ t ∷ []) (still_multi multi lines t) op' refl t refl)))
collect_round fuel lines multi op (raised x) e ne rest = rw (e, collect) (λ p. cc)
collect_round fuel lines multi op unfinished e ne rest = absurd (ne refl)

collect_ends :
    (fuel : ℕ) (lines : List Text) (multi : Bool) (op : Operator)
    → length (pending op) < fuel
    → (collect fuel lines multi op).0 ≢ unfinished
collect_ends zero lines multi op lt = absurd (omega arith)
collect_ends (suc fuel) lines multi op lt =
    let less = readline_less op in
    collect_round fuel lines multi op (readline op).0 refl less.0 λ lines' multi' op' same t e.
      collect_ends fuel lines' multi' op' (omega (arith, ap length same, less.1 t e))

-- `send` always comes to an end: it returns lines or raises, whatever is buffered and arrives. The
-- bytes that are pending bound the lines that it reads.
pub send_ends : (goes : Bool) (cmd : Text) (op : Operator) → (send goes cmd op).0 ≢ unfinished
unfolding send
send_ends true cmd op = collect_ends (suc (length (pending op))) [] false _ (omega arith)
send_ends false cmd op = λ p. cc
