-- ===== src/Operator/Framing.antt =====
-- operator_client/operator_client.py: `_readline` without a time out.
use telematica_telemetria.Base.{List, [], ◌∷◌, ◌++◌, ◌≡◌, refl, sym, ◌∙◌, ap, append-nil, if_split}
use mathlib.Core.Path.{subst}
use telematica_telemetria.Base.Text.{Text, Bytes, OneLine, contains}
use telematica_telemetria.Operator.State.{
  Packet, chunk, timeout, closed, Outcome, got, raised, unfinished, Operator, delivered,
}
use telematica_telemetria.Operator.Receive.{Reading, read_text, read_loop, readline}
use telematica_telemetria.Operator.Send.{pending}
use telematica_telemetria.Operator.Lines.{Reads, ReadsAs, read_loop-Reads}

-- No time out comes before the last bytes.
abbrev pub Steady : List Packet → Type 0
Steady [] = Unit
Steady (chunk b s ∷ inbox) = Steady inbox
Steady (timeout ∷ inbox) = ⊥
Steady (closed ∷ inbox) = Unit

-- the first line break of a text is in one place
split_unique :
    (raw raw' rest rest' : Bytes)
    → OneLine raw
    → OneLine raw'
    → raw ++ b'\n' ∷ rest ≡ raw' ++ b'\n' ∷ rest'
    → (raw ≡ raw') × (rest ≡ rest')
split_unique [] [] rest rest' h h' e = (refl, cc)
split_unique [] (c ∷ raw') rest rest' h h' e = absurd (h'.0 (cc))
split_unique (c ∷ raw) [] rest rest' h h' e = absurd (h.0 (cc))
split_unique (c ∷ raw) (d ∷ raw') rest rest' h h' e =
    let (heads, tails) = split_unique raw raw' rest rest' h.1 h'.1 (cc) in (cc, tails)

OneLine-no_break : (s raw rest : Bytes) → OneLine s → s ≡ raw ++ b'\n' ∷ rest → ⊥
OneLine-no_break [] [] rest h e = cc
OneLine-no_break [] (c ∷ raw) rest h e = cc
OneLine-no_break (a ∷ s) [] rest h e = h.0 (cc)
OneLine-no_break (a ∷ s) (c ∷ raw) rest h e = OneLine-no_break s raw rest h.1 (cc)

-- what a steady stream leaves
abbrev Settled : Outcome Text → List Packet → Type 0
Settled (got t) inbox = Steady inbox
Settled (raised e) inbox = delivered inbox ≡ []
Settled unfinished inbox = ⊥

abbrev SettledAs : Reading → Type 0
SettledAs r = Settled r.result r.inbox

read_loop-Settled :
    (buf : Bytes) (inbox : List Packet) → Steady inbox → SettledAs (read_loop buf inbox)
unfolding read_loop
read_loop-Settled buf [] h = if_split SettledAs (contains b'\n' buf) (λ _. tt) (λ _. refl)
read_loop-Settled buf (chunk b s ∷ inbox) h =
    if_split SettledAs (contains b'\n' buf) (λ _. h) (λ _. read_loop-Settled (buf ++ b ∷ s) inbox h)
read_loop-Settled buf (timeout ∷ inbox) h = absurd h
read_loop-Settled buf (closed ∷ inbox) h =
    if_split SettledAs (contains b'\n' buf) (λ _. tt) (λ _. refl)

-- `op'` is `op` with `rest` still to come.
pub record Advanced (op op' : Operator) (rest : Bytes) : Type 0 where
  pub left : pending op' ≡ rest
  pub steady : Steady op'.inbox
  pub same_outbox : op'.outbox ≡ op.outbox
  pub same_alerts : op'.alerts ≡ op.alerts
  pub same_mode : op'.subscribed ≡ op.subscribed

first_line :
    (o : Outcome Text) (buf : Bytes) (inbox : List Packet) (raw rest : Bytes)
    → OneLine raw
    → Reads (raw ++ b'\n' ∷ rest) o buf inbox
    → Settled o inbox
    → (o ≡ got (read_text raw)) × (buf ++ delivered inbox ≡ rest) × Steady inbox
first_line (got t) buf inbox raw rest h (raw', h', e, whole) settled =
    let (same, tail) = split_unique raw' raw (buf ++ delivered inbox) rest h' h whole in
    (rw (e, same), tail, settled)
first_line (raised e) buf inbox raw rest h (whole, no_break) settled = absurd (
    OneLine-no_break buf raw rest no_break
      (sym (append-nil buf) ∙ ap (λ t. buf ++ t) (sym settled) ∙ whole))
first_line unfinished buf inbox raw rest h reads settled = absurd reads

-- If a line and its line break are next, buffered or on their way, and no time out comes first, then
-- `_readline` returns its text and what follows is still to come.
pub readline_next :
    (op : Operator) (raw rest : Bytes)
    → Steady op.inbox
    → OneLine raw
    → pending op ≡ raw ++ b'\n' ∷ rest
    → ((readline op).0 ≡ got (read_text raw)) × Advanced op (readline op).1 rest
unfolding readline
readline_next op raw rest steady h e =
    let r = read_loop op.buf op.inbox in
    let (result, left, steady') =
      first_line r.result r.buf r.inbox raw rest h
        (subst (λ all. ReadsAs all r) e (read_loop-Reads op.buf op.inbox))
        (read_loop-Settled op.buf op.inbox steady) in
    (
      result,
      record {
        left = left;
        steady = steady';
        same_outbox = refl;
        same_alerts = refl;
        same_mode = refl;
      },
    )
