-- ===== src/Operator/Lines.antt =====
-- operator_client/operator_client.py: `_readline` and the bytes of the stream.
use telematica_telemetria.Base.{
  true, List, [], ◌∷◌, ◌++◌, ◌≡◌, refl, arith, sym, ◌∙◌, ap, append_assoc, if_split,
}
use mathlib.Core.Path.{subst}
use telematica_telemetria.Base.Text.{Text, Bytes, OneLine, contains}
use telematica_telemetria.Base.Text.Parts.{Lacks-of_contains}
use telematica_telemetria.Operator.State.{
  Packet, chunk, timeout, closed, Outcome, got, raised, unfinished, Operator, delivered,
}
use telematica_telemetria.Operator.Receive.{
  Reading, cut_line, read_text, take_line, read_loop, readline,
}

cut_line_lem :
    (buf : Bytes)
    → contains b'\n' buf ≡ true
    → ((cut_line buf).0 ++ b'\n' ∷ (cut_line buf).1 ≡ buf) × OneLine (cut_line buf).0
unfolding cut_line contains
cut_line_lem [] h = cc
cut_line_lem (c ∷ buf) h = ground (arith, cut_line_lem buf)

-- What `_readline` may do with the bytes `all` that are buffered or on their way: it returns the
-- text of the first line and leaves what is behind its line break, or it raises and leaves all, with
-- no line break in the buffer.
abbrev pub Reads : Bytes → Outcome Text → Bytes → List Packet → Type 0
Reads all (got t) buf inbox =
    (raw : Bytes) × OneLine raw
    × (t ≡ read_text raw)
    × (raw ++ b'\n' ∷ (buf ++ delivered inbox) ≡ all)
Reads all (raised e) buf inbox = (buf ++ delivered inbox ≡ all) × OneLine buf
Reads all unfinished buf inbox = ⊥

abbrev pub ReadsAs : Bytes → Reading → Type 0
ReadsAs all r = Reads all r.result r.buf r.inbox

take_line-Reads :
    (buf : Bytes) (inbox : List Packet)
    → contains b'\n' buf ≡ true
    → ReadsAs (buf ++ delivered inbox) (take_line buf inbox)
unfolding take_line
take_line-Reads buf inbox h =
    let (whole, one_line) = cut_line_lem buf h in
    (
      (cut_line buf).0,
      one_line,
      refl,
      sym (append_assoc (cut_line buf).0 (b'\n' ∷ (cut_line buf).1) (delivered inbox))
          ∙ ap (λ b. b ++ delivered inbox) whole,
    )

pub read_loop-Reads :
    (buf : Bytes) (inbox : List Packet) → ReadsAs (buf ++ delivered inbox) (read_loop buf inbox)
unfolding read_loop
read_loop-Reads buf [] =
    if_split (ReadsAs (buf ++ [])) (contains b'\n' buf) (take_line-Reads buf [])
      (λ h. (refl, Lacks-of_contains b'\n' buf h))
read_loop-Reads buf (chunk b s ∷ inbox) =
    if_split (ReadsAs (buf ++ b ∷ (s ++ delivered inbox))) (contains b'\n' buf)
      (take_line-Reads buf (chunk b s ∷ inbox))
      λ _.
        subst (λ all. ReadsAs all (read_loop (buf ++ b ∷ s) inbox))
          (append_assoc buf (b ∷ s) (delivered inbox)) (read_loop-Reads (buf ++ b ∷ s) inbox)
read_loop-Reads buf (timeout ∷ inbox) =
    if_split (ReadsAs (buf ++ delivered inbox)) (contains b'\n' buf)
      (take_line-Reads buf (timeout ∷ inbox)) (λ h. (refl, Lacks-of_contains b'\n' buf h))
read_loop-Reads buf (closed ∷ inbox) =
    if_split (ReadsAs (buf ++ [])) (contains b'\n' buf) (take_line-Reads buf (closed ∷ inbox))
      (λ h. (refl, Lacks-of_contains b'\n' buf h))

-- Whatever arrives, and in whatever pieces, `_readline` either returns the text of the first line of
-- what is buffered or arrives and leaves exactly the bytes behind its line break, or it raises and
-- leaves every byte, with no line break in the buffer: a time out loses nothing.
pub readline_lossless :
    (op : Operator)
    → Reads (op.buf ++ delivered op.inbox) (readline op).0 (readline op).1.buf (readline op).1.inbox
unfolding readline
readline_lossless op = read_loop-Reads op.buf op.inbox
