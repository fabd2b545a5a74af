-- ===== src/Operator/Receive.antt =====
-- operator_client/operator_client.py: `_readline`.
use telematica_telemetria.Base.{ℕ, List, [], ◌∷◌, ◌++◌, if◌then◌else◌, ◌==◌}
use telematica_telemetria.Base.Text.{Text, Bytes, contains}
use telematica_telemetria.Base.Codec.{decode}
use telematica_telemetria.Operator.State.{
  Packet, chunk, timeout, closed, Outcome, got, raised, Failure, timed_out, connection_error,
  Operator,
}
use mathlib.Core.List.{reverse}

-- `buf.split(b"\n", 1)` where the buffer holds a line break: the part before the first one, and the
-- part behind it.
unfoldable pub cut_line : Bytes → Bytes × Bytes
cut_line [] = ([], [])
cut_line (c ∷ s) = let (line, rest) = cut_line s in if c == b'\n' then ([], s) else (c ∷ line, rest)

unfoldable pub strip_leading : ℕ → Text → Text
strip_leading c [] = []
strip_leading c (a ∷ s) = let rest = strip_leading c s in if a == c then rest else a ∷ s

-- `line.decode(errors="replace").rstrip("\r")`
unfoldable pub read_text : Bytes → Text
unfolding strip_leading
read_text raw = reverse (strip_leading b'\r' (reverse (decode raw)))

-- What `_readline` leaves behind: its result, the buffer and the packets that are left.
pub record Reading : Type 0 where
  pub result : Outcome Text
  pub buf : Bytes
  pub inbox : List Packet

unfoldable pub take_line : Bytes → List Packet → Reading
unfolding read_text
take_line buf inbox =
    let (line, rest) = cut_line buf in
    record { result = got (read_text line); buf = rest; inbox = inbox }

unfoldable pub fail : Failure → Bytes → List Packet → Reading
fail e buf inbox = record { result = raised e; buf = buf; inbox = inbox }

-- The loop of `_readline`; without a further packet `recv` times out.
unfoldable pub read_loop : Bytes → List Packet → Reading
unfolding take_line fail
read_loop buf [] = if contains b'\n' buf then take_line buf [] else fail timed_out buf []
read_loop buf (chunk b s ∷ inbox) =
    let more = read_loop (buf ++ b ∷ s) inbox in
    if contains b'\n' buf then take_line buf (chunk b s ∷ inbox) else more
read_loop buf (timeout ∷ inbox) =
    if contains b'\n' buf then take_line buf (timeout ∷ inbox) else fail timed_out buf inbox
read_loop buf (closed ∷ inbox) =
    if contains b'\n' buf
    then take_line buf (closed ∷ inbox)
    else fail connection_error buf (closed ∷ inbox)

-- `_readline`
unfoldable pub readline : Operator → Outcome Text × Operator
unfolding read_loop
readline op =
    let r = read_loop op.buf op.inbox in (r.result, record op { buf = r.buf; inbox = r.inbox })
