-- ===== src/Server/Client.antt =====
-- server/src/tcp_operator.c: `client_thread`, over what `recv` returns.
use telematica_telemetria.Base.{
  ℕ, Bool, true, false, List, [], ◌∷◌, ◌++◌, length, leb, ◌==◌, if◌then◌else◌,
}
use telematica_telemetria.Base.Text.{Text, Bytes, codes}
use telematica_telemetria.Server.State.{Server}
use telematica_telemetria.Server.Udp.{max_line}
use telematica_telemetria.Server.Tcp.{Handled, handle_tcp}

-- `inbuf` up to `inlen`, and `overflow`
pub record Inbox : Type 0 where
  pub pending : Bytes
  pub overflow : Bool

-- What the loop finds in the buffer: a line, without its line break, or one that was too long.
pub data Incoming : Type 0 where
  line : Bytes → Incoming
  too_long : Incoming

-- a line that ends, with `overflow`
unfoldable pub finish_line : Bool → Bytes → Incoming
finish_line true l = too_long
finish_line false l = if leb max_line (length l) then too_long else line l

-- The inner loop, without the handling: the lines of the buffer in order, then what is left of it and
-- `overflow`. `acc` holds the bytes since the last line break.
unfoldable pub find_lines : Bool → Bytes → Bytes → List Incoming × Inbox
unfolding finish_line
find_lines overflow acc [] = ([], record { pending = acc; overflow = overflow })
find_lines overflow acc (c ∷ buf) =
    let onward = find_lines overflow (acc ++ c ∷ []) buf in
    let (lines, left) = find_lines false [] buf in
    if c == b'\n' then (finish_line overflow acc ∷ lines, left) else onward

-- behind the inner loop: a buffer without a line break that is too long is emptied
unfoldable pub empty_long : Inbox → Inbox
empty_long b =
    if leb max_line (length b.pending) then record { pending = []; overflow = true } else b

-- one round of the outer loop, with the bytes that `recv` returned, up to the handling
unfoldable pub receive : Inbox → Bytes → List Incoming × Inbox
unfolding find_lines empty_long
receive b bytes =
    let (lines, left) = find_lines b.overflow [] (b.pending ++ bytes) in (lines, empty_long left)

-- the reply to one line
unfoldable pub handle_incoming : ℕ → ℕ → ℕ → Incoming → Server → Handled
handle_incoming udp_port fd now (line l) s = handle_tcp udp_port fd 8192 now l s
handle_incoming udp_port fd now too_long s = (s, (codes "ERR|105|TOO_LONG\n", false))

-- The handling of the lines of one round: the replies, and whether the connection is closed. `sends` says
-- whether the reply to a line goes out.
unfoldable pub handle_lines :
    ℕ → ℕ → ℕ → (Incoming → Bool) → List Incoming → Server → Server × (List Text × Bool)
unfolding handle_incoming
handle_lines udp_port fd now sends [] s = (s, ([], false))
handle_lines udp_port fd now sends (l ∷ lines) s =
    let (s', (reply, close)) = handle_incoming udp_port fd now l s in
    let (s'', (replies, closed)) = handle_lines udp_port fd now sends lines s' in
    if close
    then (s', (reply ∷ [], true))
    else if sends l
    then (s'', (reply ∷ replies, closed))
    else (s', ([], true))
