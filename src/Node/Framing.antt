-- ===== src/Node/Framing.antt =====
-- node/node.py: `_recv_line` and the pieces that TCP delivers.
use telematica_telemetria.Base.{
  ℕ, Bool, true, false, some, [], ◌∷◌, ◌++◌, ◌≡◌, refl, arith, append_assoc, append-nil, sym, ◌∙◌,
}
use telematica_telemetria.Base.Text.{Bytes, ends_in, OneLine, strip}
use telematica_telemetria.Base.Codec.{decode}
use telematica_telemetria.Node.Link.{Stream, closed, timed_out, chunk, recv_loop, recv_line}

-- All bytes that a stream delivers, and that it ends by a close.
abbrev pub delivered : Stream → Bytes
delivered closed = []
delivered timed_out = []
delivered (chunk b s rest) = (b ∷ s) ++ delivered rest

abbrev pub closes : Stream → Bool
closes closed = true
closes timed_out = false
closes (chunk b s rest) = closes rest

ends_in-append : (line : Bytes) → ends_in b'\n' (line ++ b'\n' ∷ []) ≡ true
unfolding ends_in
ends_in-append [] = refl
ends_in-append (a ∷ []) = refl
ends_in-append (a ∷ b ∷ line) = ends_in-append (b ∷ line)

-- a proper part of a line does not end in a line break
ends_in_part :
    (buf line : Bytes) (b : ℕ) (t : Bytes)
    → OneLine line
    → buf ++ b ∷ t ≡ line ++ b'\n' ∷ []
    → ends_in b'\n' buf ≡ false
unfolding ends_in
ends_in_part [] line b t h e = refl
ends_in_part (a ∷ []) [] b t h e = cc
ends_in_part (a ∷ c ∷ buf) [] b t h e = cc
ends_in_part (a ∷ []) (d ∷ line) b t h e = ground arith
ends_in_part (a ∷ c ∷ buf) (d ∷ line) b t h e = ends_in_part (c ∷ buf) line b t h.1 (cc)

recv_loop_line :
    (buf : Bytes) (s : Stream) (line : Bytes)
    → OneLine line
    → buf ++ delivered s ≡ line ++ b'\n' ∷ []
    → recv_loop buf s ≡ some (line ++ b'\n' ∷ [])
unfolding recv_loop
recv_loop_line buf closed line h e = cc (append-nil buf)
recv_loop_line buf timed_out line h e = let e' = sym (append-nil buf) ∙ e in rw (e', ends_in-append)
recv_loop_line buf (chunk b s rest) line h e =
    rw (ends_in_part buf line b (s ++ delivered rest) h e)
      (recv_loop_line (buf ++ b ∷ s) rest line h (append_assoc buf (b ∷ s) (delivered rest) ∙ e))

-- If the peer sends exactly one line and its line break, `_recv_line` returns that line, decoded
-- and stripped, however TCP cuts the bytes into chunks and whether or not the peer closes.
pub recv_line_lem :
    (s : Stream) (line : Bytes)
    → OneLine line
    → delivered s ≡ line ++ b'\n' ∷ []
    → recv_line s ≡ some (strip (decode (line ++ b'\n' ∷ [])))
unfolding recv_line
recv_line_lem s line h e = rw (recv_loop_line [] s line h e, recv_line)
