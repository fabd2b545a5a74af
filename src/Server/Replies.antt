-- ===== src/Server/Replies.antt =====
-- server/src/protocol.c and operator_client/operator_client.py: the shape of a reply.
pub mod Clean
pub mod Answers
pub mod Commands
pub mod Kept
pub mod Datagrams
pub mod Runs
pub mod Dialogue
mod Tests
use mathlib.Core.Path.{subst}
use telematica_telemetria.Base.{
  ℕ, zero, suc, ◌+◌, ◌-◌, ◌<◌, ◌≤◌, Bool, true, false, List, [], ◌∷◌, ◌++◌, ◌≡◌, ◌≢◌, ◌⊎◌, inl, inr,
  refl, arith, leb, ltb, length, ap, ◌∙◌, sym, if◌then◌else◌, Bool-cases, append_assoc, append-nil,
  length-append, All, All-append,
}
use telematica_telemetria.Base.Text.{Text, Bytes, OneLine, codes, starts_with, text_eq}
use telematica_telemetria.Base.Codec.{decode}
use telematica_telemetria.Operator.Receive.{read_text}
use telematica_telemetria.Operator.Send.{is_multi}
use telematica_telemetria.Operator.Prefix.{IsSolid, read_text-prefix}
use telematica_telemetria.Operator.Collect.{wire, NoEnd}
use telematica_telemetria.Operator.Reply.{IsHead, IsReply, single, long, wire-append}
use telematica_telemetria.Server.Slots.{cut}
use telematica_telemetria.Server.Reply.{write_reply, end_line}
use telematica_telemetria.Server.Framing.{concat}
use telematica_telemetria.Server.Buffer.{write_reply_one}
use telematica_telemetria.Server.Table.{cut_all}

-- What a series of `append` leaves of rows in the server's buffer, where the rows, one behind the other, are
-- the lines of one reply to the operator.
pub record Answered (reply : Text) : Type 0 where
  pub lines : List Bytes
  pub rows : List Text
  pub shape : IsReply lines
  pub same : concat rows ≡ wire lines
  pub text : reply ≡ write_reply 8192 rows

module _ (p s : Bytes) (solid : All IsSolid p) where
  append-IsHead :
      OneLine (p ++ s)
      → ((t : Text) → starts_with (codes "ALERT|") (p ++ t) ≡ false)
      → IsHead (p ++ s)
  append-IsHead ol h =
      (ol, ap (starts_with (codes "ALERT|")) (read_text-prefix p s solid) ∙ h (read_text s))

  head_multi : (b : Bool) → ((t : Text) → is_multi (p ++ t) ≡ b) → is_multi (read_text (p ++ s)) ≡ b
  head_multi b h = ap is_multi (read_text-prefix p s solid) ∙ h (read_text s)

  -- a reply of one line that begins with `p`
  single_whole :
      OneLine (p ++ s)
      → ((t : Text) → starts_with (codes "ALERT|") (p ++ t) ≡ false)
      → ((t : Text) → is_multi (p ++ t) ≡ false)
      → Answered (cut 8192 ((p ++ s) ++ b'\n' ∷ []))
  single_whole ol h m =
      let line = p ++ s in
      record {
        lines = line ∷ [];
        rows = (line ++ b'\n' ∷ []) ∷ [];
        shape = single line (append-IsHead ol h) (head_multi false m) refl;
        same = append-nil (line ++ b'\n' ∷ []);
        text = sym (write_reply_one 8192 (line ++ b'\n' ∷ []) (omega arith));
      }

  pub single-Answered :
      OneLine (p ++ s)
      → ((t : Text) → starts_with (codes "ALERT|") (p ++ t) ≡ false)
      → ((t : Text) → is_multi (p ++ t) ≡ false)
      → Answered (cut 8192 (p ++ (s ++ b'\n' ∷ [])))
  single-Answered ol h m =
      subst (λ (t : Text). Answered (cut 8192 t)) (append_assoc p s (b'\n' ∷ []))
        (single_whole ol h m)

-- rows that are the lines of the body of a long reply
abbrev pub IsBody : List Text → Type 0
IsBody rows = (body : List Bytes) × (concat rows ≡ wire body) × NoEnd body

pub nil-IsBody : IsBody []
nil-IsBody = ([], refl, tt)

cons_whole :
    (p s : Bytes) (rows : List Text)
    → All IsSolid p
    → OneLine (p ++ s)
    → ((t : Text) → text_eq (p ++ t) (codes "END") ≡ false)
    → IsBody rows
    → IsBody (((p ++ s) ++ b'\n' ∷ []) ∷ rows)
cons_whole p s rows solid ol h (body, same, ends) = (
  (p ++ s) ∷ body,
  append_assoc (p ++ s) (b'\n' ∷ []) (concat rows) ∙ ap (λ t. (p ++ s) ++ b'\n' ∷ t) same,
  ((ol, ap (λ t. text_eq t (codes "END")) (read_text-prefix p s solid) ∙ h (read_text s)), ends),
)

pub cons-IsBody :
    (p s : Bytes) (rows : List Text)
    → All IsSolid p
    → OneLine (p ++ s)
    → ((t : Text) → text_eq (p ++ t) (codes "END") ≡ false)
    → IsBody rows
    → IsBody ((p ++ (s ++ b'\n' ∷ [])) ∷ rows)
cons-IsBody p s rows solid ol h body =
    subst (λ (t : Text). IsBody (t ∷ rows)) (append_assoc p s (b'\n' ∷ []))
      (cons_whole p s rows solid ol h body)

concat-append : (a b : List Text) → concat (a ++ b) ≡ concat a ++ concat b
concat-append [] b = refl
concat-append (t ∷ a) b =
    ap (λ u. t ++ u) (concat-append a b) ∙ sym (append_assoc t (concat a) (concat b))

wire_long :
    (head : Bytes) (rows : List Text) (body : List Bytes)
    → concat rows ≡ wire body
    → concat ((head ++ b'\n' ∷ []) ∷ (rows ++ end_line ∷ []))
      ≡ wire (head ∷ (body ++ codes "END" ∷ []))
wire_long head rows body e =
    ap (λ t. (head ++ b'\n' ∷ []) ++ t)
      (concat-append rows (end_line ∷ []) ∙ ap (λ t. t ++ end_line) e)
    ∙ append_assoc head (b'\n' ∷ []) (wire body ++ end_line)
    ∙ ap (λ t. head ++ b'\n' ∷ t) (sym (wire-append body (codes "END" ∷ [])))

end_read : text_eq (read_text (codes "END")) (codes "END") ≡ true
unfolding read_text text_eq decode
end_read = refl

-- a reply of several lines: the first begins with `p`
long_whole :
    (p s : Bytes) (rows : List Text)
    → All IsSolid p
    → OneLine (p ++ s)
    → ((t : Text) → starts_with (codes "ALERT|") (p ++ t) ≡ false)
    → ((t : Text) → is_multi (p ++ t) ≡ true)
    → IsBody rows
    → Answered (write_reply 8192 (((p ++ s) ++ b'\n' ∷ []) ∷ (rows ++ end_line ∷ [])))
long_whole p s rows solid ol h m (body, same, ends) =
    let all = wire_long (p ++ s) rows body same in
    record {
      lines = (p ++ s) ∷ (body ++ codes "END" ∷ []);
      rows = ((p ++ s) ++ b'\n' ∷ []) ∷ (rows ++ end_line ∷ []);
      same = all;
      shape =
          long (p ++ s) body (codes "END") (append-IsHead p s solid ol h)
            (head_multi p s solid true m) ends (ground arith) end_read refl;
      text = refl;
    }

pub long-Answered :
    (p s : Bytes) (rows : List Text)
    → All IsSolid p
    → OneLine (p ++ s)
    → ((t : Text) → starts_with (codes "ALERT|") (p ++ t) ≡ false)
    → ((t : Text) → is_multi (p ++ t) ≡ true)
    → IsBody rows
    → Answered (write_reply 8192 ((p ++ (s ++ b'\n' ∷ [])) ∷ (rows ++ end_line ∷ [])))
long-Answered p s rows solid ol h m body =
    subst (λ (t : Text). Answered (write_reply 8192 (t ∷ (rows ++ end_line ∷ []))))
      (append_assoc p s (b'\n' ∷ [])) (long_whole p s rows solid ol h m body)
